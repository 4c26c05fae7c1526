-- ===== src/Escape/Buffer.antt =====
-- src/report/escape.c: the growable buffer and the escapers that append to it.
use cytadel_scan.Base.{
  ℕ, zero, suc, ◌+◌, ◌-◌, ◌*◌, ◌/◌, Bool, not, Option, none, some, [], ◌∷◌, ◌++◌, Bytes, codes,
  length, ltb, leb, ◌==◌, if◌then◌else◌,
}
use cytadel_scan.Escape.{
  html_escape_one, json_escape_one, url_has_disallowed_control, url_percent_encode_one, drop_breaks,
  trim_start, trim_end, is_allowed,
}

abbrev pub size_max : ℕ
size_max = 18446744073709551615

-- The bytes in front of `data[len]`, and `cap`.
pub record ReportBuf : Type 0 where
  pub data_bytes : Bytes
  pub cap : ℕ

unfoldable pub report_buf_init : ReportBuf
report_buf_init = record { data_bytes = []; cap = 0 }

-- The doubling loop; `none` means that the fuel ran out.
unfoldable pub doubling_loop : ℕ → ℕ → ℕ → Option ℕ
doubling_loop zero new_cap need = none
doubling_loop (suc n) new_cap need =
    let again = doubling_loop n (new_cap * 2) need in
    if not (ltb new_cap need)
    then some new_cap
    else if ltb (size_max / 2) new_cap
    then some need
    else again

abbrev pub start_cap : ℕ → ℕ
start_cap cap = if cap == 0 then 64 else cap

-- `realloc` of a size succeeds or not. `none` is `return false`, with the buffer as it was.
abbrev pub reallocated : (ℕ → Bool) → ReportBuf → Option ℕ → Option ReportBuf
reallocated realloc_ok buf none = none
reallocated realloc_ok buf (some new_cap) =
    if realloc_ok new_cap then some (record buf { cap = new_cap }) else none

-- A size has 64 bits, so that 65 rounds are enough.
unfoldable pub buf_reserve : (ℕ → Bool) → ReportBuf → ℕ → Option ReportBuf
buf_reserve realloc_ok buf extra =
    let base = length buf.data_bytes + 1 in
    if ltb (size_max - 1) (length buf.data_bytes)
    then none
    else if ltb (size_max - base) extra
    then none
    else if leb (base + extra) buf.cap
    then some buf
    else reallocated realloc_ok buf (doubling_loop 65 (start_cap buf.cap) (base + extra))

-- The Boolean result of an escaper, with the buffer that it leaves.
pub data Written : Type 0 where
  fine failed : ReportBuf → Written

abbrev pub appended : ReportBuf → Bytes → Option ReportBuf → Written
appended buf src none = failed buf
appended buf src (some grown) = fine (record grown { data_bytes = grown.data_bytes ++ src })

unfoldable pub buf_append : (ℕ → Bool) → ReportBuf → Bytes → Written
buf_append realloc_ok buf src = appended buf src (buf_reserve realloc_ok buf (length src))

-- The loop of the escapers, `one c` being what a byte becomes.
unfoldable pub escape_loop : (ℕ → Bytes) → (ℕ → Bool) → ReportBuf → Bytes → Written
escape_loop one realloc_ok out [] = fine out
escape_loop one realloc_ok out (c ∷ s) = elim (buf_append realloc_ok out (one c)) [
  | failed b ↦ failed b
  | fine b ↦ escape_loop one realloc_ok b s
]

-- `cytadel_escape_html_attr` escapes quotes, `cytadel_escape_html_body` does not.
unfoldable pub escape_html : Bool → (ℕ → Bool) → ReportBuf → Bytes → Written
escape_html escape_quotes realloc_ok out s =
    escape_loop (html_escape_one escape_quotes) realloc_ok out s

unfoldable pub escape_json : (ℕ → Bool) → ReportBuf → Bytes → Written
escape_json realloc_ok out s = escape_loop json_escape_one realloc_ok out s

unfoldable pub cleaned : Bytes → Bytes
cleaned s = trim_end (trim_start (drop_breaks s))

-- Whether the copy can be had is `malloc_ok`.
unfoldable pub escape_url : Bool → (ℕ → Bool) → ReportBuf → Bytes → Written
escape_url malloc_ok realloc_ok out [] = fine out
escape_url malloc_ok realloc_ok out (c ∷ s) =
    if url_has_disallowed_control (c ∷ s)
    then buf_append realloc_ok out (codes "#")
    else if not malloc_ok
    then failed out
    else if not (is_allowed (cleaned (c ∷ s)))
    then buf_append realloc_ok out (codes "#")
    else escape_loop url_percent_encode_one realloc_ok out (cleaned (c ∷ s))
