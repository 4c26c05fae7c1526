-- ===== src/Escape/Json.antt =====
-- src/report/escape.c: the text of a JSON string.
use cytadel_scan.Base.{
  ℕ, ◌+◌, ◌-◌, ◌*◌, ◌/◌, ◌%◌, ◌<◌, Bool, true, false, ◌&&◌, ◌||◌, Option, none, some, [], ◌∷◌, ◌++◌,
  ◌≡◌, inl, inr, refl, ◌∙◌, arith, Bytes, ltb, leb, ◌==◌, if◌then◌else◌, Bool-cases,
}
use cytadel_scan.Escape.Loop.{escaped, escape_loop-fine}
use cytadel_scan.Escape.Grow.{IsBuf}
use cytadel_scan.Escape.Buffer.{ReportBuf, fine, escape_json}
use cytadel_scan.Escape.{json_escape_one, hex_digit_lower, before}

unfoldable pub hex_value : ℕ → Option ℕ
hex_value c =
    if leb b'0' c && leb c b'9'
    then some (c - b'0')
    else if leb b'a' c && leb c b'f'
    then some (c - 87)
    else if leb b'A' c && leb c b'F'
    then some (c - 55)
    else none

-- The byte that a letter behind a backslash stands for (RFC 8259, section 7).
unfoldable pub simple_escape : ℕ → Option ℕ
simple_escape c =
    if c == b'"' || c == 92 || c == b'/'
    then some c
    else if c == b'b'
    then some 8
    else if c == b'f'
    then some 12
    else if c == b'n'
    then some 10
    else if c == b'r'
    then some 13
    else if c == b't'
    then some 9
    else none

-- Where the reader stands: in the text, behind a backslash, or behind some digits of `\u`.
pub data Mode : Type 0 where
  in_text behind_backslash : Mode
  in_hex : ℕ → ℕ → Mode

-- A code unit from the digits; only those below 128 are a byte of their own.
abbrev pub hex_step : ℕ → ℕ → Option ℕ → (ℕ → ℕ → Option Bytes) → (ℕ → Option Bytes) → Option Bytes
hex_step left v none more done = none
hex_step left v (some d) more done =
    if left == 1
    then (if ltb (v * 16 + d) 128 then done (v * 16 + d) else none)
    else more (left - 1) (v * 16 + d)

abbrev pub simple_step : Option ℕ → Option Bytes → Option Bytes
simple_step none rest = none
simple_step (some c) rest = before c rest

-- A reader of the text between the quotes: a raw quote or control byte is refused.
unfoldable pub json_read : Mode → Bytes → Option Bytes
json_read in_text [] = some []
json_read behind_backslash [] = none
json_read (in_hex left v) [] = none
json_read in_text (c ∷ s) =
    let escape = json_read behind_backslash s in
    let next = json_read in_text s in
    if c == 92 then escape else if c == b'"' || ltb c 0x20 then none else before c next
json_read behind_backslash (c ∷ s) =
    let unit = json_read (in_hex 4 0) s in
    let next = json_read in_text s in if c == b'u' then unit else simple_step (simple_escape c) next
json_read (in_hex left v) (c ∷ s) =
    hex_step left v (hex_value c) (λ l w. json_read (in_hex l w) s)
      (λ w. before w (json_read in_text s))

hex_value-hex_digit_lower : (d : ℕ) → d < 16 → hex_value (hex_digit_lower d) ≡ some d
unfolding hex_value
hex_value-hex_digit_lower d h = ground arith

reads_simple :
    (t : Bytes)
    → (json_read in_text (92 ∷ b'"' ∷ t) ≡ before b'"' (json_read in_text t))
      × (json_read in_text (92 ∷ 92 ∷ t) ≡ before 92 (json_read in_text t))
      × (json_read in_text (92 ∷ b'b' ∷ t) ≡ before 8 (json_read in_text t))
      × (json_read in_text (92 ∷ b'f' ∷ t) ≡ before 12 (json_read in_text t))
      × (json_read in_text (92 ∷ b'n' ∷ t) ≡ before 10 (json_read in_text t))
      × (json_read in_text (92 ∷ b'r' ∷ t) ≡ before 13 (json_read in_text t))
      × (json_read in_text (92 ∷ b't' ∷ t) ≡ before 9 (json_read in_text t))
unfolding json_read simple_escape
reads_simple t = (refl, refl, refl, refl, refl, refl, refl)

reads_unit :
    (c : ℕ) (t : Bytes)
    → c < 0x20
    → json_read in_text
        (92 ∷ b'u' ∷ b'0' ∷ b'0' ∷ hex_digit_lower (c / 16) ∷ hex_digit_lower (c % 16) ∷ t)
      ≡ before c (json_read in_text t)
unfolding json_read
reads_unit c t h =
    let zero_digit : hex_value b'0' ≡ some 0 = unfold hex_value in refl in
    let value : (0 + c / 16) * 16 + c % 16 ≡ c = omega arith in
    let small : ltb c 128 ≡ true = ground arith in
    rw
      (
        zero_digit,
        hex_value-hex_digit_lower (c / 16) (omega arith),
        hex_value-hex_digit_lower (c % 16) (omega arith),
        value,
        small,
      )
      refl

abbrev Reads : ℕ → Bytes → Type 0
Reads c t = json_read in_text (json_escape_one c ++ t) ≡ before c (json_read in_text t)

read_as : (d c : ℕ) (t : Bytes) → c ≡ d → Reads d t → Reads c t
read_as d c t e h = rw e h

json_read-plain :
    (c : ℕ) (t : Bytes) → (c == b'"') ≡ false → (c == 92) ≡ false → ltb c 0x20 ≡ false → Reads c t
unfolding json_escape_one json_read
json_read-plain c t e1 e2 e3 =
    let b : (c == 8) ≡ false = ground arith in
    let f : (c == 12) ≡ false = ground arith in
    let n : (c == 10) ≡ false = ground arith in
    let r : (c == 13) ≡ false = ground arith in
    let tab : (c == 9) ≡ false = ground arith in
    rw (e1, e2, b, f, n, r, tab, e3) (rw (e1, e2, e3) refl)

json_read-unit :
    (c : ℕ) (t : Bytes)
    → c < 0x20
    → (c == 8) ≡ false
    → (c == 12) ≡ false
    → (c == 10) ≡ false
    → (c == 13) ≡ false
    → (c == 9) ≡ false
    → Reads c t
unfolding json_escape_one
json_read-unit c t h b f n r tab =
    let quote : (c == b'"') ≡ false = ground arith in
    let backslash : (c == 92) ≡ false = ground arith in
    let low : ltb c 0x20 ≡ true = ground arith in
    rw (quote, backslash, b, f, n, r, tab, low) (reads_unit c t h)

json_read-control : (c : ℕ) (t : Bytes) → c < 0x20 → Reads c t
unfolding json_escape_one
json_read-control c t h =
    let (quote, backslash, b, f, n, r, tab) = reads_simple t in
    elim (Bool-cases (c == 8)) [
      | inl e ↦ read_as 8 c t (ground arith) b
      | inr e1 ↦ elim (Bool-cases (c == 12)) [
        | inl e ↦ read_as 12 c t (ground arith) f
        | inr e2 ↦ elim (Bool-cases (c == 10)) [
          | inl e ↦ read_as 10 c t (ground arith) n
          | inr e3 ↦ elim (Bool-cases (c == 13)) [
            | inl e ↦ read_as 13 c t (ground arith) r
            | inr e4 ↦ elim (Bool-cases (c == 9)) [
              | inl e ↦ read_as 9 c t (ground arith) tab
              | inr e5 ↦ json_read-unit c t h e1 e2 e3 e4 e5
            ]
          ]
        ]
      ]
    ]

json_read-json_escape_one : (c : ℕ) (t : Bytes) → Reads c t
unfolding json_escape_one
json_read-json_escape_one c t =
    let (quote, backslash, b, f, n, r, tab) = reads_simple t in
    elim (Bool-cases (c == b'"')) [
      | inl e ↦ read_as b'"' c t (ground arith) quote
      | inr e1 ↦ elim (Bool-cases (c == 92)) [
        | inl e ↦ read_as 92 c t (ground arith) backslash
        | inr e2 ↦ elim (Bool-cases (ltb c 0x20)) [
          | inl e ↦ json_read-control c t (ground arith)
          | inr e3 ↦ json_read-plain c t e1 e2 e3
        ]
      ]
    ]

-- A JSON reader gets the text back from the escaped text, and finds no raw quote, no raw control
-- byte and no backslash that it does not know in it.
pub json_read-escaped : (s : Bytes) → json_read in_text (escaped json_escape_one s) ≡ some s
unfolding escaped
json_read-escaped [] = unfold json_read in refl
json_read-escaped (c ∷ s) =
    json_read-json_escape_one c (escaped json_escape_one s) ∙ rw (json_read-escaped s) refl

-- What `escape_json` appends to a buffer reads back as the text.
pub json_read-escape_json :
    (realloc_ok : ℕ → Bool) (out b : ReportBuf) (s : Bytes)
    → IsBuf out
    → escape_json realloc_ok out s ≡ fine b
    → (r : Bytes) × (b.data_bytes ≡ out.data_bytes ++ r) × (json_read in_text r ≡ some s)
unfolding escape_json
json_read-escape_json realloc_ok out b s h e = (
  escaped json_escape_one s,
  escape_loop-fine json_escape_one realloc_ok out b s h e,
  json_read-escaped s,
)
