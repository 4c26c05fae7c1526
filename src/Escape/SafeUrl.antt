-- ===== src/Escape/SafeUrl.antt =====
-- src/report/escape.c: the URL that `cytadel_escape_url` appends.
use cytadel_scan.Base.{
  ℕ, ◌<◌, Bool, true, false, ◌&&◌, ◌||◌, none, some, [], ◌∷◌, ◌++◌, ◌≡◌, ◌⊎◌, inl, inr, refl, sym,
  arith, Bytes, codes, ◌==◌, if◌then◌else◌, All, Bool-cases, Option-cases, append-nil,
}
use cytadel_scan.Escape.Buffer.{ReportBuf, fine, failed, buf_append, cleaned, escape_url}
use cytadel_scan.Escape.Grow.{IsBuf}
use cytadel_scan.Escape.Loop.{escaped, escape_loop-fine, buf_append-Appended}
use cytadel_scan.Escape.Url.{
  IsUrlByte, escaped-IsUrlByte, scheme_of-escaped, is_protocol_relative-escaped,
}
use cytadel_scan.Escape.{
  url_is_safe_char, url_percent_encode_one, url_has_disallowed_control, is_alpha_ascii, scheme_of,
  is_protocol_relative, is_web_scheme, is_allowed, drop_breaks, trim_start, trim_end,
}

-- No URL relative to the page's scheme, and `http`, `https` or no scheme at all.
abbrev pub IsSafeUrl : Bytes → Type 0
IsSafeUrl url =
    (is_protocol_relative url ≡ false)
    × ((scheme_of url ≡ none)
        ⊎ ((scheme : Bytes) × (scheme_of url ≡ some scheme) × (is_web_scheme scheme ≡ true)))

abbrev IsByte : ℕ → Type 0
IsByte c = c < 256

drop_breaks-IsByte : (s : Bytes) → All IsByte s → All IsByte (drop_breaks s)
unfolding drop_breaks
drop_breaks-IsByte [] h = tt
drop_breaks-IsByte (c ∷ s) h = elim (Bool-cases (c == 9 || c == 10 || c == 13)) [
  | inl e ↦ rw e (drop_breaks-IsByte s h.1)
  | inr e ↦ rw e (h.0, drop_breaks-IsByte s h.1)
]

trim_start-IsByte : (s : Bytes) → All IsByte s → All IsByte (trim_start s)
unfolding trim_start
trim_start-IsByte [] h = tt
trim_start-IsByte (c ∷ s) h = elim (Bool-cases (c == b' ')) [
  | inl e ↦ rw e (trim_start-IsByte s h.1)
  | inr e ↦ rw e h
]

trim_end-IsByte : (s : Bytes) → All IsByte s → All IsByte (trim_end s)
unfolding trim_end
trim_end-IsByte [] h = tt
trim_end-IsByte (c ∷ s) h = choose (trim_end s) (trim_end-IsByte s h.1)
  where
    choose :
        (t : Bytes)
        → All IsByte t
        → All IsByte (if (elim t [ [] ↦ true | d ∷ r ↦ false ]) && c == b' ' then [] else c ∷ t)
    choose [] k = elim (Bool-cases (c == b' ')) [ inl e ↦ rw e tt | inr e ↦ rw e (h.0, tt) ]
    choose (d ∷ r) k = (h.0, k)

cleaned-IsByte : (s : Bytes) → All IsByte s → All IsByte (cleaned s)
unfolding cleaned
cleaned-IsByte s h =
    trim_end-IsByte (trim_start (drop_breaks s))
      (trim_start-IsByte (drop_breaks s) (drop_breaks-IsByte s h))

-- A URL with a scheme starts with a letter.
scheme_of-first : (s scheme : Bytes) → scheme_of s ≡ some scheme → is_protocol_relative s ≡ false
unfolding scheme_of is_protocol_relative is_alpha_ascii
scheme_of-first [] scheme h = refl
scheme_of-first (c ∷ []) scheme h = refl
scheme_of-first (c ∷ d ∷ s) scheme h = elim (Bool-cases (c == b'/')) [
  | inr e ↦ rw e refl
  | inl e ↦
      let letter : is_alpha_ascii c ≡ false = ground arith in
      let bad : none ≡ some scheme = rw letter at h in absurd (cc)
]

is_allowed-IsSafeUrl : (s : Bytes) → is_allowed s ≡ true → IsSafeUrl s
unfolding is_allowed
is_allowed-IsSafeUrl s h = elim (Option-cases (scheme_of s)) [
  | inr (scheme, e) ↦ (scheme_of-first s scheme e, inr (scheme, e, rw (e, is_allowed) at h))
  | inl e ↦ elim (Bool-cases (is_protocol_relative s)) [
    | inl p ↦ let bad : false ≡ true = rw (e, p, is_allowed) at h in absurd (cc)
    | inr p ↦ (p, inl e)
  ]
]

escaped-IsSafeUrl : (s : Bytes) → IsSafeUrl s → IsSafeUrl (escaped url_percent_encode_one s)
escaped-IsSafeUrl s h = (is_protocol_relative-escaped s h.0, rw (scheme_of-escaped s) h.1)

-- What was appended, and that it may stand in a link.
abbrev Links : ReportBuf → ReportBuf → Type 0
Links out b = (r : Bytes) × (b.data_bytes ≡ out.data_bytes ++ r) × All IsUrlByte r × IsSafeUrl r

hash_mark-IsUrlByte : IsUrlByte b'#'
hash_mark-IsUrlByte =
    (omega arith, omega arith, omega arith, omega arith, omega arith, omega arith, omega arith)

hash_mark :
    (realloc_ok : ℕ → Bool) (out b : ReportBuf)
    → IsBuf out
    → buf_append realloc_ok out (codes "#") ≡ fine b
    → Links out b
unfolding url_is_safe_char is_protocol_relative scheme_of is_alpha_ascii
hash_mark realloc_ok out b h e =
    let w = buf_append-Appended realloc_ok out (codes "#") h in
    let (good, grew) = rw e at w in (codes "#", grew, (hash_mark-IsUrlByte, tt), (refl, inl refl))

-- Whatever the bytes of the text, what a successful `escape_url` appends to a well-formed buffer is
-- printable ASCII with no quote, no angle bracket, no ampersand and no blank; its scheme, if it has
-- one, is `http` or `https` in any case, and it does not start with two slashes, or with a slash and
-- a backslash.
pub escape_url-IsSafeUrl :
    (malloc_ok : Bool) (realloc_ok : ℕ → Bool) (out b : ReportBuf) (s : Bytes)
    → IsBuf out
    → All (λ c. c < 256) s
    → escape_url malloc_ok realloc_ok out s ≡ fine b
    → (r : Bytes) × (b.data_bytes ≡ out.data_bytes ++ r) × All IsUrlByte r × IsSafeUrl r
unfolding escape_url is_protocol_relative scheme_of
escape_url-IsSafeUrl malloc_ok realloc_ok out b [] h bytes e =
    let same : out ≡ b = cc in
    rw (← same) ([], sym (append-nil out.data_bytes), tt, (refl, inl refl))
escape_url-IsSafeUrl malloc_ok realloc_ok out b (c ∷ s) h bytes e =
    elim (Bool-cases (url_has_disallowed_control (c ∷ s))) [
      | inl x ↦ hash_mark realloc_ok out b h (rw x at e)
      | inr x ↦ elim (Bool-cases malloc_ok) [
        | inr m ↦ let bad : failed out ≡ fine b = rw (x, m) at e in absurd (cc)
        | inl m ↦ elim (Bool-cases (is_allowed (cleaned (c ∷ s)))) [
          | inr a ↦ hash_mark realloc_ok out b h (rw (x, m, a) at e)
          | inl a ↦ (
            escaped url_percent_encode_one (cleaned (c ∷ s)),
            escape_loop-fine url_percent_encode_one realloc_ok out b (cleaned (c ∷ s)) h
                (rw (x, m, a) at e),
            escaped-IsUrlByte (cleaned (c ∷ s)) (cleaned-IsByte (c ∷ s) bytes),
            escaped-IsSafeUrl (cleaned (c ∷ s)) (is_allowed-IsSafeUrl (cleaned (c ∷ s)) a),
          )
        ]
      ]
    ]
