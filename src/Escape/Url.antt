-- ===== src/Escape/Url.antt =====
-- src/report/escape.c: what may stand in the URL that the escaper appends.
use cytadel_scan.Base.{
  ℕ, ◌/◌, ◌%◌, ◌<◌, Bool, true, false, ◌&&◌, [], ◌∷◌, ◌≡◌, ◌≢◌, ◌⊎◌, inl, inr, refl, arith, Bytes,
  ◌==◌, All, All-append, Bool-cases,
}
use cytadel_scan.Escape.Loop.{escaped}
use cytadel_scan.Escape.{
  url_is_safe_char, url_percent_encode_one, is_scheme_char, is_alpha_ascii, scheme_tail, scheme_of,
  is_protocol_relative, hex_digit_upper,
}

-- A printable byte that HTML reads as it is, in text and in a quoted value.
abbrev pub IsUrlByte : ℕ → Type 0
IsUrlByte c = (32 < c) × (c < 127) × (c ≢ b'"') × (c ≢ b'&') × (c ≢ 39) × (c ≢ b'<') × (c ≢ b'>')

safe-IsUrlByte : (c : ℕ) → url_is_safe_char c ≡ true → IsUrlByte c
unfolding url_is_safe_char
safe-IsUrlByte c h = (
  ground arith,
  ground arith,
  ground arith,
  ground arith,
  ground arith,
  ground arith,
  ground arith,
)

hex_digit-IsUrlByte : (d : ℕ) → d < 16 → IsUrlByte (hex_digit_upper d)
hex_digit-IsUrlByte d h = (
  ground arith,
  ground arith,
  ground arith,
  ground arith,
  ground arith,
  ground arith,
  ground arith,
)

percent-IsUrlByte : IsUrlByte b'%'
percent-IsUrlByte =
    (omega arith, omega arith, omega arith, omega arith, omega arith, omega arith, omega arith)

url_percent_encode_one-IsUrlByte : (c : ℕ) → c < 256 → All IsUrlByte (url_percent_encode_one c)
unfolding url_percent_encode_one
url_percent_encode_one-IsUrlByte c h = elim (Bool-cases (url_is_safe_char c)) [
  | inl e ↦ rw e (safe-IsUrlByte c e, tt)
  | inr e ↦ rw e (
    percent-IsUrlByte,
    (hex_digit-IsUrlByte (c / 16) (omega arith), (hex_digit-IsUrlByte (c % 16) (omega arith), tt)),
  )
]

pub escaped-IsUrlByte :
    (s : Bytes) → All (λ c. c < 256) s → All IsUrlByte (escaped url_percent_encode_one s)
unfolding escaped
escaped-IsUrlByte [] h = tt
escaped-IsUrlByte (c ∷ s) h =
    All-append IsUrlByte (url_percent_encode_one c) (escaped url_percent_encode_one s)
      (url_percent_encode_one-IsUrlByte c h.0) (escaped-IsUrlByte s h.1)

-- A byte that is encoded ends a scheme and is no slash.
encode_cases :
    (c : ℕ)
    → (url_percent_encode_one c ≡ c ∷ [])
      ⊎ ((x : ℕ) × (y : ℕ) × (url_percent_encode_one c ≡ b'%' ∷ x ∷ y ∷ [])
          × (is_scheme_char c ≡ false)
          × (is_alpha_ascii c ≡ false)
          × ((c == b':') ≡ false)
          × ((c == b'/') ≡ false))
unfolding url_percent_encode_one url_is_safe_char is_scheme_char is_alpha_ascii
encode_cases c = elim (Bool-cases (url_is_safe_char c)) [
  | inl e ↦ inl (rw e refl)
  | inr e ↦ inr (
    hex_digit_upper (c / 16),
    hex_digit_upper (c % 16),
    rw e refl,
    ground arith,
    ground arith,
    ground arith,
    ground arith,
  )
]

scheme_tail-escaped : (s : Bytes) → scheme_tail (escaped url_percent_encode_one s) ≡ scheme_tail s
unfolding scheme_tail escaped is_scheme_char is_alpha_ascii
scheme_tail-escaped [] = refl
scheme_tail-escaped (c ∷ s) = elim (encode_cases c) [
  | inl e ↦ rw (e, scheme_tail-escaped s) refl
  | inr (x, y, e, not_scheme, not_alpha, not_colon, not_slash) ↦ rw (e, not_scheme, not_colon) refl
]

-- Encoding keeps the scheme.
pub scheme_of-escaped : (s : Bytes) → scheme_of (escaped url_percent_encode_one s) ≡ scheme_of s
unfolding scheme_of escaped is_alpha_ascii
scheme_of-escaped [] = refl
scheme_of-escaped (c ∷ s) = elim (encode_cases c) [
  | inl e ↦ rw (e, scheme_tail-escaped s) refl
  | inr (x, y, e, not_scheme, not_alpha, not_colon, not_slash) ↦ rw (e, not_alpha) refl
]

slash_and_percent : (b : Bool) → (b && false) ≡ false
slash_and_percent b = ground arith

-- Encoding does not make a URL relative to the page's scheme.
pub is_protocol_relative-escaped :
    (s : Bytes)
    → is_protocol_relative s ≡ false
    → is_protocol_relative (escaped url_percent_encode_one s) ≡ false
unfolding is_protocol_relative escaped
is_protocol_relative-escaped [] h = refl
is_protocol_relative-escaped (c ∷ []) h = elim (encode_cases c) [
  | inl e ↦ rw e refl
  | inr (x, y, e, n1, n2, n3, n4) ↦ rw e refl
]
is_protocol_relative-escaped (c ∷ d ∷ s) h = elim (encode_cases c) [
  | inr (x, y, e, n1, n2, n3, n4) ↦ rw e refl
  | inl e ↦ elim (encode_cases d) [
    | inl f ↦ rw (e, f) h
    | inr (x, y, f, n1, n2, n3, n4) ↦ rw (e, f) (slash_and_percent (c == b'/'))
  ]
]
