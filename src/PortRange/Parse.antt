-- ===== src/PortRange/Parse.antt =====
-- src/net/port_range.c: what a specification selects.
use cytadel_scan.Base.{
  ℕ, ◌+◌, ◌≤◌, ◌<◌, Bool, true, false, ◌&&◌, ◌||◌, Option, none, some, List, [], ◌∷◌, ◌≡◌, ◌≢◌,
  refl, ◌∙◌, arith, Bytes, length, ltb, leb, Bool-cases, inl, inr, ◌⊎◌, All,
}
use cytadel_scan.PortRange.Bitmap.{
  Bitmap, cleared, IsByteMap, bitmap_test, bitmap_set_range, bitmap_set_range-law,
  bitmap_test-cleared,
}
use cytadel_scan.PortRange.Scan.{set_bits, stopped, token_loop, collect}
use cytadel_scan.PortRange.Sorted.{contains, contains-collect}
use cytadel_scan.PortRange.{
  Status, ok, malformed, out_of_bounds, too_many, empty, Range, ports, refused, check_ends, ends_of,
  parse_uint, parse_token, spec_max_tokens, port_min, port_max, before_dash, after_dash,
}

abbrev pub in_range : ℕ → Range → Bool
in_range v (ports s e) = leb s v && leb v e
in_range v (refused st) = false

-- Some token's range holds the port.
abbrev pub covered : ℕ → List Bytes → Bool
covered v [] = false
covered v (t ∷ ts) = in_range v (parse_token t) || covered v ts

abbrev pub accepts : Range → Bool
accepts (ports s e) = true
accepts (refused st) = false

ends_of-ports :
    (a b : Option ℕ) (s e : ℕ) → ends_of a b ≡ ports s e → (1 ≤ s) × (s ≤ e) × (e ≤ 65535)
unfolding check_ends
ends_of-ports none b s e h = cc
ends_of-ports (some x) none s e h = cc
ends_of-ports (some x) (some y) s e h = ground arith

ends_of-refused :
    (a b : Option ℕ) (st : Status)
    → ends_of a b ≡ refused st
    → (st ≡ malformed) ⊎ (st ≡ out_of_bounds)
unfolding check_ends
ends_of-refused none b st h = ground arith
ends_of-refused (some x) none st h = ground arith
ends_of-refused (some x) (some y) st h = ground arith

-- A range that a token stands for is not empty and lies within the ports.
pub parse_token-ports :
    (t : Bytes) (s e : ℕ) → parse_token t ≡ ports s e → (1 ≤ s) × (s ≤ e) × (e ≤ 65535)
unfolding parse_token
parse_token-ports t s e h = ground (
  arith,
  ends_of-ports (parse_uint (before_dash t)) (parse_uint (after_dash t)) s e,
  ends_of-ports (parse_uint t) (parse_uint t) s e,
)

parse_token-refused :
    (t : Bytes) (st : Status) → parse_token t ≡ refused st → (st ≡ malformed) ⊎ (st ≡ out_of_bounds)
unfolding parse_token
parse_token-refused t st h = ground (
  arith,
  ends_of-refused (parse_uint (before_dash t)) (parse_uint (after_dash t)) st,
  ends_of-refused (parse_uint t) (parse_uint t) st,
)

pub Range-cases :
    (r : Range) → ((s : ℕ) × (e : ℕ) × (r ≡ ports s e)) ⊎ ((st : Status) × (r ≡ refused st))
Range-cases (ports s e) = inl (s, e, refl)
Range-cases (refused st) = inr (st, refl)

covered-bounds : (v : ℕ) (ts : List Bytes) → covered v ts ≡ true → (1 ≤ v) × (v ≤ 65535)
covered-bounds v [] h = absurd (cc)
covered-bounds v (t ∷ ts) h = elim (Range-cases (parse_token t)) [
  | inl (x, y, r) ↦ ground (arith, covered-bounds v ts, parse_token-ports t x y r)
  | inr (st, r) ↦ ground (arith, covered-bounds v ts)
]

-- What a pass through all tokens leaves in the bitmap.
pub record Passed (ts : List Bytes) (before after : Bitmap) : Type 0 where
  pub tested : (v : ℕ) → bitmap_test after v ≡ covered v ts || bitmap_test before v
  pub bytes : IsByteMap after
  pub accepted : All (λ t. accepts (parse_token t) ≡ true) ts

pub token_loop-Passed :
    (ts : List Bytes) (n : ℕ) (before after : Bitmap)
    → IsByteMap before
    → token_loop n ts before ≡ set_bits after
    → Passed ts before after
unfolding token_loop
token_loop-Passed [] n before after h e =
    let same : before ≡ after = cc in
    rw (← same) (record { tested = λ v. refl; bytes = h; accepted = tt })
token_loop-Passed (t ∷ ts) n before after h e = elim (Bool-cases (ltb spec_max_tokens (n + 1))) [
  | inl many ↦ let bad : stopped too_many ≡ set_bits after = rw many at e in cc
  | inr few ↦ elim (Range-cases (parse_token t)) [
    | inr (st, r) ↦ let bad : stopped st ≡ set_bits after = rw (few, r, token_loop) at e in cc
    | inl (x, y, r) ↦
        let mid = bitmap_set_range x y before in
        let bounds = parse_token-ports t x y r in
        let ih =
          token_loop-Passed ts (n + 1) mid after (bitmap_set_range-law x y before 0 h bounds.1).1
            (rw (few, r, token_loop) at e) in
        record {
          tested = λ v.
              ih.tested v
              ∙ rw ((bitmap_set_range-law x y before v h bounds.1).0, r)
                  (shuffle (covered v ts) (in_range v (ports x y)) (bitmap_test before v));
          bytes = ih.bytes;
          accepted = (rw r refl, ih.accepted);
        }
  ]
]
  where
    shuffle : (p q r : Bool) → (p || (q || r)) ≡ ((q || p) || r)
    shuffle p q r = ground arith

pub token_loop-total :
    (ts : List Bytes) (n : ℕ) (before : Bitmap)
    → n + length ts ≤ spec_max_tokens
    → All (λ t. accepts (parse_token t) ≡ true) ts
    → (after : Bitmap) × (token_loop n ts before ≡ set_bits after)
unfolding token_loop
token_loop-total [] n before h a = (before, refl)
token_loop-total (t ∷ ts) n before h a =
    let few : ltb spec_max_tokens (n + 1) ≡ false = ground arith in
    elim (Range-cases (parse_token t)) [
      | inr (st, r) ↦ let bad : false ≡ true = rw r at a.0 in cc
      | inl (x, y, r) ↦
          let (after, e) =
            token_loop-total ts (n + 1) (bitmap_set_range x y before) (omega arith) a.1 in
          (after, rw (few, r, token_loop) e)
    ]

pub token_loop-few :
    (ts : List Bytes) (n : ℕ) (before after : Bitmap)
    → n ≤ spec_max_tokens
    → token_loop n ts before ≡ set_bits after
    → n + length ts ≤ spec_max_tokens
unfolding token_loop
token_loop-few [] n before after h e = omega arith
token_loop-few (t ∷ ts) n before after h e = elim (Bool-cases (ltb spec_max_tokens (n + 1))) [
  | inl many ↦ let bad : stopped too_many ≡ set_bits after = rw many at e in absurd (cc)
  | inr few ↦ elim (Range-cases (parse_token t)) [
    | inr (st, r) ↦
        let bad : stopped st ≡ set_bits after = rw (few, r, token_loop) at e in absurd (cc)
    | inl (x, y, r) ↦ omega (
      arith,
      token_loop-few ts (n + 1) (bitmap_set_range x y before) after (ground arith)
          (rw (few, r, token_loop) at e),
    )
  ]
]

-- The errors of a pass are those of a token, or of too many tokens.
pub token_loop-stopped :
    (ts : List Bytes) (n : ℕ) (before : Bitmap) (st : Status)
    → token_loop n ts before ≡ stopped st
    → (st ≢ empty) × ((ps : List ℕ) → st ≢ ok ps)
unfolding token_loop
token_loop-stopped [] n before st e = absurd (cc)
token_loop-stopped (t ∷ ts) n before st e = elim (Bool-cases (ltb spec_max_tokens (n + 1))) [
  | inl many ↦ let same : stopped too_many ≡ stopped st = rw many at e in (λ x. cc, λ ps x. cc)
  | inr few ↦ elim (Range-cases (parse_token t)) [
    | inr (sr, r) ↦
        let same : stopped sr ≡ stopped st = rw (few, r, token_loop) at e in
        let kinds = parse_token-refused t sr r in (λ x. ground arith, λ ps x. ground arith)
    | inl (x, y, r) ↦
        token_loop-stopped ts (n + 1) (bitmap_set_range x y before) st
          (rw (few, r, token_loop) at e)
  ]
]

pub contains-length : (v : ℕ) (ps : List ℕ) → contains v ps ≡ true → 0 < length ps
contains-length v [] h = cc
contains-length v (p ∷ ps) h = omega arith

-- The ports counted and collected after a pass are those of the tokens.
pub collected :
    (ts : List Bytes) (after : Bitmap) (v : ℕ)
    → Passed ts cleared after
    → contains v (collect port_max port_min after) ≡ covered v ts
collected ts after v p =
    contains-collect port_max port_min v after
    ∙ rw (p.tested v) (rw (bitmap_test-cleared v) (bounded (covered v ts) (covered-bounds v ts)))
  where
    bounded :
        (b : Bool)
        → (b ≡ true → (1 ≤ v) × (v ≤ 65535))
        → (leb 1 v && ltb v (1 + 65535)) && (b || false) ≡ b
    bounded true h = ground (arith, h refl)
    bounded false h = ground arith
