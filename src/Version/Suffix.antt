-- ===== src/Version/Suffix.antt =====
-- src/match/version_compare.c: a version against itself with a delimiter and more behind it.
use cytadel_scan.Base.{
  ℕ, zero, suc, ◌<◌, ◌≤◌, Bool, true, false, not, Option, none, some, ◌≡◌, ◌≢◌, ◌⊎◌, inl, inr, refl,
  sym, ap, ◌∙◌, arith, [], ◌∷◌, ◌++◌, Bytes, length, length-append, ◌==◌,
}
use cytadel_scan.Version.{Vercmp, equal, is_digit_byte, is_delim_byte}
use cytadel_scan.Version.Append.{take_while-stop, skip_while-stop}
use cytadel_scan.Version.Compare.{done, go_on, residual_of_a, outcome, compare_loop}
use cytadel_scan.Version.Equal.{outcome_refl}
use cytadel_scan.Version.Residual.{token_verdict, residual_loop, residual_verdict}
use cytadel_scan.Version.Scan.{
  Token, tok_none, tok_num, tok_alpha, Scan, next_token, next_token-length, token_at, skip_while,
  length-skip_while, is_alpha_byte,
}
use cytadel_scan.Version.Total.{residual_verdict-total}

-- More fuel changes no verdict.
residual_loop-more :
    (f g : ℕ) (buf : Bytes) (v : Vercmp)
    → f ≤ g
    → residual_loop f buf ≡ some v
    → residual_loop g buf ≡ some v
unfolding residual_loop
residual_loop-more zero g buf v h e = cc
residual_loop-more (suc f) zero buf v h e = absurd (omega arith)
residual_loop-more (suc f) (suc g) buf v h e =
    let t = next_token buf in ground (arith, residual_loop-more f g t.rest v)

residual_loop-cong :
    (f : ℕ) (x y : Bytes)
    → next_token x ≡ next_token y
    → residual_loop (suc f) x ≡ residual_loop (suc f) y
unfolding residual_loop
residual_loop-cong f x y e =
    ap {B = Option Vercmp}
      (λ (t : Scan). elim (token_verdict t.token t.delim_skipped t.rest) [
        | some v ↦ some v
        | none ↦ residual_loop f t.rest
      ])
      e

residual_verdict-ended :
    (buf : Bytes) → (next_token buf).token ≡ tok_none → residual_verdict buf ≡ some equal
unfolding residual_verdict residual_loop token_verdict
residual_verdict-ended buf e = rw (e, residual_loop) refl

-- A component, if there is one, leaves the other side with a residual.
token_cases : (t : Token) → (t ≡ tok_none) ⊎ (outcome t tok_none ≡ residual_of_a)
unfolding outcome
token_cases tok_none = inl refl
token_cases (tok_num x) = inr refl
token_cases (tok_alpha x) = inr refl

skipped_same :
    (xs s ys : Bytes) → not (length (xs ++ ys) == length (s ++ ys)) ≡ not (length xs == length s)
skipped_same xs s ys = ground (arith, length-append xs ys, length-append s ys)

not_same : (xs ys : Bytes) → length xs < length ys → not (length xs == length ys) ≡ true
not_same xs ys h = ground arith

module _ (d : ℕ) (k : Bytes) (delim : is_delim_byte d ≡ true) where
  pub digit_stops : is_digit_byte d ≡ false
  unfolding is_digit_byte is_delim_byte
  digit_stops = ground arith

  alpha_stops : is_alpha_byte d ≡ false
  unfolding is_alpha_byte
  alpha_stops = rw delim (ground arith)

  skip-delims :
      (s : Bytes) (c : ℕ) (r : Bytes)
      → skip_while is_delim_byte s ≡ c ∷ r
      → skip_while is_delim_byte (s ++ d ∷ k) ≡ (c ∷ r) ++ d ∷ k
  unfolding skip_while
  skip-delims [] c r h = cc
  skip-delims (x ∷ s) c r h = ground (arith, skip-delims s c r)

  skip-delims_only :
      (s : Bytes)
      → skip_while is_delim_byte s ≡ []
      → skip_while is_delim_byte (s ++ d ∷ k) ≡ skip_while is_delim_byte (d ∷ k)
  unfolding skip_while
  skip-delims_only [] h = refl
  skip-delims_only (x ∷ s) h = ground (arith, skip-delims_only s)

  abbrev longer : Scan → Scan
  longer t = record t { rest = t.rest ++ d ∷ k }

  token_at-append :
      (b : Bool) (c : ℕ) (s : Bytes) → token_at b ((c ∷ s) ++ d ∷ k) ≡ longer (token_at b (c ∷ s))
  unfolding token_at
  token_at-append b c s =
      rw
        (
          take_while-stop is_digit_byte d k digit_stops (c ∷ s),
          skip_while-stop is_digit_byte d k digit_stops (c ∷ s),
          take_while-stop is_alpha_byte d k alpha_stops (c ∷ s),
          skip_while-stop is_alpha_byte d k alpha_stops (c ∷ s),
        )
        (ground arith)

  -- A component in front of the delimiter is read as if nothing followed.
  pub next_token-append :
      (s : Bytes) (c : ℕ) (r : Bytes)
      → skip_while is_delim_byte s ≡ c ∷ r
      → next_token (s ++ d ∷ k) ≡ longer (next_token s)
  unfolding next_token
  next_token-append s c r h =
      rw (skip-delims s c r h, h)
        (rw (skipped_same (c ∷ r) s (d ∷ k))
          (token_at-append (not (length (c ∷ r) == length s)) c r))

  -- Where only delimiters stand in front, the tokenizer sees what it sees at `d`.
  next_token-append_delims :
      (s : Bytes) → skip_while is_delim_byte s ≡ [] → next_token (s ++ d ∷ k) ≡ next_token (d ∷ k)
  unfolding next_token skip_while
  next_token-append_delims s h =
      let shorter : length (skip_while is_delim_byte (d ∷ k)) ≤ length k =
        rw (skip_while, delim) (length-skip_while is_delim_byte k) in
      rw (skip-delims_only s h) (
        rw
          (
            not_same (skip_while is_delim_byte (d ∷ k)) (s ++ d ∷ k)
                (omega (arith, length-append {0} s (d ∷ k))),
            not_same (skip_while is_delim_byte (d ∷ k)) (d ∷ k) (omega arith),
          )
          refl)

  pub next_token-ended :
      (s : Bytes) → skip_while is_delim_byte s ≡ [] → (next_token s).token ≡ tok_none
  unfolding next_token token_at
  next_token-ended s h = rw h refl

  next_token-present :
      (s : Bytes) (c : ℕ) (r : Bytes)
      → skip_while is_delim_byte s ≡ c ∷ r
      → (next_token s).token ≢ tok_none
  unfolding next_token token_at
  next_token-present s c r h = rw h (ground arith)

  residual_verdict-append :
      (s : Bytes)
      → skip_while is_delim_byte s ≡ []
      → residual_verdict (s ++ d ∷ k) ≡ residual_verdict (d ∷ k)
  unfolding residual_verdict
  residual_verdict-append s h =
      let (v, e) = residual_verdict-total (d ∷ k) in
      let f = length (s ++ d ∷ k) in
      residual_loop-cong f (s ++ d ∷ k) (d ∷ k) (next_token-append_delims s h)
      ∙ residual_loop-more (suc (length (d ∷ k))) (suc f) (d ∷ k) v
          (omega (arith, length-append {0} s (d ∷ k))) (unfold residual_verdict in e)
      ∙ sym e

  residual_of-append :
      (s : Bytes)
      → skip_while is_delim_byte s ≡ []
      → (fuel : ℕ) → compare_loop (suc fuel) (s ++ d ∷ k) s ≡ residual_verdict (d ∷ k)
  unfolding compare_loop
  residual_of-append s h fuel = elim (token_cases (next_token (d ∷ k)).token) [
    | inl e ↦
        let o : outcome (next_token (s ++ d ∷ k)).token (next_token s).token ≡ done equal =
          rw (next_token-append_delims s h, next_token-ended s h, e) (unfold outcome in refl) in
        rw (o, compare_loop) (sym (residual_verdict-ended (d ∷ k) e))
    | inr e ↦
        let o : outcome (next_token (s ++ d ∷ k)).token (next_token s).token ≡ residual_of_a =
          rw (next_token-append_delims s h, next_token-ended s h) e in
        rw (o, compare_loop) (residual_verdict-append s h)
  ]

  -- The walk over `s`, a delimiter and `k` against `s` ends with what the rest says against nothing.
  pub compare_loop-append :
      (fuel : ℕ) (s : Bytes)
      → length s < fuel
      → compare_loop fuel (s ++ d ∷ k) s ≡ residual_verdict (d ∷ k)
  unfolding compare_loop
  compare_loop-append zero s h = absurd (omega arith)
  compare_loop-append (suc fuel) s h =
      go (skip_while is_delim_byte s) refl (compare_loop-append fuel (next_token s).rest)
    where
      go :
          (p : Bytes)
          → skip_while is_delim_byte s ≡ p
          → (length (next_token s).rest < fuel
              → compare_loop fuel ((next_token s).rest ++ d ∷ k) (next_token s).rest
                ≡ residual_verdict (d ∷ k))
          → compare_loop (suc fuel) (s ++ d ∷ k) s ≡ residual_verdict (d ∷ k)
      go [] e ih = residual_of-append s e fuel
      go (c ∷ r) e ih =
          let t = next_token s in
          elim (outcome_refl t.token) [
            | inl ended ↦ absurd (next_token-present s c r e ended)
            | inr same ↦
                let o : outcome (next_token (s ++ d ∷ k)).token t.token ≡ go_on =
                  rw (next_token-append s c r e) same in
                rw (o, compare_loop)
                  (rw (next_token-append s c r e) (
                    ih (elim (next_token-length s) [
                      | inl ended ↦ absurd (next_token-present s c r e ended)
                      | inr shorter ↦ omega arith
                    ])))
          ]
