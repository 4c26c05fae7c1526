-- ===== src/Kb/Utf8/Sound.antt =====
-- src/kb/kb_validate.c: the UTF-8 validator ends, and accepts nothing but encodings.
use cytadel_scan.Base.{
  ℕ, zero, suc, ◌+◌, ◌-◌, ◌*◌, ◌≤◌, ◌<◌, Bool, true, false, none, some, ◌≡◌, ◌⊎◌, refl, ap, ◌∙◌,
  arith, List, [], ◌∷◌, ◌++◌, Bytes, length, ltb, All, Bool-cases, Option-cases, inl, inr, ◌↔◌,
}
use cytadel_scan.Kb.Utf8.{
  Lead, classify, continuation, first_continuation, after_lead, sequence, validate_loop,
  validate_utf8,
}
use cytadel_scan.Kb.Utf8.Encode.{
  IsScalar, encode, encode_all, validate_utf8-encode_all, low_three, high_three, low_four,
  high_four,
}

length-continuation : (n : ℕ) (s r : Bytes) → continuation n s ≡ some r → length r ≤ length s
unfolding continuation
length-continuation zero s r h = ground arith
length-continuation (suc n) [] r h = cc
length-continuation (suc n) (c ∷ s) r h = ground (arith, length-continuation n s r)

length-after_lead : (l : Lead) (s r : Bytes) → after_lead l s ≡ some r → length r ≤ length s
unfolding after_lead first_continuation
length-after_lead l [] r h = ground arith
length-after_lead l (c ∷ s) r h = ground (arith, length-continuation (l.extra - 1) s r)

length-sequence : (b : ℕ) (s r : Bytes) → sequence b s ≡ some r → length r ≤ length s
unfolding sequence
length-sequence b s r h = elim (Option-cases (classify b)) [
  | inl e ↦ let bad : none ≡ some r = rw (e, sequence) at h in cc
  | inr (l, e) ↦ length-after_lead l s r (rw (e, sequence) at h)
]

-- The loop ends with an answer, given a round for each byte.
pub validate_loop-total :
    (fuel : ℕ) (s : Bytes) → length s < fuel → (b : Bool) × (validate_loop fuel s ≡ some b)
unfolding validate_loop
validate_loop-total zero s h = absurd (omega arith)
validate_loop-total (suc f) [] h = (true, refl)
validate_loop-total (suc f) (b ∷ s) h = elim (Bool-cases (ltb b 0x80)) [
  | inl p ↦ let (v, e) = validate_loop-total f s (omega arith) in (v, rw p e)
  | inr p ↦ elim (Option-cases (sequence b s)) [
    | inl e ↦ (false, rw (p, e, validate_loop) refl)
    | inr (r, e) ↦
        let (v, ih) = validate_loop-total f r (omega (arith, length-sequence b s r e)) in
        (v, rw (p, e, validate_loop) ih)
  ]
]

-- What a sequence that was read stands for.
abbrev Decodes : ℕ → Bytes → Bytes → Type 0
Decodes b s r = (c : ℕ) × IsScalar c × (encode c ++ r ≡ b ∷ s)

decode_two : (b c : ℕ) (r : Bytes) → 0xC2 ≤ b → b ≤ 0xDF → 0x80 ≤ c → c ≤ 0xBF → Decodes b (c ∷ r) r
unfolding encode
decode_two b c r p q h k = ((b - 0xC0) * 64 + (c - 0x80), (omega arith, ground arith), ground arith)

decode_three :
    (b c d : ℕ) (r : Bytes)
    → 0xE0 ≤ b
    → b ≤ 0xEF
    → low_three b ≤ c
    → c ≤ high_three b
    → 0x80 ≤ d
    → d ≤ 0xBF
    → Decodes b (c ∷ d ∷ r) r
unfolding encode
decode_three b c d r p q h k x y =
    ((b - 0xE0) * 4096 + (c - 0x80) * 64 + (d - 0x80), (ground arith, ground arith), ground arith)

decode_four :
    (b c d e : ℕ) (r : Bytes)
    → 0xF0 ≤ b
    → b ≤ 0xF4
    → low_four b ≤ c
    → c ≤ high_four b
    → 0x80 ≤ d
    → d ≤ 0xBF
    → 0x80 ≤ e
    → e ≤ 0xBF
    → Decodes b (c ∷ d ∷ e ∷ r) r
unfolding encode
decode_four b c d e r p q h k x y u v = (
  (b - 0xF0) * 262144 + (c - 0x80) * 4096 + (d - 0x80) * 64 + (e - 0x80),
  (ground arith, ground arith),
  ground arith,
)

-- The three kinds of lead bytes.
classify_inv :
    (b : ℕ) (l : Lead)
    → classify b ≡ some l
    → ((0xC2 ≤ b) × (b ≤ 0xDF) × (l ≡ record { extra = 1; lo = 0x80; hi = 0xBF }))
      ⊎ ((0xE0 ≤ b) × (b ≤ 0xEF) × (l ≡ record { extra = 2; lo = low_three b; hi = high_three b }))
      ⊎ ((0xF0 ≤ b) × (b ≤ 0xF4) × (l ≡ record { extra = 3; lo = low_four b; hi = high_four b }))
unfolding classify
classify_inv b l h = ground arith

after_two :
    (b : ℕ) (s r : Bytes)
    → 0xC2 ≤ b
    → b ≤ 0xDF
    → after_lead (record { extra = 1; lo = 0x80; hi = 0xBF }) s ≡ some r
    → Decodes b s r
unfolding after_lead continuation
after_two b [] r p q h = ground arith
after_two b (c ∷ s) r p q h =
    let e : s ≡ r = ground arith in rw e (decode_two b c r p q (ground arith) (ground arith))

after_three :
    (b : ℕ) (s r : Bytes)
    → 0xE0 ≤ b
    → b ≤ 0xEF
    → after_lead (record { extra = 2; lo = low_three b; hi = high_three b }) s ≡ some r
    → Decodes b s r
unfolding after_lead continuation
after_three b [] r p q h = ground arith
after_three b (c ∷ []) r p q h = ground arith
after_three b (c ∷ d ∷ s) r p q h =
    let e : s ≡ r = ground arith in
    rw e (decode_three b c d r p q (ground arith) (ground arith) (ground arith) (ground arith))

after_four :
    (b : ℕ) (s r : Bytes)
    → 0xF0 ≤ b
    → b ≤ 0xF4
    → after_lead (record { extra = 3; lo = low_four b; hi = high_four b }) s ≡ some r
    → Decodes b s r
unfolding after_lead continuation
after_four b [] r p q h = ground arith
after_four b (c ∷ []) r p q h = ground arith
after_four b (c ∷ d ∷ []) r p q h = ground arith
after_four b (c ∷ d ∷ x ∷ s) r p q h =
    let e : s ≡ r = ground arith in
    rw e (
      decode_four b c d x r p q (ground arith) (ground arith) (ground arith) (ground arith)
        (ground arith) (ground arith))

sequence-Decodes : (b : ℕ) (s r : Bytes) → sequence b s ≡ some r → Decodes b s r
unfolding sequence
sequence-Decodes b s r h = elim (Option-cases (classify b)) [
  | inl e ↦ let bad : none ≡ some r = rw (e, sequence) at h in cc
  | inr (l, e) ↦
      let h' : after_lead l s ≡ some r = rw (e, sequence) at h in
      elim (classify_inv b l e) [
        | inl (p, q, g) ↦ after_two b s r p q (rw g at h')
        | inr (inl (p, q, g)) ↦ after_three b s r p q (rw g at h')
        | inr (inr (p, q, g)) ↦ after_four b s r p q (rw g at h')
      ]
]

-- A text that is the encoding of a sequence of scalar values.
abbrev pub IsEncoded : Bytes → Type 0
IsEncoded s = (cs : List ℕ) × All IsScalar cs × (encode_all cs ≡ s)

IsEncoded-cons : (b : ℕ) (s r : Bytes) → Decodes b s r → IsEncoded r → IsEncoded (b ∷ s)
unfolding encode_all
IsEncoded-cons b s r (c, scalar, e) (cs, all, ih) =
    (c ∷ cs, (scalar, all), ap (λ (t : Bytes). encode c ++ t) ih ∙ e)

decode_one : (b : ℕ) (s : Bytes) → b < 0x80 → Decodes b s s
unfolding encode
decode_one b s h = (b, (omega arith, ground arith), ground arith)

validate_loop_sound : (fuel : ℕ) (s : Bytes) → validate_loop fuel s ≡ some true → IsEncoded s
unfolding validate_loop
validate_loop_sound zero s h = cc
validate_loop_sound (suc f) [] h = ([], tt, unfold encode_all in refl)
validate_loop_sound (suc f) (b ∷ s) h = elim (Bool-cases (ltb b 0x80)) [
  | inl p ↦
      IsEncoded-cons b s s (decode_one b s (ground arith)) (validate_loop_sound f s (rw p at h))
  | inr p ↦ elim (Option-cases (sequence b s)) [
    | inl e ↦ let bad : some false ≡ some true = rw (p, e, validate_loop) at h in cc
    | inr (r, e) ↦
        IsEncoded-cons b s r (sequence-Decodes b s r e)
          (validate_loop_sound f r (rw (p, e, validate_loop) at h))
  ]
]

validate_utf8_sound : (s : Bytes) → validate_utf8 s ≡ true → IsEncoded s
unfolding validate_utf8
validate_utf8_sound s h =
    let (b, e) = validate_loop-total (suc (length s)) s (omega arith) in
    validate_loop_sound (suc (length s)) s (e ∙ ap some (rw e at h))

-- The validator accepts exactly the encodings of sequences of Unicode scalar values: no overlong
-- form, no surrogate, nothing beyond U+10FFFF, no cut sequence.
pub validate_utf8_iff : (s : Bytes) → (validate_utf8 s ≡ true) ↔ IsEncoded s
validate_utf8_iff s =
    (validate_utf8_sound s, λ (cs, all, e). rw (← e) (validate_utf8-encode_all cs all))
