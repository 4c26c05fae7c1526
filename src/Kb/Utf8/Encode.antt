-- ===== src/Kb/Utf8/Encode.antt =====
-- The encoding of Unicode scalar values, which the validator of src/kb/kb_validate.c is to accept.
use cytadel_scan.Base.{
  ℕ, zero, suc, ◌+◌, ◌/◌, ◌%◌, ◌≤◌, ◌<◌, true, false, some, ◌≡◌, ◌⊎◌, refl, ◌∙◌, arith, List, [],
  ◌∷◌, ◌++◌, Bytes, length, length-append, ltb, ◌==◌, if◌then◌else◌, All,
}
use cytadel_scan.Kb.Utf8.{
  classify, continuation, after_lead, sequence, validate_loop, validate_utf8,
}

-- A code point that is no surrogate and not beyond U+10FFFF.
abbrev pub IsScalar : ℕ → Type 0
IsScalar c = (c ≤ 0x10FFFF) × ((c < 0xD800) ⊎ (0xDFFF < c))

unfoldable pub encode : ℕ → Bytes
encode c =
    if ltb c 0x80
    then c ∷ []
    else if ltb c 0x800
    then (0xC0 + c / 64) ∷ (0x80 + c % 64) ∷ []
    else if ltb c 0x10000
    then (0xE0 + c / 4096) ∷ (0x80 + c / 64 % 64) ∷ (0x80 + c % 64) ∷ []
    else (0xF0 + c / 262144) ∷ (0x80 + c / 4096 % 64) ∷ (0x80 + c / 64 % 64) ∷ (0x80 + c % 64) ∷ []

unfoldable pub encode_all : List ℕ → Bytes
encode_all [] = []
encode_all (c ∷ cs) = encode c ++ encode_all cs

module _ (b : ℕ) where
  classify_two :
      0xC2 ≤ b → b ≤ 0xDF → classify b ≡ some (record { extra = 1; lo = 0x80; hi = 0xBF })
  unfolding classify
  classify_two h k = ground arith

  -- The first range leaves out the overlong forms, the second the surrogates.
  abbrev pub low_three : ℕ
  low_three = if b == 0xE0 then 0xA0 else 0x80

  abbrev pub high_three : ℕ
  high_three = if b == 0xED then 0x9F else 0xBF

  classify_three :
      0xE0 ≤ b
      → b ≤ 0xEF
      → classify b ≡ some (record { extra = 2; lo = low_three; hi = high_three })
  unfolding classify
  classify_three h k = ground arith

  abbrev pub low_four : ℕ
  low_four = if b == 0xF0 then 0x90 else 0x80

  abbrev pub high_four : ℕ
  high_four = if b == 0xF4 then 0x8F else 0xBF

  classify_four :
      0xF0 ≤ b → b ≤ 0xF4 → classify b ≡ some (record { extra = 3; lo = low_four; hi = high_four })
  unfolding classify
  classify_four h k = ground arith

  sequence_two :
      (c : ℕ) (s : Bytes) → 0xC2 ≤ b → b ≤ 0xDF → 0x80 ≤ c → c ≤ 0xBF → sequence b (c ∷ s) ≡ some s
  unfolding sequence
  sequence_two c s p q r t =
      rw (classify_two p q, sequence) (unfold after_lead continuation in ground arith)

  sequence_three :
      (c d : ℕ) (s : Bytes)
      → 0xE0 ≤ b
      → b ≤ 0xEF
      → low_three ≤ c
      → c ≤ high_three
      → 0x80 ≤ d
      → d ≤ 0xBF
      → sequence b (c ∷ d ∷ s) ≡ some s
  unfolding sequence
  sequence_three c d s p q r t u v =
      rw (classify_three p q, sequence) (unfold after_lead continuation in ground arith)

  sequence_four :
      (c d e : ℕ) (s : Bytes)
      → 0xF0 ≤ b
      → b ≤ 0xF4
      → low_four ≤ c
      → c ≤ high_four
      → 0x80 ≤ d
      → d ≤ 0xBF
      → 0x80 ≤ e
      → e ≤ 0xBF
      → sequence b (c ∷ d ∷ e ∷ s) ≡ some s
  unfolding sequence
  sequence_four c d e s p q r t u v x y =
      rw (classify_four p q, sequence) (unfold after_lead continuation in ground arith)

step_ascii : (f b : ℕ) (s : Bytes) → b < 0x80 → validate_loop (suc f) (b ∷ s) ≡ validate_loop f s
unfolding validate_loop
step_ascii f b s h = ground arith

step_sequence :
    (f b : ℕ) (s r : Bytes)
    → 0x80 ≤ b
    → sequence b s ≡ some r
    → validate_loop (suc f) (b ∷ s) ≡ validate_loop f r
unfolding validate_loop
step_sequence f b s r h e =
    let high : ltb b 0x80 ≡ false = ground arith in rw (high, e, validate_loop) refl

-- One round for each length of an encoding.
module _ (f c : ℕ) (rest : Bytes) where
  round_two :
      0x80 ≤ c
      → c < 0x800
      → validate_loop (suc f) ((0xC0 + c / 64) ∷ (0x80 + c % 64) ∷ rest) ≡ validate_loop f rest
  round_two p q =
      step_sequence f (0xC0 + c / 64) _ rest (omega arith)
        (sequence_two _ _ rest (omega arith) (omega arith) (omega arith) (omega arith))

  round_three :
      0x800 ≤ c
      → c < 0x10000
      → (c < 0xD800) ⊎ (0xDFFF < c)
      → validate_loop (suc f) ((0xE0 + c / 4096) ∷ (0x80 + c / 64 % 64) ∷ (0x80 + c % 64) ∷ rest)
        ≡ validate_loop f rest
  round_three p q h = step_sequence f (0xE0 + c / 4096) _ rest (omega arith) (
      sequence_three _ _ _ rest (omega arith) (omega arith) (ground arith) (ground arith)
        (omega arith) (omega arith))

  round_four :
      0x10000 ≤ c
      → c ≤ 0x10FFFF
      → validate_loop (suc f) (
          (0xF0 + c / 262144)
          ∷ (0x80 + c / 4096 % 64)
          ∷ (0x80 + c / 64 % 64)
          ∷ (0x80 + c % 64)
          ∷ rest)
        ≡ validate_loop f rest
  round_four p q = step_sequence f (0xF0 + c / 262144) _ rest (omega arith) (
      sequence_four _ _ _ _ rest (omega arith) (omega arith) (ground arith) (ground arith)
        (omega arith) (omega arith) (omega arith) (omega arith))

  -- The loop takes the encoding of a scalar value in one round.
  validate_loop-encode :
      IsScalar c → validate_loop (suc f) (encode c ++ rest) ≡ validate_loop f rest
  unfolding encode
  validate_loop-encode h = ground (arith, step_ascii f c rest, round_two, round_three, round_four)

length-encode_pos : (c : ℕ) → 0 < length (encode c)
unfolding encode
length-encode_pos c = ground arith

length-encode_all : (cs : List ℕ) → length cs ≤ length (encode_all cs)
unfolding encode_all
length-encode_all [] = omega arith
length-encode_all (c ∷ cs) =
    omega (
      arith,
      length-encode_all cs,
      length-encode_pos c,
      length-append {0} (encode c) (encode_all cs),
    )

validate_loop-encode_all :
    (f : ℕ) (cs : List ℕ)
    → length cs < f
    → All IsScalar cs
    → validate_loop f (encode_all cs) ≡ some true
unfolding encode_all
validate_loop-encode_all zero cs h p = absurd (omega arith)
validate_loop-encode_all (suc f) [] h p = unfold validate_loop in refl
validate_loop-encode_all (suc f) (c ∷ cs) h p =
    validate_loop-encode f c (encode_all cs) p.0 ∙ validate_loop-encode_all f cs (omega arith) p.1

-- The validator accepts the encoding of every sequence of Unicode scalar values.
pub validate_utf8-encode_all :
    (cs : List ℕ) → All IsScalar cs → validate_utf8 (encode_all cs) ≡ true
unfolding validate_utf8
validate_utf8-encode_all cs h =
    rw
      (validate_loop-encode_all (suc (length (encode_all cs))) cs
        (omega (arith, length-encode_all cs)) h)
      refl
