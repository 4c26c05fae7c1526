-- ===== src/Kb/Key/Grammar.antt =====
-- src/kb/kb_validate.c: the keys that the validator accepts.
use cytadel_scan.Base.{
  ℕ, suc, ◌+◌, ◌<◌, ◌≤◌, true, false, some, ◌≡◌, ◌⊎◌, inl, inr, refl, ap, ◌∙◌, arith, List, [], ◌∷◌,
  ◌++◌, Bytes, length, ◌==◌, All, ◌↔◌, append-nil, length-append,
}
use cytadel_scan.Kb.Key.{
  key_max_len, is_key_byte, segments_loop, starts_with_slash, ends_with_slash, validate_key,
}

abbrev pub KeyBytes : Bytes → Type 0
KeyBytes = All (λ c. is_key_byte c ≡ true)

abbrev pub IsSegment : Bytes → Type 0
IsSegment x = (0 < length x) × KeyBytes x

-- Segments with a slash between two of them.
abbrev pub join : Bytes → List Bytes → Bytes
join x [] = x
join x (y ∷ ys) = x ++ b'/' ∷ join y ys

-- One segment or more, none of them empty, and no more than 255 bytes in all.
abbrev pub IsKey : Bytes → Type 0
IsKey key =
    (x : Bytes) × (xs : List Bytes) × IsSegment x
    × All IsSegment xs
    × (key ≡ join x xs)
    × (length key ≤ key_max_len)

-- What the loop reads from inside a segment of which `n` bytes are behind it.
abbrev Reads : ℕ → Bytes → Type 0
Reads n s =
    (x : Bytes) × (xs : List Bytes) × (0 < n + length x)
    × KeyBytes x
    × All IsSegment xs
    × (s ≡ join x xs)

Reads-slash : (n : ℕ) (s : Bytes) → 0 < n → Reads 0 s → Reads n (b'/' ∷ s)
Reads-slash n s h (x, xs, pos, bytes, segs, e) =
    ([], x ∷ xs, omega arith, tt, ((omega arith, bytes), segs), ap (◌∷◌ b'/') e)

Reads-byte : (n c : ℕ) (s : Bytes) → is_key_byte c ≡ true → Reads (n + 1) s → Reads n (c ∷ s)
Reads-byte n c s h (x, [], pos, bytes, segs, e) =
    (c ∷ x, [], omega arith, (h, bytes), segs, ap (◌∷◌ c) e)
Reads-byte n c s h (x, y ∷ ys, pos, bytes, segs, e) =
    (c ∷ x, y ∷ ys, omega arith, (h, bytes), segs, ap (◌∷◌ c) e)

segments_loop_inv :
    (n c : ℕ) (s : Bytes)
    → segments_loop n (c ∷ s) ≡ true
    → ((c ≡ b'/') × (0 < n) × (segments_loop 0 s ≡ true))
      ⊎ ((is_key_byte c ≡ true) × (segments_loop (n + 1) s ≡ true))
unfolding segments_loop
segments_loop_inv n c s h = ground arith

segments_loop-Reads : (s : Bytes) (n : ℕ) → segments_loop n s ≡ true → Reads n s
segments_loop-Reads [] n h = ([], [], unfold segments_loop in ground arith, tt, tt, refl)
segments_loop-Reads (c ∷ s) n h = elim (segments_loop_inv n c s h) [
  | inl (e, pos, rest) ↦ rw e (Reads-slash n s pos (segments_loop-Reads s 0 rest))
  | inr (key, rest) ↦ Reads-byte n c s key (segments_loop-Reads s (n + 1) rest)
]

slash_no_key_byte : (c : ℕ) → is_key_byte c ≡ true → (c == b'/') ≡ false
unfolding is_key_byte
slash_no_key_byte c h = ground arith

-- The loop passes the rest of a segment.
segments_loop-append :
    (x s : Bytes) (n : ℕ) → KeyBytes x → segments_loop n (x ++ s) ≡ segments_loop (n + length x) s
segments_loop-append [] s n h = let e : n + 0 ≡ n = omega arith in rw e refl
segments_loop-append (c ∷ x) s n h =
    let e : n + suc (length x) ≡ n + 1 + length x = omega arith in
    let step : segments_loop n (c ∷ (x ++ s)) ≡ segments_loop (n + 1) (x ++ s) =
      unfold segments_loop in rw (slash_no_key_byte c h.0, h.0) refl in
    rw e (step ∙ segments_loop-append x s (n + 1) h.1)

segments_loop-join :
    (x : Bytes) (xs : List Bytes) (n : ℕ)
    → 0 < n + length x
    → KeyBytes x
    → All IsSegment xs
    → segments_loop n (join x xs) ≡ true
segments_loop-join x [] n pos bytes segs =
    rw (← append-nil x) (segments_loop-append x [] n bytes ∙ unfold segments_loop in ground arith)
segments_loop-join x (y ∷ ys) n pos bytes segs =
    let m = n + length x in
    let step : segments_loop m (b'/' ∷ join y ys) ≡ segments_loop 0 (join y ys) =
      unfold segments_loop in ground arith in
    segments_loop-append x (b'/' ∷ join y ys) n bytes
    ∙ step
    ∙ segments_loop-join y ys 0 (omega arith) segs.0.1 segs.1

segments_loop-starts : (s : Bytes) → segments_loop 0 s ≡ true → starts_with_slash s ≡ false
unfolding segments_loop
segments_loop-starts [] h = refl
segments_loop-starts (c ∷ s) h = ground arith

segments_loop-ends : (s : Bytes) (n : ℕ) → segments_loop n s ≡ true → ends_with_slash s ≡ false
unfolding ends_with_slash
segments_loop-ends [] n h = refl
segments_loop-ends (c ∷ []) n h = unfold segments_loop in ground arith
segments_loop-ends (c ∷ d ∷ s) n h = elim (segments_loop_inv n c (d ∷ s) h) [
  | inl (e, pos, rest) ↦ segments_loop-ends (d ∷ s) 0 rest
  | inr (key, rest) ↦ segments_loop-ends (d ∷ s) (n + 1) rest
]

validate_key-loop :
    (key : Bytes)
    → (validate_key (some key) ≡ true)
      ↔ ((0 < length key) × (length key ≤ key_max_len) × (segments_loop 0 key ≡ true))
unfolding validate_key
validate_key-loop key = (
  λ h. (ground arith, ground arith, ground arith),
  λ (pos, short, loop).
      ground (arith, segments_loop-starts key loop, segments_loop-ends key 0 loop),
)

length-join_pos : (x : Bytes) (xs : List Bytes) → 0 < length x → 0 < length (join x xs)
length-join_pos x [] h = h
length-join_pos x (y ∷ ys) h = omega (arith, length-append {0} x (b'/' ∷ join y ys))

-- A key is accepted exactly if it is one or more segments with a single slash between two of them,
-- each of them non-empty and of letters, digits, `_`, `.` and `-`, and if it has 255 bytes at most.
pub validate_key_iff : (key : Bytes) → (validate_key (some key) ≡ true) ↔ IsKey key
validate_key_iff key = (
  λ h.
      let (pos, short, loop) = (validate_key-loop key).0 h in
      let (x, xs, first, bytes, segs, e) = segments_loop-Reads key 0 loop in
      (x, xs, (omega arith, bytes), segs, e, short),
  λ (x, xs, first, segs, e, short). (validate_key-loop key).1 (
    rw e (length-join_pos x xs first.0),
    short,
    rw e (segments_loop-join x xs 0 (omega arith) first.1 segs),
  ),
)
