-- ===== src/Version/Append.antt =====
-- src/match/version_compare.c: what the steps before the walk make of a version with text behind it.
use cytadel_scan.Base.{ℕ, Bool, false, ◌||◌, ◌≡◌, refl, arith, [], ◌∷◌, ◌++◌, Bytes, ◌==◌}
use cytadel_scan.Version.{has_disallowed_byte, strip_v_prefix, is_digit_byte}
use cytadel_scan.Version.Compare.{split_at_colon, Split, split_epoch}
use cytadel_scan.Version.Scan.{take_while, skip_while}

-- A byte `d` that ends the run, and what stands behind it.
module _ (test : ℕ → Bool) (d : ℕ) (m : Bytes) (stops : test d ≡ false) where
  pub take_while-stop : (s : Bytes) → take_while test (s ++ d ∷ m) ≡ take_while test s
  unfolding take_while
  take_while-stop [] = rw stops
  take_while-stop (c ∷ s) = rw (take_while-stop s)

  pub skip_while-stop : (s : Bytes) → skip_while test (s ++ d ∷ m) ≡ skip_while test s ++ d ∷ m
  unfolding skip_while
  skip_while-stop [] = rw stops
  skip_while-stop (c ∷ s) = ground (arith, skip_while-stop s)

pub has_disallowed_byte-append :
    (s m : Bytes)
    → has_disallowed_byte m ≡ false
    → has_disallowed_byte (s ++ m) ≡ has_disallowed_byte s
unfolding has_disallowed_byte
has_disallowed_byte-append [] m h = h
has_disallowed_byte-append (c ∷ s) m h = rw (has_disallowed_byte-append s m h)

abbrev pub behind : ℕ → Bytes → Split → Split
behind d m p = record p { rest = p.rest ++ d ∷ m }

-- Here `d` is neither a digit nor a colon.
module _ (d : ℕ) (m : Bytes) (no_digit : is_digit_byte d ≡ false)
    (no_colon : (d == b':') ≡ false) where
  strip_v_prefix-one :
      (r : Bytes) → (d == b'v' || d == b'V') ≡ false → strip_v_prefix (d ∷ r) ≡ d ∷ r
  unfolding strip_v_prefix
  strip_v_prefix-one [] h = refl
  strip_v_prefix-one (c ∷ r) h = rw h refl

  pub strip_v_prefix-append :
      (s : Bytes)
      → (d == b'v' || d == b'V') ≡ false
      → strip_v_prefix (s ++ d ∷ m) ≡ strip_v_prefix s ++ d ∷ m
  unfolding strip_v_prefix
  strip_v_prefix-append [] h = strip_v_prefix-one m h
  strip_v_prefix-append (c ∷ []) h = ground arith
  strip_v_prefix-append (c ∷ e ∷ s) h = ground arith

  split_at_colon-append :
      (s t r : Bytes)
      → split_at_colon (s ++ d ∷ m) t (r ++ d ∷ m) ≡ behind d m (split_at_colon s t r)
  unfolding split_at_colon
  split_at_colon-append s t [] = ground arith
  split_at_colon-append s t (c ∷ r) = ground arith

  pub split_epoch-append : (s : Bytes) → split_epoch (s ++ d ∷ m) ≡ behind d m (split_epoch s)
  unfolding split_epoch
  split_epoch-append s =
      rw
        (take_while-stop is_digit_byte d m no_digit s, skip_while-stop is_digit_byte d m no_digit s)
        (split_at_colon-append s (take_while is_digit_byte s) (skip_while is_digit_byte s))
