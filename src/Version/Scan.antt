-- ===== src/Version/Scan.antt =====
-- src/match/version_compare.c: the streaming tokenizer. A position in a buffer is the suffix that
-- starts there.
use cytadel_scan.Base.{
  ℕ, ◌≤◌, ◌<◌, Bool, false, not, ◌&&◌, [], ◌∷◌, ◌++◌, ◌≡◌, ◌⊎◌, inl, refl, arith, Bytes, ◌==◌,
  if◌then◌else◌, length,
}
use cytadel_scan.Version.{is_digit_byte, is_delim_byte}

-- `cytadel_tok_type_t`, with the bytes of the component.
pub data Token : Type 0 where
  tok_none : Token
  tok_num : Bytes → Token
  tok_alpha : Bytes → Token

pub record Scan : Type 0 where
  pub token : Token
  pub rest : Bytes
  pub delim_skipped : Bool

-- `while (p < len && test(buf[p])) p++`: where the loop stops, and the bytes it passes.
unfoldable pub skip_while : (ℕ → Bool) → Bytes → Bytes
skip_while test [] = []
skip_while test (c ∷ s) = if test c then skip_while test s else c ∷ s

unfoldable pub take_while : (ℕ → Bool) → Bytes → Bytes
take_while test [] = []
take_while test (c ∷ s) = if test c then c ∷ take_while test s else []

unfoldable pub is_alpha_byte : ℕ → Bool
unfolding is_digit_byte is_delim_byte
is_alpha_byte c = not (is_digit_byte c) && not (is_delim_byte c)

-- The component that starts at a byte that is no delimiter.
unfoldable pub token_at : Bool → Bytes → Scan
token_at skipped [] = record { token = tok_none; rest = []; delim_skipped = skipped }
token_at skipped (c ∷ s) =
    if is_digit_byte c
    then record {
      token = tok_num (take_while is_digit_byte (c ∷ s));
      rest = skip_while is_digit_byte (c ∷ s);
      delim_skipped = skipped;
    }
    else record {
      token = tok_alpha (take_while is_alpha_byte (c ∷ s));
      rest = skip_while is_alpha_byte (c ∷ s);
      delim_skipped = skipped;
    }

unfoldable pub next_token : Bytes → Scan
next_token buf = let p = skip_while is_delim_byte buf in token_at (not (length p == length buf)) p

pub length-skip_while : (test : ℕ → Bool) (s : Bytes) → length (skip_while test s) ≤ length s
unfolding skip_while
length-skip_while test [] = omega arith
length-skip_while test (c ∷ s) = ground (arith, length-skip_while test s)

pub take-append-skip : (test : ℕ → Bool) (s : Bytes) → take_while test s ++ skip_while test s ≡ s
unfolding skip_while take_while
take-append-skip test [] = refl
take-append-skip test (c ∷ s) = ground (arith, take-append-skip test s)

-- A byte behind skipped delimiters is no delimiter.
pub skip-head :
    (test : ℕ → Bool) (s : Bytes) (d : ℕ) (r : Bytes) → skip_while test s ≡ d ∷ r → test d ≡ false
unfolding skip_while
skip-head test [] d r h = cc
skip-head test (c ∷ s) d r h = ground (arith, skip-head test s d r)

token_at-length :
    (b : Bool) (s : Bytes)
    → ((c : ℕ) (r : Bytes) → s ≡ c ∷ r → is_delim_byte c ≡ false)
    → ((token_at b s).token ≡ tok_none) ⊎ (length (token_at b s).rest < length s)
unfolding token_at skip_while is_alpha_byte
token_at-length b [] h = inl refl
token_at-length b (c ∷ s) h =
    ground (arith, length-skip_while is_digit_byte s, length-skip_while is_alpha_byte s, h c s)

-- Unless the input is used up, the tokenizer moves on.
pub next_token-length :
    (s : Bytes) → ((next_token s).token ≡ tok_none) ⊎ (length (next_token s).rest < length s)
unfolding next_token
next_token-length s = ground (
  arith,
  token_at-length (not (length (skip_while is_delim_byte s) == length s))
      (skip_while is_delim_byte s) (λ c r e. skip-head is_delim_byte s c r e),
  length-skip_while is_delim_byte s,
)
