-- ===== src/PortRange/Grammar.antt =====
-- src/net/port_range.c: the grammar of the tokens.
use cytadel_scan.Base.{
  ℕ, suc, ◌+◌, ◌≤◌, ◌<◌, true, false, Option, none, some, [], ◌∷◌, ◌++◌, ◌≡◌, ◌≢◌, sym, ap, refl,
  ◌∙◌, arith, Bytes, length, ◌==◌, Bool-cases, inl, inr, ◌⊎◌, All, ◌↔◌,
}
use cytadel_scan.PortRange.Numbers.{IsDecimal, decimal, parse_uint_iff}
use cytadel_scan.PortRange.Parse.{accepts, Range-cases}
use cytadel_scan.PortRange.{
  ports, check_ends, ends_of, parse_uint, parse_token, dash_count, before_dash, after_dash,
}

-- One to six decimal digits, and the number that they spell.
abbrev pub IsNumber : Bytes → ℕ → Type 0
IsNumber t n = (0 < length t) × (length t ≤ 6) × All IsDecimal t × (n ≡ decimal 0 t)

-- A number, or two numbers with a dash between them.
abbrev pub Spells : Bytes → ℕ → ℕ → Type 0
Spells t a b =
    (IsNumber t a × (b ≡ a))
    ⊎ ((l : Bytes) × (r : Bytes) × (t ≡ l ++ b'-' ∷ r) × IsNumber l a × IsNumber r b)

-- The ports of a token are not empty and lie within 1 to 65535.
abbrev pub IsToken : Bytes → ℕ → ℕ → Type 0
IsToken t a b = Spells t a b × (1 ≤ a) × (a ≤ b) × (b ≤ 65535)

check_ends_iff :
    (x y a b : ℕ)
    → (check_ends x y ≡ ports a b) ↔ ((a ≡ x) × (b ≡ y) × (1 ≤ a) × (a ≤ b) × (b ≤ 65535))
unfolding check_ends
check_ends_iff x y a b = ground arith

ends_of_iff :
    (x y : Option ℕ) (a b : ℕ)
    → (ends_of x y ≡ ports a b) ↔ ((x ≡ some a) × (y ≡ some b) × (1 ≤ a) × (a ≤ b) × (b ≤ 65535))
ends_of_iff none y a b = ground arith
ends_of_iff (some x) none a b = ground arith
ends_of_iff (some x) (some y) a b = ground (arith, check_ends_iff x y a b)

digits-dash_count : (t : Bytes) → All IsDecimal t → dash_count t ≡ 0
unfolding dash_count
digits-dash_count [] h = refl
digits-dash_count (c ∷ t) h = ground (arith, digits-dash_count t h.1)

range-dash_count : (l r : Bytes) → All IsDecimal l → dash_count (l ++ b'-' ∷ r) ≡ suc (dash_count r)
unfolding dash_count
range-dash_count [] r h = omega arith
range-dash_count (c ∷ l) r h = ground (arith, range-dash_count l r h.1)

before_dash-range : (l r : Bytes) → All IsDecimal l → before_dash (l ++ b'-' ∷ r) ≡ l
unfolding before_dash
before_dash-range [] r h = refl
before_dash-range (c ∷ l) r h = ground (arith, before_dash-range l r h.1)

after_dash-range : (l r : Bytes) → All IsDecimal l → after_dash (l ++ b'-' ∷ r) ≡ r
unfolding after_dash
after_dash-range [] r h = refl
after_dash-range (c ∷ l) r h = ground (arith, after_dash-range l r h.1)

length-range : (l r : Bytes) → length (l ++ b'-' ∷ r) ≡ length l + suc (length r)
length-range [] r = omega arith
length-range (c ∷ l) r = omega (arith, length-range l r)

split_at_dash : (t : Bytes) → dash_count t ≢ 0 → t ≡ before_dash t ++ b'-' ∷ after_dash t
unfolding dash_count before_dash after_dash
split_at_dash [] h = absurd (h refl)
split_at_dash (c ∷ t) h = elim (Bool-cases (c == b'-')) [
  | inl e ↦ ground arith
  | inr e ↦ ground (arith, split_at_dash t)
]

parse-IsToken-range :
    (t : Bytes) (a b : ℕ)
    → dash_count t ≡ 1
    → ends_of (parse_uint (before_dash t)) (parse_uint (after_dash t)) ≡ ports a b
    → IsToken t a b
parse-IsToken-range t a b one h =
    let (x, y, low, mid, top) =
      (ends_of_iff (parse_uint (before_dash t)) (parse_uint (after_dash t)) a b).0 h in
    (
      inr (
        before_dash t,
        after_dash t,
        split_at_dash t (λ z. let bad : 0 ≡ 1 = sym z ∙ one in cc),
        (parse_uint_iff (before_dash t) a).0 x,
        (parse_uint_iff (after_dash t) b).0 y,
      ),
      low,
      mid,
      top,
    )

parse-IsToken-number :
    (t : Bytes) (a b : ℕ) → ends_of (parse_uint t) (parse_uint t) ≡ ports a b → IsToken t a b
parse-IsToken-number t a b h =
    let (x, y, low, mid, top) = (ends_of_iff (parse_uint t) (parse_uint t) a b).0 h in
    let same : some b ≡ some a = sym y ∙ x in (inl ((parse_uint_iff t a).0 x, cc), low, mid, top)

parse_token-ports-IsToken : (t : Bytes) (a b : ℕ) → parse_token t ≡ ports a b → IsToken t a b
unfolding parse_token
parse_token-ports-IsToken t a b h =
    ground (arith, parse-IsToken-range t a b, parse-IsToken-number t a b)

IsToken-number :
    (t : Bytes) (a b : ℕ)
    → IsNumber t a
    → ends_of (parse_uint t) (parse_uint t) ≡ ports a b
    → parse_token t ≡ ports a b
unfolding parse_token
IsToken-number t a b n h = ground (arith, digits-dash_count t n.2)

IsToken-range :
    (l r : Bytes) (a b : ℕ)
    → IsNumber l a
    → IsNumber r b
    → ends_of (parse_uint l) (parse_uint r) ≡ ports a b
    → parse_token (l ++ b'-' ∷ r) ≡ ports a b
unfolding parse_token
IsToken-range l r a b m n h =
    rw (before_dash-range l r m.2, after_dash-range l r m.2)
      (ground (arith, range-dash_count l r m.2, digits-dash_count r n.2, length-range l r))

IsToken-parse_token : (t : Bytes) (a b : ℕ) → IsToken t a b → parse_token t ≡ ports a b
IsToken-parse_token t a b (inl (n, same), low, mid, top) = IsToken-number t a b n (
    (ends_of_iff (parse_uint t) (parse_uint t) a b).1
      ((parse_uint_iff t a).1 n, (parse_uint_iff t a).1 n ∙ ap some (sym same), low, mid, top))
IsToken-parse_token t a b (inr (l, r, e, m, n), low, mid, top) = rw e (
    IsToken-range l r a b m n (
      (ends_of_iff (parse_uint l) (parse_uint r) a b).1
        ((parse_uint_iff l a).1 m, (parse_uint_iff r b).1 n, low, mid, top)))

-- A token gives the ports `a` to `b` exactly if it is one number `a` that is also `b`, or the
-- numbers `a` and `b` with a dash between them, of one to six decimal digits each, and
-- `1 ≤ a ≤ b ≤ 65535`.
pub parse_token_iff : (t : Bytes) (a b : ℕ) → (parse_token t ≡ ports a b) ↔ IsToken t a b
parse_token_iff t a b = (parse_token-ports-IsToken t a b, IsToken-parse_token t a b)

pub accepts-IsToken :
    (t : Bytes) → (accepts (parse_token t) ≡ true) ↔ ((a : ℕ) × (b : ℕ) × IsToken t a b)
accepts-IsToken t = (
  λ h. elim (Range-cases (parse_token t)) [
    | inl (a, b, e) ↦ (a, b, parse_token-ports-IsToken t a b e)
    | inr (st, e) ↦ let bad : false ≡ true = rw e at h in absurd (cc)
  ],
  λ (a, b, h). rw (IsToken-parse_token t a b h) refl,
)
