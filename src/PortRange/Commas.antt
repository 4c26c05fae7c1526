-- ===== src/PortRange/Commas.antt =====
-- src/net/port_range.c: the grammar of a specification.
use cytadel_scan.Base.{
  ℕ, ◌≤◌, ◌<◌, true, false, some, List, [], ◌∷◌, ◌++◌, ◌≡◌, ap, refl, ◌∙◌, arith, Bytes, length,
  ◌==◌, Bool-cases, inl, inr, All, ◌↔◌,
}
use cytadel_scan.PortRange.Numbers.{IsDecimal}
use cytadel_scan.PortRange.Parse.{accepts}
use cytadel_scan.PortRange.Scan.{port_range_parse}
use cytadel_scan.PortRange.Select.{port_range_parse-accepts}
use cytadel_scan.PortRange.{ok, parse_token, split_commas, spec_max_len, spec_max_tokens}
use cytadel_scan.PortRange.Grammar.{IsToken, accepts-IsToken}

-- The tokens with a comma between each two of them.
abbrev pub joined : Bytes → List Bytes → Bytes
joined t [] = t
joined t (u ∷ us) = t ++ b',' ∷ joined u us

joined-cons : (c : ℕ) (t : Bytes) (ts : List Bytes) → joined (c ∷ t) ts ≡ c ∷ joined t ts
joined-cons c t [] = refl
joined-cons c t (u ∷ us) = refl

joined-split_commas :
    (s : Bytes) → (t : Bytes) × (ts : List Bytes) × (split_commas s ≡ t ∷ ts) × (s ≡ joined t ts)
unfolding split_commas
joined-split_commas [] = ([], [], refl, refl)
joined-split_commas (c ∷ s) =
    let (t, ts, e, j) = joined-split_commas s in
    elim (Bool-cases (c == b',')) [
      | inl k ↦
          let comma : c ≡ b',' = ground arith in ([], t ∷ ts, rw (k, e) refl, rw (comma, ← j) refl)
      | inr k ↦ (c ∷ t, ts, rw (k, e) refl, rw (joined-cons c t ts, ← j) refl)
    ]

abbrev NoComma : Bytes → Type 0
NoComma = All (λ c. (c == b',') ≡ false)

split_commas-one : (t : Bytes) → NoComma t → split_commas t ≡ t ∷ []
unfolding split_commas
split_commas-one [] h = refl
split_commas-one (c ∷ t) h = rw (h.0, split_commas-one t h.1) refl

split_commas-append : (t r : Bytes) → NoComma t → split_commas (t ++ b',' ∷ r) ≡ t ∷ split_commas r
unfolding split_commas
split_commas-append [] r h = refl
split_commas-append (c ∷ t) r h = rw (h.0, split_commas-append t r h.1) refl

split_commas-joined :
    (t : Bytes) (ts : List Bytes) → All NoComma (t ∷ ts) → split_commas (joined t ts) ≡ t ∷ ts
split_commas-joined t [] h = split_commas-one t h.0
split_commas-joined t (u ∷ us) h =
    split_commas-append t (joined u us) h.0 ∙ rw (split_commas-joined u us h.1) refl

IsDecimal-NoComma : (t : Bytes) → All IsDecimal t → NoComma t
IsDecimal-NoComma [] h = tt
IsDecimal-NoComma (c ∷ t) h = (ground (arith, h.0), IsDecimal-NoComma t h.1)

range-NoComma : (l r : Bytes) → NoComma l → NoComma r → NoComma (l ++ b'-' ∷ r)
range-NoComma [] r hl hr = (refl, hr)
range-NoComma (c ∷ l) r hl hr = (hl.0, range-NoComma l r hl.1 hr)

IsToken-NoComma : (t : Bytes) (a b : ℕ) → IsToken t a b → NoComma t
IsToken-NoComma t a b (inl (n, same), low, mid, top) = IsDecimal-NoComma t n.2
IsToken-NoComma t a b (inr (l, r, e, m, n), low, mid, top) =
    rw e (range-NoComma l r (IsDecimal-NoComma l m.2) (IsDecimal-NoComma r n.2))

-- A token of the grammar, whatever its ports.
abbrev pub HasPorts : Bytes → Type 0
HasPorts t = (a : ℕ) × (b : ℕ) × IsToken t a b

tokens-NoComma : (ts : List Bytes) → All HasPorts ts → All NoComma ts
tokens-NoComma [] h = tt
tokens-NoComma (t ∷ ts) h = (IsToken-NoComma t h.0.0 h.0.1 h.0.2, tokens-NoComma ts h.1)

tokens-HasPorts : (ts : List Bytes) → All (λ t. accepts (parse_token t) ≡ true) ts → All HasPorts ts
tokens-HasPorts [] h = tt
tokens-HasPorts (t ∷ ts) h = ((accepts-IsToken t).0 h.0, tokens-HasPorts ts h.1)

tokens-accepts : (ts : List Bytes) → All HasPorts ts → All (λ t. accepts (parse_token t) ≡ true) ts
tokens-accepts [] h = tt
tokens-accepts (t ∷ ts) h = ((accepts-IsToken t).1 h.0, tokens-accepts ts h.1)

-- With memory at hand a non-empty specification is accepted exactly if it is shorter than 8192
-- bytes and consists of at most 4096 tokens with a comma between each two, where a token is a
-- number from 1 to 65535, or two such numbers with a dash between them of which the first is not the
-- larger, each written with one to six decimal digits.
pub port_range_parse_iff :
    (c : ℕ) (s : Bytes)
    → ((ps : List ℕ) × (port_range_parse true true (some (c ∷ s)) ≡ ok ps)) ↔ (
        (length (c ∷ s) < spec_max_len)
        × ((t : Bytes) × (ts : List Bytes) × (c ∷ s ≡ joined t ts)
            × (length (t ∷ ts) ≤ spec_max_tokens)
            × All HasPorts (t ∷ ts)))
port_range_parse_iff c s =
    let (to, from) = port_range_parse-accepts c s in
    (
      λ h.
          let (short, few, all) = to h in
          let (t, ts, e, j) = joined-split_commas (c ∷ s) in
          (short, (t, ts, j, rw e at few, tokens-HasPorts (t ∷ ts) (rw e at all))),
      λ (short, (t, ts, j, few, all)).
          let e : split_commas (c ∷ s) ≡ t ∷ ts =
            ap split_commas j ∙ split_commas-joined t ts (tokens-NoComma (t ∷ ts) all) in
          from (short, rw e few, rw e (tokens-accepts (t ∷ ts) all)),
    )
