-- ===== src/PortRange/Select.antt =====
-- src/net/port_range.c: the result of `cytadel_port_range_parse`.
use cytadel_scan.Base.{
  ℕ, ◌≤◌, ◌<◌, Bool, true, false, some, List, [], ◌∷◌, ◌≡◌, refl, ◌∙◌, arith, Bytes, length, leb,
  ◌==◌, Bool-cases, inl, inr, ◌⊎◌, All, ◌↔◌,
}
use cytadel_scan.PortRange.Bitmap.{Bitmap, cleared}
use cytadel_scan.PortRange.Parse.{
  covered, accepts, Passed, token_loop-Passed, token_loop-total, token_loop-few, token_loop-stopped,
  collected, contains-length, Range-cases, parse_token-ports,
}
use cytadel_scan.PortRange.Scan.{
  Tokens, set_bits, stopped, token_loop, count_ports, collect, finish, port_range_parse,
}
use cytadel_scan.PortRange.Sorted.{contains, length-collect}
use cytadel_scan.PortRange.{
  Status, ok, malformed, parse_token, split_commas, spec_max_len, spec_max_tokens, port_min,
  port_max,
}

Tokens-cases : (r : Tokens) → ((b : Bitmap) × (r ≡ set_bits b)) ⊎ ((st : Status) × (r ≡ stopped st))
Tokens-cases (set_bits b) = inl (b, refl)
Tokens-cases (stopped st) = inr (st, refl)

split_commas_pos : (s : Bytes) → (t : Bytes) × (ts : List Bytes) × (split_commas s ≡ t ∷ ts)
unfolding split_commas
split_commas_pos [] = ([], [], refl)
split_commas_pos (c ∷ s) =
    let (t, ts, e) = split_commas_pos s in
    elim (Bool-cases (c == b',')) [
      | inl k ↦ ([], split_commas s, rw k refl)
      | inr k ↦ (c ∷ t, ts, rw (k, e) refl)
    ]

-- The first token of an accepted list is covered at its lower end.
covered-first :
    (t : Bytes) (ts : List Bytes)
    → accepts (parse_token t) ≡ true
    → (v : ℕ) × (covered v (t ∷ ts) ≡ true)
covered-first t ts h = elim (Range-cases (parse_token t)) [
  | inl (x, y, r) ↦ (x, let bounds = parse_token-ports t x y r in rw r (ground arith))
  | inr (st, r) ↦ let bad : false ≡ true = rw r at h in cc
]

-- After a pass there is a port to report.
count-ne-zero :
    (s : Bytes) (after : Bitmap)
    → Passed (split_commas s) cleared after
    → (count_ports port_max port_min after == 0) ≡ false
count-ne-zero s after p =
    let (t, ts, e) = split_commas_pos s in
    let (v, c) = covered-first t ts ((rw e at p.accepted).0) in
    let here : contains v (collect port_max port_min after) ≡ true =
      collected (split_commas s) after v p ∙ rw e c in
    let pos = contains-length v (collect port_max port_min after) here in
    ground (arith, length-collect port_max port_min after)

cleared-bytes : (k : ℕ) → cleared k < 256
cleared-bytes k = omega arith

finish-ok :
    (s : Bytes) (after : Bitmap)
    → Passed (split_commas s) cleared after
    → finish true after ≡ ok (collect port_max port_min after)
unfolding finish
finish-ok s after p = rw (count-ne-zero s after p) refl

module _ (out_ok alloc_ok : Bool) (c : ℕ) (s : Bytes) where
  -- The tests in front of the loop, passed.
  parse-guards :
      (ps : List ℕ)
      → port_range_parse out_ok alloc_ok (some (c ∷ s)) ≡ ok ps
      → (length (c ∷ s) < spec_max_len)
        × ((after : Bitmap) × (token_loop 0 (split_commas (c ∷ s)) cleared ≡ set_bits after)
            × (finish alloc_ok after ≡ ok ps))
  unfolding port_range_parse
  parse-guards ps h = elim (Bool-cases out_ok) [
    | inr o ↦ let bad : malformed ≡ ok ps = rw o at h in absurd (cc)
    | inl o ↦ elim (Bool-cases (leb spec_max_len (length (c ∷ s)))) [
      | inl l ↦ let bad : malformed ≡ ok ps = rw (o, l) at h in absurd (cc)
      | inr l ↦ elim (Tokens-cases (token_loop 0 (split_commas (c ∷ s)) cleared)) [
        | inr (st, e) ↦
            let same : st ≡ ok ps = rw (o, l, e, port_range_parse) at h in
            absurd ((token_loop-stopped (split_commas (c ∷ s)) 0 cleared st e).1 ps same)
        | inl (after, e) ↦ (ground arith, (after, e, rw (o, l, e, port_range_parse) at h))
      ]
    ]
  ]

-- With memory at hand a non-empty specification is accepted exactly if it is shorter than 8192
-- bytes, has at most 4096 tokens, and each token stands for a range of ports.
pub port_range_parse-accepts :
    (c : ℕ) (s : Bytes)
    → ((ps : List ℕ) × (port_range_parse true true (some (c ∷ s)) ≡ ok ps)) ↔ (
        (length (c ∷ s) < spec_max_len)
        × (length (split_commas (c ∷ s)) ≤ spec_max_tokens)
        × All (λ t. accepts (parse_token t) ≡ true) (split_commas (c ∷ s)))
unfolding port_range_parse
port_range_parse-accepts c s = (
  λ (ps, h).
      let (short, (after, e, f)) = parse-guards true true c s ps h in
      let p = token_loop-Passed (split_commas (c ∷ s)) 0 cleared after cleared-bytes e in
      (
        short,
        omega (arith, token_loop-few (split_commas (c ∷ s)) 0 cleared after (omega arith) e),
        p.accepted,
      ),
  λ (short, few, all).
      let (after, e) = token_loop-total (split_commas (c ∷ s)) 0 cleared (omega arith) all in
      let p = token_loop-Passed (split_commas (c ∷ s)) 0 cleared after cleared-bytes e in
      let l : leb spec_max_len (length (c ∷ s)) ≡ false = ground arith in
      (collect port_max port_min after, rw (l, e, port_range_parse) (finish-ok (c ∷ s) after p)),
)
