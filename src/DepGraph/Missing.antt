-- ===== src/DepGraph/Missing.antt =====
-- src/plugin/depgraph.c: dependencies that name no node.
use cytadel_scan.Base.{
  ℕ, zero, suc, ◌+◌, Bool, true, false, some, List, [], ◌∷◌, ◌≡◌, refl, arith, Bool-cases, All, ◌≢◌,
  ◌==◌, Option-cases, inl, inr, ◌∙◌, ap,
}
use cytadel_scan.DepGraph.Degree.{member}
use cytadel_scan.DepGraph.Order.{node_at}
use cytadel_scan.DepGraph.{
  Node, Cell, Toposort, ok, missing_dependency, cycle, is_known, missing_dep, validate_deps,
  find_ready, place_loop, in_front, toposort, unplaced, mark_placed, lower_all,
}

missing_dep-law :
    (nodes : List Node) (ds : List ℕ) (d : ℕ)
    → missing_dep nodes ds ≡ some d
    → (is_known nodes d ≡ false) × (member d ds ≡ true)
unfolding missing_dep
missing_dep-law nodes [] d h = absurd (cc)
missing_dep-law nodes (x ∷ ds) d h = elim (Bool-cases (is_known nodes x)) [
  | inl k ↦
      let (out, here) = missing_dep-law nodes ds d (rw (k, missing_dep) at h) in (out, ground arith)
  | inr k ↦
      let same : some x ≡ some d = rw k at h in
      let eq : x ≡ d = cc in (rw (← eq) k, rw (← eq) (ground arith))
]

is_known-none :
    (nodes : List Node) (d : ℕ) → is_known nodes d ≡ false → All (λ m. m.script_id ≢ d) nodes
unfolding is_known
is_known-none [] d h = tt
is_known-none (n ∷ ns) d h = elim (Bool-cases (n.script_id == d)) [
  | inl e ↦ absurd (ground arith)
  | inr e ↦ ((ground arith), is_known-none ns d (rw e at h))
]

validate_deps-law :
    (nodes : List Node) (i : ℕ) (ns : List Node) (j d : ℕ)
    → validate_deps nodes i ns ≡ some (missing_dependency j d)
    → (k : ℕ) × (n : Node) × (j ≡ i + k)
      × (node_at ns k ≡ some n)
      × (is_known nodes d ≡ false)
      × (member d n.deps ≡ true)
unfolding validate_deps
validate_deps-law nodes i [] j d h = absurd (cc)
validate_deps-law nodes i (n ∷ ns) j d h = elim (Option-cases (missing_dep nodes n.deps)) [
  | inr (x, e) ↦
      let same : some (missing_dependency i x) ≡ some (missing_dependency j d) =
        rw (e, validate_deps) at h in
      let at_i : i ≡ j = cc in
      let dep : x ≡ d = cc in
      let (out, here) = missing_dep-law nodes n.deps x e in
      (0, n, omega (arith, at_i), refl, rw (← dep) out, rw (← dep) here)
  | inl e ↦
      let (k, m, at_k, found, out, here) =
        validate_deps-law nodes (i + 1) ns j d (rw (e, validate_deps) at h) in
      (suc k, m, omega (arith, at_k), found, out, here)
]

in_front-not_missing :
    (i j d : ℕ) (t : Toposort)
    → ((k e : ℕ) → t ≡ missing_dependency k e → true ≡ false)
    → in_front i t ≡ missing_dependency j d
    → true ≡ false
in_front-not_missing i j d (ok order) h e = cc
in_front-not_missing i j d (missing_dependency k x) h e = h k x refl
in_front-not_missing i j d (cycle flags) h e = cc

place_loop-not_missing :
    (left : ℕ) (cs : List Cell) (j d : ℕ)
    → place_loop left cs ≡ missing_dependency j d
    → true ≡ false
unfolding place_loop
place_loop-not_missing zero cs j d h = cc
place_loop-not_missing (suc left) cs j d h = elim (Option-cases (find_ready cs)) [
  | inl e ↦ let bad : cycle (unplaced cs) ≡ missing_dependency j d = rw (e, place_loop) at h in cc
  | inr (r, e) ↦
      in_front-not_missing r.index j d
        (place_loop left (lower_all r.ready_id (mark_placed r.index cs)))
        (place_loop-not_missing left (lower_all r.ready_id (mark_placed r.index cs)))
        (rw (e, place_loop) at h)
]

-- A missing dependency that is reported is one: the node at the index lists the id, and every
-- node's own id is another.
pub toposort-missing_dependency :
    (alloc_ok : Bool) (nodes : List Node) (j d : ℕ)
    → toposort alloc_ok nodes ≡ missing_dependency j d
    → (n : Node) × (node_at nodes j ≡ some n)
      × (member d n.deps ≡ true)
      × All (λ m. m.script_id ≢ d) nodes
unfolding toposort
toposort-missing_dependency alloc_ok [] j d h = absurd (cc)
toposort-missing_dependency alloc_ok (n ∷ ns) j d h =
    elim (Option-cases (validate_deps (n ∷ ns) 0 (n ∷ ns))) [
      | inr (bad, e) ↦
          let same : bad ≡ missing_dependency j d = rw (e, toposort) at h in
          let (k, m, at_k, found, out, here) =
            validate_deps-law (n ∷ ns) 0 (n ∷ ns) j d (e ∙ ap (λ (x : Toposort). some x) same) in
          let index : k ≡ j = omega (arith, at_k) in
          (m, rw (← index) found, here, is_known-none (n ∷ ns) d out)
      | inl e ↦ elim (Bool-cases alloc_ok) [
        | inl m ↦
            let clash = place_loop-not_missing _ _ j d (rw (e, m, toposort) at h) in absurd (cc)
        | inr m ↦ let clash = rw (e, m, toposort) at h in absurd (cc)
      ]
    ]
