-- ===== src/DepGraph/Sound.antt =====
-- src/plugin/depgraph.c: the result of `cytadel_depgraph_toposort`.
use cytadel_scan.Base.{
  ℕ, zero, suc, ◌+◌, ◌<◌, Bool, true, false, some, List, [], ◌∷◌, map, ◌≡◌, refl, sym, ap, ◌∙◌,
  arith, length, Bool-cases, Option-cases, inl, inr, All,
}
use cytadel_scan.DepGraph.Degree.{left_over-start, left_over-zero}
use cytadel_scan.DepGraph.Order.{
  Distinct, Ordered, nodes_of, Good, nodes_of-lower_all, nodes_of-mark_placed, placed-Good,
  find_ready-Found,
}
use cytadel_scan.DepGraph.{
  Node, Cell, Toposort, ok, missing_dependency, cycle, validate_deps, missing_dep, start_cell,
  find_ready, mark_placed, lower_all, unplaced, in_front, place_loop, toposort,
}

in_front-ok :
    (i : ℕ) (t : Toposort) (order : List ℕ)
    → in_front i t ≡ ok order
    → (rest : List ℕ) × (t ≡ ok rest) × (i ∷ rest ≡ order)
in_front-ok i (ok rest) order h = (rest, refl, cc)
in_front-ok i (missing_dependency j d) order h = absurd (cc)
in_front-ok i (cycle flags) order h = absurd (cc)

place_loop-Ordered :
    (left : ℕ) (cs : List Cell) (done order : List ℕ)
    → All (Good done) cs
    → Distinct (nodes_of cs)
    → place_loop left cs ≡ ok order
    → Ordered (nodes_of cs) done order × (length order ≡ left)
unfolding place_loop
place_loop-Ordered zero cs done order g d h = let same : [] ≡ order = cc in rw (← same) (tt, refl)
place_loop-Ordered (suc left) cs done order g d h = elim (Option-cases (find_ready cs)) [
  | inl e ↦ let bad : cycle (unplaced cs) ≡ ok order = rw (e, place_loop) at h in absurd (cc)
  | inr (r, e) ↦
      let f = find_ready-Found cs done r e g in
      let next = lower_all f.found_node.script_id (mark_placed r.index cs) in
      let kept : nodes_of next ≡ nodes_of cs =
        nodes_of-lower_all f.found_node.script_id (mark_placed r.index cs)
        ∙ nodes_of-mark_placed r.index cs in
      let run : in_front r.index (place_loop left next) ≡ ok order =
        rw (e, f.its_id, place_loop) at h in
      let (rest, q, same) = in_front-ok r.index (place_loop left next) order run in
      let (ih, size) =
        place_loop-Ordered left next (f.found_node.script_id ∷ done) rest
          (placed-Good r.index cs done f.found_node f.here f.is_new d g) (rw kept d) q in
      rw (← same) (
        (
          f.found_node,
          f.here,
          left_over-zero done f.found_node.deps f.nothing_left,
          f.is_new,
          rw kept at ih,
        ),
        omega (arith, size),
      )
]

nodes_of-start_cell : (ns : List Node) → nodes_of (map start_cell ns) ≡ ns
nodes_of-start_cell [] = refl
nodes_of-start_cell (n ∷ ns) = rw (nodes_of-start_cell ns) refl

start_cell-Good :
    (ns : List Node)
    → All (λ (n : Node). length n.deps < 18446744073709551616) ns
    → All (Good []) (map start_cell ns)
start_cell-Good [] h = tt
start_cell-Good (n ∷ ns) h = (
  record { degree = λ q. sym (left_over-start n.deps); fresh = λ q. refl; size = h.0 },
  start_cell-Good ns h.1,
)

validate_deps-not_ok :
    (nodes : List Node) (i : ℕ) (ns : List Node) (order : List ℕ)
    → validate_deps nodes i ns ≡ some (ok order)
    → true ≡ false
unfolding validate_deps
validate_deps-not_ok nodes i [] order h = cc
validate_deps-not_ok nodes i (n ∷ ns) order h = elim (Option-cases (missing_dep nodes n.deps)) [
  | inl e ↦ validate_deps-not_ok nodes (i + 1) ns order (rw (e, validate_deps) at h)
  | inr (d, e) ↦
      let bad : some (missing_dependency i d) ≡ some (ok order) = rw (e, validate_deps) at h in cc
]

started-Ordered :
    (ns : List Node) (order : List ℕ)
    → Distinct ns
    → All (λ (n : Node). length n.deps < 18446744073709551616) ns
    → place_loop (length ns) (map start_cell ns) ≡ ok order
    → Ordered ns [] order × (length order ≡ length ns)
started-Ordered ns order d short h =
    let same = nodes_of-start_cell ns in
    let placed =
      place_loop-Ordered (length ns) (map start_cell ns) [] order (start_cell-Good ns short)
        (rw same d) h in
    rw same at placed

-- With distinct ids, and dependency lists whose length fits 64 bits, an order that is returned has
-- as many indices as there are nodes, names no node twice, and names each node behind all nodes that
-- it depends on.
pub toposort-Ordered :
    (alloc_ok : Bool) (nodes : List Node) (order : List ℕ)
    → Distinct nodes
    → All (λ (n : Node). length n.deps < 18446744073709551616) nodes
    → toposort alloc_ok nodes ≡ ok order
    → Ordered nodes [] order × (length order ≡ length nodes)
unfolding toposort
toposort-Ordered alloc_ok [] order d short h = let same : [] ≡ order = cc in rw (← same) (tt, refl)
toposort-Ordered alloc_ok (n ∷ ns) order d short h =
    elim (Option-cases (validate_deps (n ∷ ns) 0 (n ∷ ns))) [
      | inr (bad, e) ↦
          let stopped : bad ≡ ok order = rw (e, toposort) at h in
          let clash =
            validate_deps-not_ok (n ∷ ns) 0 (n ∷ ns) order
              (e ∙ ap (λ (x : Toposort). some x) stopped) in
          absurd (cc)
      | inl e ↦ elim (Bool-cases alloc_ok) [
        | inr m ↦
            let bad : cycle (map (λ m. false) (n ∷ ns)) ≡ ok order = rw (e, m, toposort) at h in
            absurd (cc)
        | inl m ↦ started-Ordered (n ∷ ns) order d short (rw (e, m, toposort) at h)
      ]
    ]
