-- ===== src/DepGraph/Order.antt =====
-- src/plugin/depgraph.c: every plugin comes behind those that it depends on.
use cytadel_scan.Base.{
  ℕ, zero, suc, ◌≤◌, ◌<◌, true, false, not, ◌&&◌, Option, none, some, List, [], ◌∷◌, ◌≡◌, refl, sym,
  ◌∙◌, arith, ◌==◌, length, Bool-cases, Option-cases, inl, inr, All,
}
use cytadel_scan.DepGraph.Degree.{member, left_over, left_over-done, lower_degree-times}
use cytadel_scan.DepGraph.{Node, Cell, Ready, later, find_ready, mark_placed, lower_cell, lower_all}

abbrev pub node_at : List Node → ℕ → Option Node
node_at [] i = none
node_at (n ∷ ns) zero = some n
node_at (n ∷ ns) (suc i) = node_at ns i

-- No two nodes with one id.
abbrev pub Distinct : List Node → Type 0
Distinct [] = Unit
Distinct (n ∷ ns) = All (λ (m : Node). (m.script_id == n.script_id) ≡ false) ns × Distinct ns

-- The indices of `order` name nodes; each has all its dependencies among the ids that are done when
-- it comes, and is not done itself.
abbrev pub Ordered : List Node → List ℕ → List ℕ → Type 0
Ordered nodes done [] = Unit
Ordered nodes done (i ∷ order) =
    (n : Node) × (node_at nodes i ≡ some n)
    × All (λ d. member d done ≡ true) n.deps
    × (member n.script_id done ≡ false)
    × Ordered nodes (n.script_id ∷ done) order

abbrev pub nodes_of : List Cell → List Node
nodes_of [] = []
nodes_of (c ∷ cs) = c.node ∷ nodes_of cs

pub record Good (done : List ℕ) (c : Cell) : Type 0 where
  pub degree : c.placed ≡ false → c.in_degree ≡ left_over done c.node.deps
  pub fresh : c.placed ≡ false → member c.node.script_id done ≡ false
  pub size : length c.node.deps < 18446744073709551616

left_over-le : (done ds : List ℕ) → left_over done ds ≤ length ds
left_over-le done [] = omega arith
left_over-le done (d ∷ ds) = elim (Bool-cases (member d done)) [
  | inl m ↦ rw m (omega (arith, left_over-le done ds))
  | inr m ↦ rw m (omega (arith, left_over-le done ds))
]

pub nodes_of-lower_all : (id : ℕ) (cs : List Cell) → nodes_of (lower_all id cs) ≡ nodes_of cs
nodes_of-lower_all id [] = refl
nodes_of-lower_all id (c ∷ cs) = elim (Bool-cases c.placed) [
  | inl p ↦ rw (p, nodes_of-lower_all id cs) refl
  | inr p ↦ rw (p, nodes_of-lower_all id cs) refl
]

pub nodes_of-mark_placed : (i : ℕ) (cs : List Cell) → nodes_of (mark_placed i cs) ≡ nodes_of cs
unfolding mark_placed
nodes_of-mark_placed i [] = refl
nodes_of-mark_placed zero (c ∷ cs) = refl
nodes_of-mark_placed (suc i) (c ∷ cs) = rw (nodes_of-mark_placed i cs) refl

module _ (id : ℕ) (done : List ℕ) (new : member id done ≡ false) where
  lower_cell-Good :
      (c : Cell)
      → (c.node.script_id == id) ≡ false
      → Good done c
      → Good (id ∷ done) (lower_cell id c)
  lower_cell-Good c other g = elim (Bool-cases c.placed) [
    | inl p ↦ rw p (record {
      degree = λ q. let bad : true ≡ false = q in absurd (cc);
      fresh = λ q. let bad : true ≡ false = q in absurd (cc);
      size = g.size;
    })
    | inr p ↦
        let moved = left_over-done id done c.node.deps new in
        let few = left_over-le done c.node.deps in
        let was = g.degree p in
        rw p (record {
          degree = λ q. omega (
            arith,
            moved,
            was,
            lower_degree-times id c.node.deps c.in_degree (omega (arith, moved, was))
                (omega (arith, few, was, g.size)),
          );
          fresh = λ q. rw (other, g.fresh p) refl;
          size = g.size;
        })
  ]

  lower_all-Good :
      (cs : List Cell)
      → All (λ (m : Node). (m.script_id == id) ≡ false) (nodes_of cs)
      → All (Good done) cs
      → All (Good (id ∷ done)) (lower_all id cs)
  lower_all-Good [] others g = tt
  lower_all-Good (c ∷ cs) others g =
      (lower_cell-Good c others.0 g.0, lower_all-Good cs others.1 g.1)

All-node_at :
    (n m : Node) (ns : List Node) (i : ℕ)
    → All (λ (m : Node). (m.script_id == n.script_id) ≡ false) ns
    → node_at ns i ≡ some m
    → (n.script_id == m.script_id) ≡ false
All-node_at n m [] i h e = absurd (cc)
All-node_at n m (x ∷ ns) zero h e =
    let same : x ≡ m = cc in
    let apart : (m.script_id == n.script_id) ≡ false = rw same at h.0 in ground arith
All-node_at n m (x ∷ ns) (suc i) h e = All-node_at n m ns i h.1 e

-- Placing a node keeps what the degrees count.
pub placed-Good :
    (i : ℕ) (cs : List Cell) (done : List ℕ) (n : Node)
    → node_at (nodes_of cs) i ≡ some n
    → member n.script_id done ≡ false
    → Distinct (nodes_of cs)
    → All (Good done) cs
    → All (Good (n.script_id ∷ done)) (lower_all n.script_id (mark_placed i cs))
unfolding mark_placed
placed-Good i [] done n at_i new d g = tt
placed-Good zero (c ∷ cs) done n at_i new d g =
    let same : c.node ≡ n = cc in
    (
      record {
        degree = λ q. let bad : true ≡ false = q in absurd (cc);
        fresh = λ q. let bad : true ≡ false = q in absurd (cc);
        size = g.0.size;
      },
      lower_all-Good n.script_id done new cs (rw same at d.0) g.1,
    )
placed-Good (suc i) (c ∷ cs) done n at_i new d g = (
  lower_cell-Good n.script_id done new c (All-node_at c.node n (nodes_of cs) i d.0 at_i) g.0,
  placed-Good i cs done n at_i new d.1 g.1,
)

pub record Found (cs : List Cell) (done : List ℕ) (r : Ready) : Type 0 where
  pub found_node : Node
  pub here : node_at (nodes_of cs) r.index ≡ some found_node
  pub its_id : r.ready_id ≡ found_node.script_id
  pub nothing_left : left_over done found_node.deps ≡ 0
  pub is_new : member found_node.script_id done ≡ false

pub find_ready-Found :
    (cs : List Cell) (done : List ℕ) (r : Ready)
    → find_ready cs ≡ some r
    → All (Good done) cs
    → Found cs done r
unfolding find_ready
find_ready-Found [] done r h g = absurd (cc)
find_ready-Found (c ∷ cs) done r h g = elim (Bool-cases (not c.placed && c.in_degree == 0)) [
  | inl e ↦
      let free : c.placed ≡ false = ground arith in
      let zero_degree : c.in_degree ≡ 0 = ground arith in
      let first : some (record { index = 0; ready_id = c.node.script_id }) ≡ some r = rw e at h in
      let eq : record { index = 0; ready_id = c.node.script_id } ≡ r = cc in
      rw (← eq) (record {
        found_node = c.node;
        here = refl;
        its_id = refl;
        nothing_left = sym (g.0.degree free) ∙ zero_degree;
        is_new = g.0.fresh free;
      })
  | inr e ↦
      let rest : later (find_ready cs) ≡ some r = rw (e, find_ready) at h in
      elim (Option-cases (find_ready cs)) [
        | inl f ↦ let bad : none ≡ some r = rw f at rest in absurd (cc)
        | inr (q, f) ↦
            let next : some (record q { index = suc q.index }) ≡ some r = rw f at rest in
            let eq : record q { index = suc q.index } ≡ r = cc in
            let found = find_ready-Found cs done q f g.1 in
            rw (← eq) (record {
              found_node = found.found_node;
              here = found.here;
              its_id = found.its_id;
              nothing_left = found.nothing_left;
              is_new = found.is_new;
            })
      ]
]
