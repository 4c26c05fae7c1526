-- ===== src/DepGraph.antt =====
-- src/plugin/depgraph.c: the order of plugins by their dependencies. A script id is compared with
-- others only, so that its bit pattern stands for it.
pub mod Degree
pub mod Order
pub mod Sound
pub mod Missing
mod Tests
use cytadel_scan.Base.{
  ℕ, zero, suc, ◌+◌, ◌%◌, ◌^◌, Bool, true, false, not, ◌&&◌, Option, none, some, List, [], ◌∷◌, map,
  ◌==◌, if◌then◌else◌, length,
}

pub record Node : Type 0 where
  pub script_id : ℕ
  pub deps : List ℕ

-- A node with its places in the arrays `in_degree` and `placed`.
pub record Cell : Type 0 where
  pub node : Node
  pub in_degree : ℕ
  pub placed : Bool

-- `MISSING_DEPENDENCY` comes with the index and the id, `CYCLE` with `out_in_cycle`.
pub data Toposort : Type 0 where
  ok : List ℕ → Toposort
  missing_dependency : ℕ → ℕ → Toposort
  cycle : List Bool → Toposort

unfoldable pub is_known : List Node → ℕ → Bool
is_known [] script_id = false
is_known (n ∷ ns) script_id = if n.script_id == script_id then true else is_known ns script_id

-- The first dependency that names no node.
unfoldable pub missing_dep : List Node → List ℕ → Option ℕ
missing_dep nodes [] = none
missing_dep nodes (d ∷ ds) = if is_known nodes d then missing_dep nodes ds else some d

unfoldable pub validate_deps : List Node → ℕ → List Node → Option Toposort
validate_deps nodes i [] = none
validate_deps nodes i (n ∷ ns) = elim (missing_dep nodes n.deps) [
  | some d ↦ some (missing_dependency i d)
  | none ↦ validate_deps nodes (i + 1) ns
]

abbrev pub start_cell : Node → Cell
start_cell n = record { node = n; in_degree = length n.deps; placed = false }

-- An index with the id that stands there.
pub record Ready : Type 0 where
  pub index : ℕ
  pub ready_id : ℕ

abbrev pub later : Option Ready → Option Ready
later none = none
later (some r) = some (record r { index = suc r.index })

-- The lowest index that is ready.
unfoldable pub find_ready : List Cell → Option Ready
find_ready [] = none
find_ready (c ∷ cs) =
    if not c.placed && c.in_degree == 0
    then some (record { index = 0; ready_id = c.node.script_id })
    else later (find_ready cs)

unfoldable pub mark_placed : ℕ → List Cell → List Cell
mark_placed i [] = []
mark_placed zero (c ∷ cs) = record c { placed = true } ∷ cs
mark_placed (suc i) (c ∷ cs) = c ∷ mark_placed i cs

-- `in_degree[i]--` for each equal dependency, in 64 bits.
unfoldable pub lower_degree : ℕ → List ℕ → ℕ → ℕ
lower_degree id [] x = x
lower_degree id (d ∷ ds) x =
    lower_degree id ds (if d == id then (x + 18446744073709551615) % 2 ^ 64 else x)

abbrev pub lower_cell : ℕ → Cell → Cell
lower_cell id c =
    if c.placed then c else record c { in_degree = lower_degree id c.node.deps c.in_degree }

abbrev pub lower_all : ℕ → List Cell → List Cell
lower_all id [] = []
lower_all id (c ∷ cs) = lower_cell id c ∷ lower_all id cs

abbrev pub unplaced : List Cell → List Bool
unplaced [] = []
unplaced (c ∷ cs) = not c.placed ∷ unplaced cs

abbrev pub in_front : ℕ → Toposort → Toposort
in_front i (ok order) = ok (i ∷ order)
in_front i r = r

-- `while (placed_count < count)`, with the number of nodes that are left.
unfoldable pub place_loop : ℕ → List Cell → Toposort
place_loop zero cells = ok []
place_loop (suc left) cells = elim (find_ready cells) [
  | none ↦ cycle (unplaced cells)
  | some r ↦ in_front r.index (place_loop left (lower_all r.ready_id (mark_placed r.index cells)))
]

unfoldable pub toposort : Bool → List Node → Toposort
toposort alloc_ok [] = ok []
toposort alloc_ok (n ∷ ns) = elim (validate_deps (n ∷ ns) 0 (n ∷ ns)) [
  | some bad ↦ bad
  | none ↦
      if not alloc_ok
      then cycle (map (λ m. false) (n ∷ ns))
      else place_loop (length (n ∷ ns)) (map start_cell (n ∷ ns))
]
