-- ===== src/DepGraph/Tests.antt =====
-- src/plugin/depgraph.c: plugins in order, and the theorem at concrete values.
use cytadel_scan.Base.{All, ◌≢◌, some, ℕ, true, false, List, [], ◌∷◌, ◌≡◌, refl, arith, length}
use cytadel_scan.DepGraph.Order.{Ordered, node_at}
use cytadel_scan.DepGraph.Degree.{member}
use cytadel_scan.DepGraph.Missing.{toposort-missing_dependency}
use cytadel_scan.DepGraph.Sound.{toposort-Ordered}
use cytadel_scan.DepGraph.{
  Node, ok, missing_dependency, cycle, is_known, missing_dep, validate_deps, find_ready,
  mark_placed, lower_degree, place_loop, toposort,
}

sorting : Unit {0}
unfolding is_known missing_dep validate_deps find_ready mark_placed lower_degree place_loop toposort
sorting = tt

abbrev plugin : ℕ → List ℕ → Node
plugin id ds = record { script_id = id; deps = ds }

-- The second plugin depends on the third, and the third on the first.
abbrev plugins : List Node
plugins = plugin 10 [] ∷ plugin 20 (30 ∷ 10 ∷ 30 ∷ []) ∷ plugin 30 (10 ∷ []) ∷ []

abbrev its_order : List ℕ
its_order = 0 ∷ 2 ∷ 1 ∷ []

sorted : toposort true plugins ≡ ok its_order
unfolding sorting
sorted = refl

refused :
    (toposort true (plugin 1 (2 ∷ []) ∷ []) ≡ missing_dependency 0 2)
    × (toposort true (plugin 1 (2 ∷ []) ∷ plugin 2 (1 ∷ []) ∷ plugin 3 [] ∷ [])
        ≡ cycle (true ∷ true ∷ false ∷ []))
unfolding sorting
refused = (refl, refl)

toposort-Ordered_example : Ordered plugins [] its_order × (length its_order ≡ length plugins)
toposort-Ordered_example =
    toposort-Ordered true plugins its_order ((refl, (refl, tt)), ((refl, tt), (tt, tt)))
      (omega arith, (omega arith, (omega arith, tt))) sorted

toposort-missing_dependency_example :
    (n : Node) × (node_at (plugin 1 (2 ∷ []) ∷ []) 0 ≡ some n)
    × (member 2 n.deps ≡ true)
    × All (λ m. m.script_id ≢ 2) (plugin 1 (2 ∷ []) ∷ [])
toposort-missing_dependency_example =
    toposort-missing_dependency true (plugin 1 (2 ∷ []) ∷ []) 0 2 (refused.0)
