-- ===== src/Plugin/Registry.antt =====
-- src/plugin/registry.c: the plugins of a directory, each id once, in the order of their
-- dependencies. What a file registers comes from the Lua machine: it is a parameter, as are the
-- names that the directory holds.
pub mod Order
pub mod Firsts
pub mod Loaded
use cytadel_scan.Base.Slots.{get_elem?}
use cytadel_scan.Base.{
  ℕ, zero, suc, ◌+◌, ◌-◌, Bool, true, false, not, ◌&&◌, Option, none, some, List, [], ◌∷◌, ◌++◌,
  map, Bytes, codes, length, leb, ◌==◌, if◌then◌else◌,
}
use cytadel_scan.DepGraph.{Node, Toposort, ok, missing_dependency, cycle, toposort}
use cytadel_scan.Kb.Table.{same_key}
use cytadel_scan.Plugin.{Header}

abbrev drop_bytes : ℕ → Bytes → Bytes
drop_bytes zero s = s
drop_bytes (suc n) [] = []
drop_bytes (suc n) (c ∷ s) = drop_bytes n s

-- A name longer than the suffix that ends in it.
unfoldable pub is_lua_name : Bytes → Bool
is_lua_name name =
    if leb (length name) 4
    then false
    else same_key (drop_bytes (length name - 4) name) (codes ".lua")

unfoldable pub lua_names : List Bytes → List Bytes
lua_names [] = []
lua_names (n ∷ ns) = if is_lua_name n then n ∷ lua_names ns else lua_names ns

unfoldable pub has_id : List Header → ℕ → Bool
has_id [] script_id = false
has_id (h ∷ hs) script_id = if h.script_id == script_id then true else has_id hs script_id

abbrev pub keep : List Header → Header → List Header
keep headers candidate =
    if has_id headers candidate.script_id then headers else headers ++ (candidate ∷ [])

-- The loop over the files. A path of 4096 bytes or more is skipped, and so is a file that does not
-- register, and one whose id is taken.
unfoldable pub register_loop :
    (Bytes → Option Header) → Bytes → List Header → List Bytes → List Header
register_loop register_one_file plugins_dir headers [] = headers
register_loop register_one_file plugins_dir headers (name ∷ names) =
    if leb 4096 (length plugins_dir + 1 + length name)
    then register_loop register_one_file plugins_dir headers names
    else elim (register_one_file (plugins_dir ++ codes "/" ++ name)) [
      | none ↦ register_loop register_one_file plugins_dir headers names
      | some candidate ↦ register_loop register_one_file plugins_dir (keep headers candidate) names
    ]

abbrev pub node_of : Header → Node
node_of h = record { script_id = h.script_id; deps = h.dependencies }

-- `ordered[i] = headers[order[i]]`; an index out of range does not come up.
unfoldable pub reorder : List Header → List ℕ → List Header
reorder headers [] = []
reorder headers (i ∷ order) = elim (get_elem? headers i) [
  | none ↦ reorder headers order
  | some h ↦ h ∷ reorder headers order
]

abbrev pub in_order : List Header → Toposort → Option (List Header)
in_order headers (ok order) = some (reorder headers order)
in_order headers (missing_dependency i d) = none
in_order headers (cycle flags) = none

-- What the environment does in a call: whether its allocations succeed, the listing of the
-- directory, or `none` where it cannot be read, and the sorting that `qsort` does.
pub record Env : Type 0 where
  pub listing : Option (List Bytes)
  pub qsort : List Bytes → List Bytes
  pub headers_ok : Bool
  pub graph_ok : Bool
  pub sort_ok : Bool
  pub ordered_ok : Bool
  pub registry_ok : Bool

unfoldable pub order_plugins : Env → List Header → Option (List Header)
order_plugins env headers =
    if not (length headers == 0) && not env.graph_ok
    then none
    else if not (length headers == 0) && not env.ordered_ok
    then none
    else if not env.registry_ok
    then none
    else in_order headers (toposort env.sort_ok (map node_of headers))

-- `none` is the return of -1.
unfoldable pub registry_load : Env → (Bytes → Option Header) → Option Bytes → Option (List Header)
registry_load env register_one_file none = none
registry_load env register_one_file (some plugins_dir) = elim env.listing [
  | none ↦ none
  | some entries ↦
      let names = env.qsort (lua_names entries) in
      if not (length names == 0) && not env.headers_ok
      then none
      else order_plugins env (register_loop register_one_file plugins_dir [] names)
]
