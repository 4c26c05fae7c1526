-- ===== src/Plugin/Tests.antt =====
-- src/plugin: a directory with two plugins, a host on which they run, and the theorems at these
-- values.
use mathlib.Core.List.{Perm}
use cytadel_scan.Base.Slots.{get_elem?}
use cytadel_scan.Base.Text.{strip_prefix}
use cytadel_scan.Base.{
  ℕ, ◌≡◌, ◌↔◌, refl, arith, true, Bool-cases, inl, inr, Option, some, none, List, [], ◌∷◌, Bytes,
  codes, if◌then◌else◌,
}
use cytadel_scan.DepGraph.{
  is_known, missing_dep, validate_deps, find_ready, mark_placed, lower_degree, place_loop, toposort,
}
use cytadel_scan.Kb.Key.{
  is_key_byte, segments_loop, ends_with_slash, validate_key, validate_no_embedded_nul,
}
use cytadel_scan.Kb.Table.{Kb, str, hash, same_key, index_of, bucket, chain_find, find, get}
use cytadel_scan.Kb.Walk.{foreach}
use cytadel_scan.Plugin.Register.Wildcard.{IsOnly}
use cytadel_scan.Plugin.Register.{
  match_service_wildcard, wildcard, malformed, exact, in_front_of_star, is_svc_byte, check_svc,
  validate_keys_loop, validate_required_keys,
}
use cytadel_scan.Plugin.Registry.Order.{InOrder, HasShortDeps}
use cytadel_scan.Plugin.Registry.Firsts.{firsts, candidates}
use cytadel_scan.Plugin.Registry.Loaded.{registry_load-InOrder}
use cytadel_scan.Plugin.Registry.{
  Env, is_lua_name, lua_names, has_id, register_loop, reorder, order_plugins, registry_load,
}
use cytadel_scan.Plugin.Scheduler.Dispatch.{Reports, run_plugin-port_iff}
use cytadel_scan.Plugin.Scheduler.Collected.{PortSeen}
use cytadel_scan.Plugin.Scheduler.Follow.{Follows, run_all_loop-Follows}
use cytadel_scan.Plugin.Scheduler.{
  run_ok, skipped, Invoke, exact_key_present, gates_loop, extra_gates_satisfied, port_loop,
  port_suffix, behind_service, collect_port, add_port, collect_loop, wildcard_service,
  run_exact_key_plugin, ports_loop, run_wildcard_plugin, run_plugin, run_all_loop, event,
}
use cytadel_scan.Plugin.{Header}

plugins : Unit {0}
unfolding strip_prefix get_elem? is_known missing_dep validate_deps find_ready mark_placed
    lower_degree place_loop toposort is_key_byte segments_loop ends_with_slash validate_key
    validate_no_embedded_nul hash same_key index_of bucket chain_find find get foreach
    match_service_wildcard in_front_of_star is_svc_byte check_svc validate_keys_loop
    validate_required_keys is_lua_name lua_names has_id register_loop reorder order_plugins
    registry_load exact_key_present gates_loop extra_gates_satisfied port_loop port_suffix
    behind_service collect_port add_port collect_loop wildcard_service run_exact_key_plugin
    ports_loop run_wildcard_plugin run_plugin run_all_loop
plugins = tt

keys :
    (match_service_wildcard (codes "Services/http/*") ≡ wildcard (codes "http"))
    × (match_service_wildcard (codes "Services/http/80") ≡ exact)
    × (match_service_wildcard (codes "Services/a/b/*") ≡ malformed)
    × (match_service_wildcard (codes "Services//*") ≡ malformed)
    × (validate_required_keys (codes "Host/up" ∷ codes "Services/http/*" ∷ []) ≡ some (some 1))
    × (validate_required_keys (codes "Services/a/*" ∷ codes "Services/b/*" ∷ []) ≡ none)
unfolding plugins
keys = (refl, refl, refl, refl, refl, refl)

ports :
    (collect_port (codes "http") (codes "Services/http/80") ≡ some 80)
    × (collect_port (codes "http") (codes "Services/http/080") ≡ some 80)
    × (collect_port (codes "http") (codes "Services/https/80") ≡ none)
    × (collect_port (codes "http") (codes "Services/http/65536") ≡ none)
    × (collect_port (codes "http") (codes "Services/http/0") ≡ none)
    × (collect_port (codes "http") (codes "Services/http/8/0") ≡ none)
unfolding plugins
ports = (refl, refl, refl, refl, refl, refl)

-- The second depends on the first, which stands behind it in the listing.
abbrev first : Header
first = record {
  script_id = 10;
  dependencies = [];
  required_keys = codes "Services/http/*" ∷ [];
  wildcard_index = some 0;
}

abbrev second : Header
second = record {
  script_id = 20;
  dependencies = 10 ∷ [];
  required_keys = codes "Host/up" ∷ [];
  wildcard_index = none;
}

abbrev file : Bytes → Option Header
file path =
    if same_key path (codes "/p/b.lua")
    then some first
    else if same_key path (codes "/p/a.lua")
    then some second
    else none

abbrev env : Env
env = record {
  listing = some (codes "a.lua" ∷ codes "b.lua" ∷ codes "README" ∷ codes ".lua" ∷ []);
  qsort = λ names. names;
  headers_ok = true;
  graph_ok = true;
  sort_ok = true;
  ordered_ok = true;
  registry_ok = true;
}

loaded : registry_load env file (some (codes "/p")) ≡ some (first ∷ second ∷ [])
unfolding plugins
loaded = refl

file-HasShortDeps : (path : Bytes) (h : Header) → file path ≡ some h → HasShortDeps h
file-HasShortDeps path h e = elim (Bool-cases (same_key path (codes "/p/b.lua"))) [
  | inl b ↦
      let same : some first ≡ some h = rw b at e in
      let eq : first ≡ h = cc in rw (← eq) (omega arith)
  | inr b ↦ elim (Bool-cases (same_key path (codes "/p/a.lua"))) [
    | inl a ↦
        let same : some second ≡ some h = rw (b, a) at e in
        let eq : second ≡ h = cc in rw (← eq) (omega arith)
    | inr a ↦ let bad : none ≡ some h = rw (b, a) at e in absurd (cc)
  ]
]

registry_load-InOrder_example :
    (entries : List Bytes) × (env.listing ≡ some entries)
    × InOrder [] (first ∷ second ∷ [])
    × Perm
        (first ∷ second ∷ [])
        (firsts [] (candidates file (codes "/p") (env.qsort (lua_names entries))))
registry_load-InOrder_example =
    registry_load-InOrder env file (codes "/p") (first ∷ second ∷ []) file-HasShortDeps loaded

-- A host with one service.
abbrev host : Kb
host = record {
  buckets = (record { key = codes "Services/http/80"; value = str (codes "x") } ∷ []) ∷ [];
  bucket_count = 1;
  entry_count = 1;
}

abbrev works : Invoke
works hdr port kb = record { kb_after = kb; run_status = run_ok }

abbrev same_ports : List ℕ → List ℕ
same_ports ps = ps

scan :
    (run_all_loop (λ n. true) same_ports works (first ∷ second ∷ []) host).events
    ≡ event first (some 80) run_ok ∷ event second none skipped ∷ []
unfolding plugins
scan = refl

run_all_loop-Follows_example :
    Follows
      (first ∷ second ∷ [])
      (run_all_loop (λ n. true) same_ports works (first ∷ second ∷ []) host).events
run_all_loop-Follows_example =
    run_all_loop-Follows (λ n. true) same_ports works (first ∷ second ∷ []) host (λ ps. refl)

accepted : validate_required_keys first.required_keys ≡ some (some 0)
unfolding plugins
accepted = refl

run_plugin-port_iff_example :
    (key : Bytes) × (svc : Bytes) × IsOnly first.required_keys 0 key svc
    × ((p : ℕ)
        → Reports p (run_plugin (λ n. true) same_ports works first host).events
          ↔ PortSeen svc p (foreach (some host) true))
run_plugin-port_iff_example =
    run_plugin-port_iff (λ n. true) same_ports works first 0 host (λ n. refl) (λ p ps. refl) refl
      accepted
