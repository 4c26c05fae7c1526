-- ===== src/Plugin/Scheduler.antt =====
-- src/plugin/scheduler.c: which plugins run on a host, and for which ports. A plugin's run is the
-- work of the Lua machine: a parameter, which gives the knowledge base that the run leaves and a
-- status. The findings that it appends are not modelled.
pub mod Ports
pub mod Collected
pub mod Dispatch
pub mod Follow
use cytadel_scan.Base.Slots.{get_elem?}
use cytadel_scan.Base.Text.{strip_prefix}
use cytadel_scan.Base.{
  ℕ, zero, suc, ◌+◌, ◌-◌, ◌*◌, Bool, true, false, not, ◌||◌, Option, none, some, List, [], ◌∷◌,
  ◌++◌, Bytes, length, ltb, leb, ◌==◌, if◌then◌else◌,
}
use cytadel_scan.Kb.Table.{Kb, Entry, get, found, not_found, invalid_key}
use cytadel_scan.Kb.Walk.{foreach}
use cytadel_scan.Plugin.{Header, services}

-- `cytadel_plugin_result_status_t`
pub data RunStatus : Type 0 where
  run_ok skipped run_failed : RunStatus

-- A call of `on_result`; the port is `none` where the source passes -1.
pub record Event : Type 0 where
  pub event_id : ℕ
  pub bound_port : Option ℕ
  pub status : RunStatus

pub record Ran : Type 0 where
  pub kb_after : Kb
  pub run_status : RunStatus

abbrev pub Invoke : Type 0
Invoke = Header → Option ℕ → Kb → Ran

pub record Trace : Type 0 where
  pub kb : Kb
  pub events : List Event

unfoldable pub exact_key_present : Kb → Bytes → Bool
exact_key_present kb key = elim (get (some kb) (some key)) [
  | found v ↦ true
  | not_found ↦ false
  | invalid_key ↦ false
]

abbrev is_index : Option ℕ → ℕ → Bool
is_index none i = false
is_index (some k) i = k == i

unfoldable pub gates_loop : Kb → Option ℕ → ℕ → List Bytes → Bool
gates_loop kb skip_index i [] = true
gates_loop kb skip_index i (key ∷ keys) =
    let rest = gates_loop kb skip_index (i + 1) keys in
    if is_index skip_index i then rest else if not (exact_key_present kb key) then false else rest

unfoldable pub extra_gates_satisfied : Header → Kb → Option ℕ → Bool
extra_gates_satisfied hdr kb skip_index = gates_loop kb skip_index 0 hdr.required_keys

abbrev has_slash : Bytes → Bool
has_slash [] = false
has_slash (c ∷ s) = c == b'/' || has_slash s

-- The decimal loop; `none` is a return from inside it.
unfoldable pub port_loop : ℕ → Bytes → Option ℕ
port_loop port [] = some port
port_loop port (c ∷ s) =
    let next = port * 10 + (c - b'0') in
    let rest = port_loop next s in
    if ltb c b'0' || ltb b'9' c then none else if ltb 65535 next then none else rest

abbrev pub positive : Option ℕ → Option ℕ
positive none = none
positive (some port) = if ltb port 1 then none else some port

unfoldable pub port_suffix : Bytes → Option ℕ
port_suffix [] = none
port_suffix (c ∷ s) = if has_slash (c ∷ s) then none else positive (port_loop 0 (c ∷ s))

-- The slash behind the service, and the port behind it.
unfoldable pub behind_service : Option Bytes → Option ℕ
behind_service none = none
behind_service (some []) = none
behind_service (some (c ∷ s)) = if c == b'/' then port_suffix s else none

-- The port in a key of the form `Services/<svc>/<port>`.
unfoldable pub collect_port : Bytes → Bytes → Option ℕ
collect_port svc key =
    if leb (length key) (9 + length svc + 1) then none else elim (strip_prefix services key) [
      | none ↦ none
      | some rest ↦ behind_service (strip_prefix svc rest)
    ]

pub record Collect : Type 0 where
  pub ports : List ℕ
  pub capacity : ℕ

-- A port for which the array cannot grow is left out.
unfoldable pub add_port : (ℕ → Bool) → ℕ → Collect → Collect
add_port realloc_ok port c =
    if length c.ports == c.capacity
    then (let new_capacity = if c.capacity == 0 then 8 else c.capacity * 2 in
        if realloc_ok new_capacity
        then record { ports = c.ports ++ (port ∷ []); capacity = new_capacity }
        else c)
    else record c { ports = c.ports ++ (port ∷ []) }

unfoldable pub collect_loop : (ℕ → Bool) → Bytes → Collect → List Entry → Collect
collect_loop realloc_ok svc c [] = c
collect_loop realloc_ok svc c (e ∷ es) = elim (collect_port svc e.key) [
  | none ↦ collect_loop realloc_ok svc c es
  | some port ↦ collect_loop realloc_ok svc (add_port realloc_ok port c) es
]

abbrev pub drop_bytes : ℕ → Bytes → Bytes
drop_bytes zero s = s
drop_bytes (suc n) [] = []
drop_bytes (suc n) (c ∷ s) = drop_bytes n s

abbrev pub take_bytes : ℕ → Bytes → Bytes
take_bytes zero s = []
take_bytes (suc n) [] = []
take_bytes (suc n) (c ∷ s) = c ∷ take_bytes n s

-- The token between `Services/` and the slash and star at the end.
unfoldable pub wildcard_service : Bytes → Bytes
wildcard_service key = take_bytes (length key - 9 - 2) (drop_bytes 9 key)

abbrev pub event : Header → Option ℕ → RunStatus → Event
event hdr port status = record { event_id = hdr.script_id; bound_port = port; status = status }

abbrev pub reported : Event → Trace → Trace
reported e t = record t { events = e ∷ t.events }

unfoldable pub run_exact_key_plugin : Invoke → Header → Kb → Trace
run_exact_key_plugin invoke hdr kb =
    if not (extra_gates_satisfied hdr kb none)
    then record { kb = kb; events = event hdr none skipped ∷ [] }
    else record {
      kb = (invoke hdr none kb).kb_after;
      events = event hdr none (invoke hdr none kb).run_status ∷ [];
    }

-- The loop over the sorted ports: the gates are tested for each.
unfoldable pub ports_loop : Invoke → Header → Option ℕ → Kb → List ℕ → Trace
ports_loop invoke hdr wildcard kb [] = record { kb = kb; events = [] }
ports_loop invoke hdr wildcard kb (p ∷ ps) =
    let left_out = ports_loop invoke hdr wildcard kb ps in
    let next = ports_loop invoke hdr wildcard (invoke hdr (some p) kb).kb_after ps in
    if not (extra_gates_satisfied hdr kb wildcard)
    then reported (event hdr (some p) skipped) left_out
    else reported (event hdr (some p) (invoke hdr (some p) kb).run_status) next

-- `qsort` is a parameter.
unfoldable pub run_wildcard_plugin :
    (ℕ → Bool) → (List ℕ → List ℕ) → Invoke → Header → Option ℕ → Bytes → Kb → Trace
run_wildcard_plugin realloc_ok qsort invoke hdr wildcard key kb =
    let c =
      collect_loop realloc_ok (wildcard_service key) (record { ports = []; capacity = 0 })
        (foreach (some kb) true) in
    if length c.ports == 0
    then record { kb = kb; events = event hdr none skipped ∷ [] }
    else ports_loop invoke hdr wildcard kb (qsort c.ports)

-- `required_keys[wildcard_index]` is there: registration set the index.
abbrev pub key_at : Header → ℕ → Bytes
key_at hdr i = elim (get_elem? hdr.required_keys i) [ none ↦ [] | some key ↦ key ]

unfoldable pub run_plugin : (ℕ → Bool) → (List ℕ → List ℕ) → Invoke → Header → Kb → Trace
run_plugin realloc_ok qsort invoke hdr kb = elim hdr.wildcard_index [
  | none ↦ run_exact_key_plugin invoke hdr kb
  | some i ↦ run_wildcard_plugin realloc_ok qsort invoke hdr (some i) (key_at hdr i) kb
]

unfoldable pub run_all_loop : (ℕ → Bool) → (List ℕ → List ℕ) → Invoke → List Header → Kb → Trace
run_all_loop realloc_ok qsort invoke [] kb = record { kb = kb; events = [] }
run_all_loop realloc_ok qsort invoke (hdr ∷ hs) kb =
    let t = run_plugin realloc_ok qsort invoke hdr kb in
    let rest = run_all_loop realloc_ok qsort invoke hs t.kb in
    record rest { events = t.events ++ rest.events }

-- A null registry or knowledge base: nothing happens.
unfoldable pub run_all_for_host :
    (ℕ → Bool) → (List ℕ → List ℕ) → Invoke → Option (List Header) → Option Kb → Option Trace
run_all_for_host realloc_ok qsort invoke none kb = none
run_all_for_host realloc_ok qsort invoke (some hs) none = none
run_all_for_host realloc_ok qsort invoke (some hs) (some kb) =
    some (run_all_loop realloc_ok qsort invoke hs kb)
