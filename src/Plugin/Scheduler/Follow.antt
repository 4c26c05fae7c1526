-- ===== src/Plugin/Scheduler/Follow.antt =====
-- src/plugin/scheduler.c: the order of the calls of `on_result`.
use cytadel_scan.Base.{
  Bytes, ℕ, suc, ◌<◌, Bool, true, Option, none, some, List, [], ◌∷◌, ◌++◌, ◌≡◌, refl, ap, arith,
  length, ◌==◌, Bool-cases, Option-cases, inl, inr, All,
}
use cytadel_scan.Kb.Table.{Kb}
use cytadel_scan.Kb.Walk.{foreach}
use cytadel_scan.Plugin.Scheduler.{
  Event, Trace, Invoke, extra_gates_satisfied, collect_loop, wildcard_service, run_exact_key_plugin,
  ports_loop, run_wildcard_plugin, run_plugin, run_all_loop, key_at,
}
use cytadel_scan.Plugin.{Header}

-- The calls stand in blocks, one for each plugin in the plugins' order, and no block is empty.
abbrev pub Follows : List Header → List Event → Type 0
Follows [] events = events ≡ []
Follows (h ∷ hs) events =
    (own : List Event) × (rest : List Event) × (events ≡ own ++ rest)
    × (0 < length own)
    × All (λ (e : Event). e.event_id ≡ h.script_id) own
    × Follows hs rest

module _ (invoke : Invoke) (hdr : Header) where
  OwnEvents : Trace → Type 0
  OwnEvents t = (0 < length t.events) × All (λ (e : Event). e.event_id ≡ hdr.script_id) t.events

  ports_loop-own :
      (wildcard : Option ℕ) (kb : Kb) (ps : List ℕ)
      → (length (ports_loop invoke hdr wildcard kb ps).events ≡ length ps)
        × All
            (λ (e : Event). e.event_id ≡ hdr.script_id)
            (ports_loop invoke hdr wildcard kb ps).events
  unfolding ports_loop
  ports_loop-own wildcard kb [] = (refl, tt)
  ports_loop-own wildcard kb (p ∷ ps) = elim (Bool-cases (extra_gates_satisfied hdr kb wildcard)) [
    | inr e ↦ let (size, own) = ports_loop-own wildcard kb ps in rw e (ap suc size, (refl, own))
    | inl e ↦
        let (size, own) = ports_loop-own wildcard (invoke hdr (some p) kb).kb_after ps in
        rw e (ap suc size, (refl, own))
  ]

  run_exact_key_plugin-own : (kb : Kb) → OwnEvents (run_exact_key_plugin invoke hdr kb)
  unfolding OwnEvents run_exact_key_plugin
  run_exact_key_plugin-own kb = elim (Bool-cases (extra_gates_satisfied hdr kb none)) [
    | inl e ↦ rw e (omega arith, (refl, tt))
    | inr e ↦ rw e (omega arith, (refl, tt))
  ]

  run_wildcard_plugin-own :
      (realloc_ok : ℕ → Bool) (qsort : List ℕ → List ℕ)
      → ((ps : List ℕ) → length (qsort ps) ≡ length ps)
      → (wildcard : Option ℕ) (key : Bytes) (kb : Kb)
      → OwnEvents (run_wildcard_plugin realloc_ok qsort invoke hdr wildcard key kb)
  unfolding OwnEvents run_wildcard_plugin
  run_wildcard_plugin-own realloc_ok qsort kept wildcard key kb =
      let c =
        collect_loop realloc_ok (wildcard_service key) (record { ports = []; capacity = 0 })
          (foreach (some kb) true) in
      elim (Bool-cases (length c.ports == 0)) [
        | inl e ↦ rw e (omega arith, (refl, tt))
        | inr e ↦
            let (size, own) = ports_loop-own wildcard kb (qsort c.ports) in
            let some_port : 0 < length c.ports = ground arith in
            rw e (omega (arith, size, kept c.ports, some_port), own)
      ]

  run_plugin-own :
      (realloc_ok : ℕ → Bool) (qsort : List ℕ → List ℕ)
      → ((ps : List ℕ) → length (qsort ps) ≡ length ps)
      → (kb : Kb) → OwnEvents (run_plugin realloc_ok qsort invoke hdr kb)
  unfolding run_plugin OwnEvents
  run_plugin-own realloc_ok qsort kept kb = elim (Option-cases hdr.wildcard_index) [
    | inl e ↦ rw (e, run_plugin) (run_exact_key_plugin-own kb)
    | inr (i, e) ↦
        rw (e, run_plugin)
          (run_wildcard_plugin-own realloc_ok qsort kept (some i) (key_at hdr i) kb)
  ]

-- A scan of a host reports every plugin of the registry, in the registry's order and without mixing
-- two plugins' calls, whatever the plugins do to the knowledge base. `qsort` keeps lengths.
pub run_all_loop-Follows :
    (realloc_ok : ℕ → Bool) (qsort : List ℕ → List ℕ) (invoke : Invoke) (hs : List Header) (kb : Kb)
    → ((ps : List ℕ) → length (qsort ps) ≡ length ps)
    → Follows hs (run_all_loop realloc_ok qsort invoke hs kb).events
unfolding run_all_loop OwnEvents
run_all_loop-Follows realloc_ok qsort invoke [] kb kept = refl
run_all_loop-Follows realloc_ok qsort invoke (h ∷ hs) kb kept =
    let t = run_plugin realloc_ok qsort invoke h kb in
    let (some_event, own) = run_plugin-own invoke h realloc_ok qsort kept kb in
    (
      t.events,
      (run_all_loop realloc_ok qsort invoke hs t.kb).events,
      refl,
      some_event,
      own,
      run_all_loop-Follows realloc_ok qsort invoke hs t.kb kept,
    )
