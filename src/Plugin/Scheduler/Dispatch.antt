-- ===== src/Plugin/Scheduler/Dispatch.antt =====
-- src/plugin/scheduler.c: the ports for which a plugin with a service wildcard runs.
use cytadel_scan.Base.{
  ℕ, Bool, true, false, not, Option, none, some, List, [], ◌∷◌, ◌≡◌, ◌↔◌, refl, sym, ◌∙◌, ap, arith,
  Bytes, length, ◌==◌, Bool-cases, inl, inr, ◌⊎◌,
}
use cytadel_scan.DepGraph.Degree.{member}
use cytadel_scan.Kb.Table.{Kb}
use cytadel_scan.Kb.Walk.{foreach}
use cytadel_scan.Plugin.Register.{match_service_wildcard, wildcard, validate_required_keys}
use cytadel_scan.Plugin.Register.Wildcard.{IsOnly, validate_required_keys-IsOnly}
use cytadel_scan.Plugin.Scheduler.Ports.{wildcard_service-pattern}
use cytadel_scan.Plugin.Scheduler.{
  Event, Invoke, collect_loop, wildcard_service, ports_loop, run_exact_key_plugin,
  run_wildcard_plugin, run_plugin, key_at, extra_gates_satisfied,
}
use cytadel_scan.Plugin.{Header}
use cytadel_scan.Plugin.Scheduler.Collected.{PortSeen, collect_loop_sound, collect_loop_complete}

abbrev pub Reports : ℕ → List Event → Type 0
Reports p [] = true ≡ false
Reports p (e ∷ es) = (e.bound_port ≡ some p) ⊎ Reports p es

empty_member : (p : ℕ) (ps : List ℕ) → (length ps == 0) ≡ true → member p ps ≡ true → true ≡ false
empty_member p [] e m = sym m
empty_member p (x ∷ ps) e m = absurd (ground arith)

ports_loop-Reports :
    (invoke : Invoke) (hdr : Header) (w : Option ℕ) (p : ℕ) (kb : Kb) (ps : List ℕ)
    → Reports p (ports_loop invoke hdr w kb ps).events ↔ (member p ps ≡ true)
unfolding ports_loop
ports_loop-Reports invoke hdr w p kb [] = (λ h. sym h, λ h. sym h)
ports_loop-Reports invoke hdr w p kb (x ∷ ps) =
    elim (Bool-cases (not (extra_gates_satisfied hdr kb w))) [
      | inl e ↦ rw e (one (ports_loop-Reports invoke hdr w p kb ps))
      | inr e ↦ rw e (one (ports_loop-Reports invoke hdr w p (invoke hdr (some x) kb).kb_after ps))
    ]
  where
    one :
        {R : Type 0}
        → R ↔ (member p ps ≡ true)
        → (((some x ≡ some p) ⊎ R) ↔ (member p (x ∷ ps) ≡ true))
    one iff = (
      λ h. elim h [
        | inl e ↦ let port : x ≡ p = cc in rw port (ground arith)
        | inr r ↦
            rw (iff.0 r) (elim (Bool-cases (p == x)) [ inl f ↦ rw f refl | inr f ↦ rw f refl ])
      ],
      λ m. elim (Bool-cases (p == x)) [
        | inl f ↦ let port : x ≡ p = ground arith in inl (ap (λ n. some n) port)
        | inr f ↦ inr (iff.1 (rw f at m))
      ],
    )

-- What the walk collects, for a service as it stands between the slashes.
module _ (realloc_ok : ℕ → Bool) (always : (n : ℕ) → realloc_ok n ≡ true) (qsort : List ℕ → List ℕ)
    (p : ℕ) (kept : (ps : List ℕ) → member p (qsort ps) ≡ member p ps) where
  run_wildcard_plugin-seen :
      (invoke : Invoke) (hdr : Header) (w : Option ℕ) (key : Bytes) (kb : Kb)
      → Reports p (run_wildcard_plugin realloc_ok qsort invoke hdr w key kb).events
        ↔ PortSeen (wildcard_service key) p (foreach (some kb) true)
  unfolding run_wildcard_plugin
  run_wildcard_plugin-seen invoke hdr w key kb =
      let svc = wildcard_service key in
      let es = foreach (some kb) true in
      let c = collect_loop realloc_ok svc (record { ports = []; capacity = 0 }) es in
      let complete =
        collect_loop_complete realloc_ok always svc p es (record { ports = []; capacity = 0 }) in
      let sound =
        collect_loop_sound realloc_ok always svc p es (record { ports = []; capacity = 0 }) in
      let seen : member p c.ports ≡ true → PortSeen svc p es = λ m. start (sound m) in
      elim (Bool-cases (length c.ports == 0)) [
        | inl e ↦ rw e (
          λ h. elim h [ inl bad ↦ absurd (cc) | inr bad ↦ absurd (cc) ],
          λ s. let bad = empty_member p c.ports e (complete (inr s)) in absurd (cc),
        )
        | inr e ↦
            let loop = ports_loop-Reports invoke hdr w p kb (qsort c.ports) in
            rw e (
              λ h. seen (sym (kept c.ports) ∙ loop.0 h),
              λ s. loop.1 (kept c.ports ∙ complete (inr s)),
            )
      ]
    where
      start : {R : Type 0} → (false ≡ true) ⊎ R → R
      start (inl bad) = absurd (cc)
      start (inr r) = r

run_wildcard_plugin-port_iff :
    (realloc_ok : ℕ → Bool) (qsort : List ℕ → List ℕ) (invoke : Invoke) (hdr : Header)
    (w : Option ℕ) (key svc : Bytes) (kb : Kb) (p : ℕ)
    → ((n : ℕ) → realloc_ok n ≡ true)
    → ((ps : List ℕ) → member p (qsort ps) ≡ member p ps)
    → match_service_wildcard key ≡ wildcard svc
    → Reports p (run_wildcard_plugin realloc_ok qsort invoke hdr w key kb).events
      ↔ PortSeen svc p (foreach (some kb) true)
run_wildcard_plugin-port_iff realloc_ok qsort invoke hdr w key svc kb p always kept pattern =
    let iff = run_wildcard_plugin-seen realloc_ok always qsort p kept invoke hdr w key kb in
    rw (wildcard_service-pattern key svc pattern) at iff

run_plugin-wildcard :
    (realloc_ok : ℕ → Bool) (qsort : List ℕ → List ℕ) (invoke : Invoke) (hdr : Header) (i : ℕ)
    (kb : Kb)
    → hdr.wildcard_index ≡ some i
    → run_plugin realloc_ok qsort invoke hdr kb
      ≡ run_wildcard_plugin realloc_ok qsort invoke hdr (some i) (key_at hdr i) kb
unfolding run_plugin
run_plugin-wildcard realloc_ok qsort invoke hdr i kb at_i =
    ap
      (λ index. elim index [
        | none ↦ run_exact_key_plugin invoke hdr kb
        | some j ↦ run_wildcard_plugin realloc_ok qsort invoke hdr (some j) (key_at hdr j) kb
      ])
      at_i

-- When every allocation succeeds and `qsort` keeps the members, a plugin whose keys registration
-- accepted with a wildcard is reported for a port exactly if a key `Services/<svc>/<port>` is set,
-- with the service that registration found in the wildcard and the port in decimal digits between 1
-- and 65535.
pub run_plugin-port_iff :
    (realloc_ok : ℕ → Bool) (qsort : List ℕ → List ℕ) (invoke : Invoke) (hdr : Header) (i : ℕ)
    (kb : Kb)
    → ((n : ℕ) → realloc_ok n ≡ true)
    → ((p : ℕ) (ps : List ℕ) → member p (qsort ps) ≡ member p ps)
    → hdr.wildcard_index ≡ some i
    → validate_required_keys hdr.required_keys ≡ some (some i)
    → (key : Bytes) × (svc : Bytes) × IsOnly hdr.required_keys i key svc
      × ((p : ℕ)
          → Reports p (run_plugin realloc_ok qsort invoke hdr kb).events
            ↔ PortSeen svc p (foreach (some kb) true))
run_plugin-port_iff realloc_ok qsort invoke hdr i kb always kept at_i accepted =
    let (key, svc, only) = validate_required_keys-IsOnly hdr.required_keys i accepted in
    (
      key,
      svc,
      only,
      λ p.
          let iff =
            run_wildcard_plugin-port_iff realloc_ok qsort invoke hdr (some i) (key_at hdr i) svc kb
              p always (kept p) (rw (only.0, key_at) only.1) in
          rw (run_plugin-wildcard realloc_ok qsort invoke hdr i kb at_i) iff,
    )
