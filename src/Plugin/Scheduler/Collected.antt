-- ===== src/Plugin/Scheduler/Collected.antt =====
-- src/plugin/scheduler.c: the ports that the walk over the knowledge base collects.
use cytadel_scan.Base.{
  ℕ, ◌*◌, Bool, true, ◌||◌, none, some, List, [], ◌∷◌, ◌++◌, ◌≡◌, refl, sym, ◌∙◌, arith, Bytes,
  length, ◌==◌, if◌then◌else◌, Bool-cases, Option-cases, inl, inr, ◌⊎◌,
}
use cytadel_scan.DepGraph.Degree.{member}
use cytadel_scan.Kb.Table.{Entry, Value}
use cytadel_scan.Kb.Walk.{Visits}
use cytadel_scan.Plugin.Scheduler.Ports.{IsPortKey, collect_port_sound, collect_port_complete}
use cytadel_scan.Plugin.Scheduler.{Collect, add_port, collect_loop, collect_port}

-- A port of a key that the walk meets.
abbrev pub PortSeen : Bytes → ℕ → List Entry → Type 0
PortSeen svc p es = (key : Bytes) × (v : Value) × Visits key v es × IsPortKey svc key p

module _ (realloc_ok : ℕ → Bool) (always : (n : ℕ) → realloc_ok n ≡ true) (svc : Bytes)
    (p : ℕ) where
  add_port-ports :
      (port : ℕ) (c : Collect) → (add_port realloc_ok port c).ports ≡ c.ports ++ (port ∷ [])
  unfolding add_port
  add_port-ports port c = elim (Bool-cases (length c.ports == c.capacity)) [
    | inl e ↦ rw (e, always (if c.capacity == 0 then 8 else c.capacity * 2)) refl
    | inr e ↦ rw e refl
  ]

  member-snoc : (x : ℕ) (ps : List ℕ) → member p (ps ++ (x ∷ [])) ≡ (member p ps || p == x)
  member-snoc x [] = elim (Bool-cases (p == x)) [ inl e ↦ rw e refl | inr e ↦ rw e refl ]
  member-snoc x (y ∷ ps) = elim (Bool-cases (p == y)) [
    | inl e ↦ rw e refl
    | inr e ↦ rw e (member-snoc x ps)
  ]

  pub collect_loop_sound :
      (es : List Entry) (c : Collect)
      → member p (collect_loop realloc_ok svc c es).ports ≡ true
      → (member p c.ports ≡ true) ⊎ PortSeen svc p es
  unfolding collect_loop
  collect_loop_sound [] c h = inl h
  collect_loop_sound (e ∷ es) c h = elim (Option-cases (collect_port svc e.key)) [
    | inl f ↦ elim (collect_loop_sound es c (rw (f, collect_loop) at h)) [
      | inl m ↦ inl m
      | inr (key, v, seen, form) ↦ inr (key, v, inr seen, form)
    ]
    | inr (x, f) ↦
        elim (collect_loop_sound es (add_port realloc_ok x c) (rw (f, collect_loop) at h)) [
          | inr (key, v, seen, form) ↦ inr (key, v, inr seen, form)
          | inl m ↦
              let split : (member p c.ports || p == x) ≡ true =
                sym (member-snoc x c.ports) ∙ (rw (add_port-ports x c) at m) in
              elim (Bool-cases (member p c.ports)) [
                | inl old ↦ inl old
                | inr new ↦
                    let same : p ≡ x = ground arith in
                    inr
                      (e.key, e.value, inl (refl, refl), collect_port_sound svc e.key p (rw same f))
              ]
        ]
  ]

  pub collect_loop_complete :
      (es : List Entry) (c : Collect)
      → (member p c.ports ≡ true) ⊎ PortSeen svc p es
      → member p (collect_loop realloc_ok svc c es).ports ≡ true
  unfolding collect_loop
  collect_loop_complete [] c (inl m) = m
  collect_loop_complete [] c (inr (key, v, seen, form)) = absurd (cc)
  collect_loop_complete (e ∷ es) c h = elim (Option-cases (collect_port svc e.key)) [
    | inl f ↦ rw (f, collect_loop) (collect_loop_complete es c (passed_over f h))
    | inr (x, f) ↦
        rw (f, collect_loop) (collect_loop_complete es (add_port realloc_ok x c) (added x f h))
  ]
    where
      here : (key : Bytes) → e.key ≡ key → IsPortKey svc key p → collect_port svc e.key ≡ some p
      here key same form = rw same (collect_port_complete svc key p form)

      passed_over :
          collect_port svc e.key ≡ none
          → (member p c.ports ≡ true) ⊎ PortSeen svc p (e ∷ es)
          → (member p c.ports ≡ true) ⊎ PortSeen svc p es
      passed_over f (inl m) = inl m
      passed_over f (inr (key, v, inr seen, form)) = inr (key, v, seen, form)
      passed_over f (inr (key, v, inl (same, w), form)) =
          let bad : none ≡ some p = sym f ∙ here key same form in absurd (cc)

      added :
          (x : ℕ)
          → collect_port svc e.key ≡ some x
          → (member p c.ports ≡ true) ⊎ PortSeen svc p (e ∷ es)
          → (member p (add_port realloc_ok x c).ports ≡ true) ⊎ PortSeen svc p es
      added x f (inl m) = inl (rw (add_port-ports x c, member-snoc x c.ports, m) refl)
      added x f (inr (key, v, inr seen, form)) = inr (key, v, seen, form)
      added x f (inr (key, v, inl (same, w), form)) =
          let eq : some x ≡ some p = sym f ∙ here key same form in
          let port : x ≡ p = cc in
          inl (rw (add_port-ports x c, member-snoc x c.ports, port) (ground arith))
