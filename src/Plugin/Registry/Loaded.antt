-- ===== src/Plugin/Registry/Loaded.antt =====
-- src/plugin/registry.c: which plugins a loaded registry holds, and in which order.
use mathlib.Core.List.{
  Mem, Mem-prop, Perm, Permᴰ, Perm-prop, exists_perm_cons_of_mem, eq-or-mem_of_mem-cons,
}
use mathlib.Core.List.Perm
use mathlib.Core.Logic.Or
use mathlib.Core.Logic.{∥∥₁_elim}
use cytadel_scan.Base.{
  ℕ, false, not, ◌&&◌, Option, none, some, List, [], ◌∷◌, ◌≡◌, ◌≢◌, refl, ◌∙◌, ap, arith, Bytes,
  length, ◌==◌, Bool-cases, Option-cases, inl, inr, All,
}
use cytadel_scan.DepGraph.Degree.{member}
use cytadel_scan.Plugin.Registry.Firsts.{candidates, firsts, register_loop-firsts}
use cytadel_scan.Plugin.Registry.Order.{
  InOrder, HasShortDeps, Arranged, register_loop-Registered, order_plugins-InOrder,
}
use cytadel_scan.Plugin.Registry.{has_id, lua_names, register_loop, Env, registry_load}
use cytadel_scan.Plugin.{Header}

InOrder-fresh :
    (hs : List Header) (done : List ℕ)
    → InOrder done hs
    → All (λ h. member h.script_id done ≡ false) hs
InOrder-fresh [] done o = tt
InOrder-fresh (h ∷ hs) done (deps, new, rest) =
    (new, weaken hs (InOrder-fresh hs (h.script_id ∷ done) rest))
  where
    weaken :
        (xs : List Header)
        → All (λ x. member x.script_id (h.script_id ∷ done) ≡ false) xs
        → All (λ x. member x.script_id done ≡ false) xs
    weaken [] a = tt
    weaken (x ∷ xs) a = (ground (arith, a.0), weaken xs a.1)

length-Permᴰ : {xs ys : List Header} → Permᴰ xs ys → length xs ≡ length ys
length-Permᴰ Permᴰ.nil = refl
length-Permᴰ (Permᴰ.cons e p) = omega (arith, length-Permᴰ p)
length-Permᴰ (Permᴰ.swap e f) = refl
length-Permᴰ (Permᴰ.trans p q) = length-Permᴰ p ∙ length-Permᴰ q

-- What is not the first of a list stands behind it.
behind_first :
    (h : Header) (xs regs : List Header)
    → All (λ x. x ≢ h) xs
    → All (λ x. Mem x (h ∷ regs)) xs
    → All (λ x. Mem x regs) xs
behind_first h [] regs others from = tt
behind_first h (x ∷ xs) regs others from = (
  Or.elim Mem-prop (eq-or-mem_of_mem-cons from.0) (λ e. absurd (others.0 e)) (λ m. m),
  behind_first h xs regs others.1 from.1,
)

others-InOrder :
    (h : Header) (done : List ℕ) (xs : List Header)
    → All (λ x. member x.script_id (h.script_id ∷ done) ≡ false) xs
    → All (λ x. x ≢ h) xs
others-InOrder h done [] fresh = tt
others-InOrder h done (x ∷ xs) fresh = (
  λ e.
      let same : x.script_id ≡ h.script_id = ap (λ (y : Header). y.script_id) e in
      absurd (ground (arith, fresh.0)),
  others-InOrder h done xs fresh.1,
)

All-Mem-perm :
    (xs regs more : List Header)
    → Perm regs more
    → All (λ x. Mem x regs) xs
    → All (λ x. Mem x more) xs
All-Mem-perm [] regs more p a = tt
All-Mem-perm (x ∷ xs) regs more p a = ((Perm.mem_iff p).0 a.0, All-Mem-perm xs regs more p a.1)

-- Distinct members of a list, as many as it has, are a permutation of it.
InOrder-Perm :
    (hs : List Header) (done : List ℕ) (regs : List Header)
    → InOrder done hs
    → length hs ≡ length regs
    → All (λ h. Mem h regs) hs
    → Perm hs regs
InOrder-Perm [] done [] o size from = Perm.nil
InOrder-Perm [] done (r ∷ regs) o size from = absurd (omega (arith, size))
InOrder-Perm (h ∷ hs) done regs (deps, new, rest) size from =
    ∥∥₁_elim (exists_perm_cons_of_mem from.0) Perm-prop (λ (others, p).
      let q : Perm regs (h ∷ others) = ∣ p ∣₁ in
      let fresh = InOrder-fresh hs (h.script_id ∷ done) rest in
      let inside =
        behind_first h hs others (others-InOrder h done hs fresh)
          (All-Mem-perm hs regs (h ∷ others) q from.1) in
      Perm.trans
        (Perm.cons h (
          InOrder-Perm hs (h.script_id ∷ done) others rest (omega (arith, size, length-Permᴰ p))
            inside))
        (Perm.symm q))

sees_nothing : (id : ℕ) → has_id [] id ≡ member id []
unfolding has_id
sees_nothing id = refl

Arranged-Perm : (hs ordered : List Header) → Arranged hs ordered → Perm ordered hs
Arranged-Perm hs ordered (placed, size, from) = InOrder-Perm ordered [] hs placed size from

-- A loaded registry holds, of the plugins that the Lua files of the directory register, the first of
-- each id and no other, where the files are those of `lua_names`, taken in the order that `qsort`
-- gives their names, and a path of 4096 bytes or more is passed over. Every plugin stands behind all
-- plugins that it depends on. This holds whatever the files register with dependency lists whose
-- length fits 64 bits.
pub registry_load-InOrder :
    (env : Env) (register_one_file : Bytes → Option Header) (plugins_dir : Bytes) (hs : List Header)
    → ((path : Bytes) (h : Header) → register_one_file path ≡ some h → HasShortDeps h)
    → registry_load env register_one_file (some plugins_dir) ≡ some hs
    → (entries : List Bytes) × (env.listing ≡ some entries)
      × InOrder [] hs
      × Perm hs
          (firsts [] (candidates register_one_file plugins_dir (env.qsort (lua_names entries))))
unfolding registry_load
registry_load-InOrder env register_one_file plugins_dir hs short h =
    elim (Option-cases env.listing) [
      | inl e ↦ let bad : none ≡ some hs = rw (e, registry_load) at h in absurd (cc)
      | inr (entries, e) ↦
          let names = env.qsort (lua_names entries) in
          elim (Bool-cases
            (not (length (env.qsort (lua_names entries)) == 0) && not env.headers_ok)) [
              | inl f ↦ let bad : none ≡ some hs = rw (e, f, registry_load) at h in absurd (cc)
              | inr f ↦
                  let all =
                    register_loop-Registered register_one_file short plugins_dir names []
                      (record { distinct = tt; short = tt }) in
                  let good =
                    order_plugins-InOrder env (register_loop register_one_file plugins_dir [] names)
                      hs all (rw (e, f, registry_load) at h) in
                  let held = Arranged-Perm _ hs good in
                  let same =
                    register_loop-firsts register_one_file plugins_dir names [] [] sees_nothing in
                  (entries, e, good.0, rw same at held)
            ]
    ]
