-- ===== src/Plugin/Registry/Order.antt =====
-- src/plugin/registry.c: the loaded registry.
use mathlib.Core.List.{Mem, Memᴰ, mem-cons_of_mem}
use cytadel_scan.Base.Slots.{get_elem?}
use cytadel_scan.Base.{
  ℕ, zero, suc, ◌+◌, ◌<◌, Bool, true, false, not, ◌&&◌, Option, none, some, List, [], ◌∷◌, ◌++◌,
  map, ◌≡◌, refl, sym, ◌∙◌, ap, arith, Bytes, length, codes, leb, ◌==◌, Bool-cases, Option-cases,
  inl, inr, All, ◌⊎◌,
}
use cytadel_scan.DepGraph.Degree.{member}
use cytadel_scan.DepGraph.Order.{node_at, Distinct, Ordered}
use cytadel_scan.DepGraph.Sound.{toposort-Ordered}
use cytadel_scan.DepGraph.{Node, Toposort, ok, missing_dependency, cycle, toposort}
use cytadel_scan.Plugin.Registry.{
  has_id, keep, register_loop, node_of, reorder, in_order, Env, order_plugins,
}
use cytadel_scan.Plugin.{Header}

-- Each plugin has an id that is new, and depends only on ids that are done.
abbrev pub InOrder : List ℕ → List Header → Type 0
InOrder done [] = Unit
InOrder done (h ∷ hs) =
    All (λ d. member d done ≡ true) h.dependencies
    × (member h.script_id done ≡ false)
    × InOrder (h.script_id ∷ done) hs

-- The length of a dependency list is a `size_t`.
abbrev pub HasShortDeps : Header → Type 0
HasShortDeps h = length h.dependencies < 18446744073709551616

pub record Registered (hs : List Header) : Type 0 where
  pub distinct : Distinct (map node_of hs)
  pub short : All (λ (n : Node). length n.deps < 18446744073709551616) (map node_of hs)

module _ (P : Node → Type 0) (c : Header) (last : P (node_of c)) where
  All-snoc : (hs : List Header) → All P (map node_of hs) → All P (map node_of (hs ++ (c ∷ [])))
  All-snoc [] h = (last, tt)
  All-snoc (x ∷ hs) h = (h.0, All-snoc hs h.1)

snoc-Distinct :
    (hs : List Header) (c : Header)
    → has_id hs c.script_id ≡ false
    → Distinct (map node_of hs)
    → Distinct (map node_of (hs ++ (c ∷ [])))
unfolding has_id
snoc-Distinct [] c h d = (tt, tt)
snoc-Distinct (x ∷ hs) c h d = elim (Bool-cases (x.script_id == c.script_id)) [
  | inl e ↦ let bad : true ≡ false = rw e at h in absurd (cc)
  | inr e ↦
      let other : (c.script_id == x.script_id) ≡ false = ground arith in
      (
        All-snoc (λ (m : Node). (m.script_id == x.script_id) ≡ false) c other hs d.0,
        snoc-Distinct hs c (rw (e, has_id) at h) d.1,
      )
]

keep-Registered :
    (hs : List Header) (c : Header) → HasShortDeps c → Registered hs → Registered (keep hs c)
keep-Registered hs c few r = elim (Bool-cases (has_id hs c.script_id)) [
  | inl e ↦ rw e r
  | inr e ↦ rw e (record {
    distinct = snoc-Distinct hs c e r.distinct;
    short = All-snoc (λ (n : Node). length n.deps < 18446744073709551616) c few hs r.short;
  })
]

module _ (register_one_file : Bytes → Option Header)
    (short : (path : Bytes) (h : Header) → register_one_file path ≡ some h → HasShortDeps h)
    (plugins_dir : Bytes) where
  pub register_loop-Registered :
      (names : List Bytes) (hs : List Header)
      → Registered hs
      → Registered (register_loop register_one_file plugins_dir hs names)
  unfolding register_loop
  register_loop-Registered [] hs r = r
  register_loop-Registered (name ∷ names) hs r =
      elim (Bool-cases (leb 4096 (length plugins_dir + 1 + length name))) [
        | inl long ↦ rw long (register_loop-Registered names hs r)
        | inr fits ↦ elim (Option-cases (register_one_file (plugins_dir ++ codes "/" ++ name))) [
          | inl e ↦ rw (fits, e, register_loop) (register_loop-Registered names hs r)
          | inr (c, e) ↦
              rw (fits, e, register_loop)
                (register_loop-Registered names (keep hs c)
                  (keep-Registered hs c (short (plugins_dir ++ codes "/" ++ name) c e) r))
        ]
      ]

get_elem?-Mem : (hs : List Header) (i : ℕ) (h : Header) → get_elem? hs i ≡ some h → Mem h hs
unfolding get_elem?
get_elem?-Mem [] i h e = absurd (cc)
get_elem?-Mem (x ∷ hs) zero h e = let same : h ≡ x = cc in ∣ Memᴰ.head same ∣₁
get_elem?-Mem (x ∷ hs) (suc i) h e = mem-cons_of_mem x (get_elem?-Mem hs i h e)

node_at-header :
    (hs : List Header) (i : ℕ) (n : Node)
    → node_at (map node_of hs) i ≡ some n
    → (h : Header) × (get_elem? hs i ≡ some h) × (node_of h ≡ n)
unfolding get_elem?
node_at-header [] i n e = absurd (cc)
node_at-header (h ∷ hs) zero n e = (h, refl, cc)
node_at-header (h ∷ hs) (suc i) n e = node_at-header hs i n e

reorder-InOrder :
    (hs : List Header) (done order : List ℕ)
    → Ordered (map node_of hs) done order
    → InOrder done (reorder hs order)
      × (length (reorder hs order) ≡ length order)
      × All (λ h. Mem h hs) (reorder hs order)
unfolding reorder
reorder-InOrder hs done [] o = (tt, refl, tt)
reorder-InOrder hs done (i ∷ order) (n, at_i, deps, new, rest) =
    let (h, here, same) = node_at-header hs i n at_i in
    let (ih, size, from) = reorder-InOrder hs (n.script_id ∷ done) order rest in
    let id : n.script_id ≡ h.script_id = ap (λ (m : Node). m.script_id) (sym same) in
    let ds : n.deps ≡ h.dependencies = ap (λ (m : Node). m.deps) (sym same) in
    rw (here, reorder)
      (
        (rw ds at deps, rw id at new, rw id at ih),
        omega (arith, size),
        (get_elem?-Mem hs i h here, from),
      )

length-map-node_of : (hs : List Header) → length (map node_of hs) ≡ length hs
length-map-node_of [] = refl
length-map-node_of (h ∷ hs) = omega (arith, length-map-node_of hs)

-- The same number of headers, each of them from the list, in the order of the dependencies.
abbrev pub Arranged : List Header → List Header → Type 0
Arranged hs ordered =
    InOrder [] ordered × (length ordered ≡ length hs) × All (λ h. Mem h hs) ordered

in_order-InOrder :
    (alloc_ok : Bool) (hs ordered : List Header)
    → Registered hs
    → in_order hs (toposort alloc_ok (map node_of hs)) ≡ some ordered
    → Arranged hs ordered
in_order-InOrder alloc_ok hs ordered r h =
    elim (Toposort-cases (toposort alloc_ok (map node_of hs))) [
      | inr none_left ↦ let bad : none ≡ some ordered = sym (none_left hs) ∙ h in absurd (cc)
      | inl (order, e) ↦
          let same : some (reorder hs order) ≡ some ordered = rw e at h in
          let eq : reorder hs order ≡ ordered = cc in
          let (good, size) =
            toposort-Ordered alloc_ok (map node_of hs) order r.distinct r.short e in
          let (placed, kept, from) = reorder-InOrder hs [] order good in
          rw (← eq) (placed, omega (arith, kept, size, length-map-node_of hs), from)
    ]
  where
    Toposort-cases :
        (t : Toposort)
        → ((order : List ℕ) × (t ≡ ok order)) ⊎ ((hs : List Header) → in_order hs t ≡ none)
    Toposort-cases (ok order) = inl (order, refl)
    Toposort-cases (missing_dependency i d) = inr (λ hs. refl)
    Toposort-cases (cycle flags) = inr (λ hs. refl)

pub order_plugins-InOrder :
    (env : Env) (hs ordered : List Header)
    → Registered hs
    → order_plugins env hs ≡ some ordered
    → Arranged hs ordered
unfolding order_plugins
order_plugins-InOrder env hs ordered r h =
    elim (Bool-cases (not (length hs == 0) && not env.graph_ok)) [
      | inl e ↦ let bad : none ≡ some ordered = rw e at h in absurd (cc)
      | inr e ↦ elim (Bool-cases (not (length hs == 0) && not env.ordered_ok)) [
        | inl f ↦ let bad : none ≡ some ordered = rw (e, f) at h in absurd (cc)
        | inr f ↦ elim (Bool-cases env.registry_ok) [
          | inr g ↦ let bad : none ≡ some ordered = rw (e, f, g) at h in absurd (cc)
          | inl g ↦ in_order-InOrder env.sort_ok hs ordered r (rw (e, f, g) at h)
        ]
      ]
    ]
