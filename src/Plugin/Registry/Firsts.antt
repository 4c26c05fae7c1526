-- ===== src/Plugin/Registry/Firsts.antt =====
-- src/plugin/registry.c: the loop over the files of the directory.
use cytadel_scan.Base.{
  ℕ, ◌+◌, true, false, ◌||◌, Option, none, some, List, [], ◌∷◌, ◌++◌, ◌≡◌, refl, ◌∙◌, ap, arith,
  Bytes, length, codes, leb, ◌==◌, if◌then◌else◌, Bool-cases, Option-cases, inl, inr,
}
use cytadel_scan.DepGraph.Degree.{member}
use cytadel_scan.Plugin.Registry.{has_id, register_loop}
use cytadel_scan.Plugin.{Header}

-- What the files register, with no regard to their ids. A path of 4096 bytes or more is not opened.
abbrev pub candidates : (Bytes → Option Header) → Bytes → List Bytes → List Header
candidates register_one_file plugins_dir [] = []
candidates register_one_file plugins_dir (name ∷ names) =
    let rest = candidates register_one_file plugins_dir names in
    if leb 4096 (length (plugins_dir ++ codes "/" ++ name))
    then rest
    else elim (register_one_file (plugins_dir ++ codes "/" ++ name)) [
      | none ↦ rest
      | some c ↦ c ∷ rest
    ]

-- The first header of each id that is not among those seen.
abbrev pub firsts : List ℕ → List Header → List Header
firsts seen [] = []
firsts seen (h ∷ hs) =
    if member h.script_id seen then firsts seen hs else h ∷ firsts (h.script_id ∷ seen) hs

abbrev Sees : List Header → List ℕ → Type 0
Sees hs seen = (id : ℕ) → has_id hs id ≡ member id seen

has_id-snoc :
    (hs : List Header) (c : Header) (id : ℕ)
    → has_id (hs ++ (c ∷ [])) id ≡ (c.script_id == id) || has_id hs id
unfolding has_id
has_id-snoc [] c id = ground arith
has_id-snoc (h ∷ hs) c id = ground (arith, has_id-snoc hs c id)

snoc-Sees :
    (hs : List Header) (seen : List ℕ) (c : Header)
    → Sees hs seen
    → Sees (hs ++ (c ∷ [])) (c.script_id ∷ seen)
snoc-Sees hs seen c h id = ground (arith, has_id-snoc hs c id, h id)

append-snoc :
    (hs : List Header) (c : Header) (r : List Header) → (hs ++ (c ∷ [])) ++ r ≡ hs ++ (c ∷ r)
append-snoc [] c r = refl
append-snoc (h ∷ hs) c r = ap (λ (t : List Header). h ∷ t) (append-snoc hs c r)

append-nil : (hs : List Header) → hs ≡ hs ++ []
append-nil [] = refl
append-nil (h ∷ hs) = ap (λ (t : List Header). h ∷ t) (append-nil hs)

length-append : (a b : Bytes) → length (a ++ b) ≡ length a + length b
length-append [] b = omega arith
length-append (c ∷ a) b = omega (arith, length-append a b)

length-path : (d name : Bytes) → length (d ++ codes "/" ++ name) ≡ length d + 1 + length name
length-path d name = omega (arith, length-append (d ++ codes "/") name, length-append d (codes "/"))

module _ (register_one_file : Bytes → Option Header) (plugins_dir : Bytes) where
  pub register_loop-firsts :
      (names : List Bytes) (hs : List Header) (seen : List ℕ)
      → Sees hs seen
      → register_loop register_one_file plugins_dir hs names
        ≡ hs ++ firsts seen (candidates register_one_file plugins_dir names)
  unfolding register_loop
  register_loop-firsts [] hs seen h = append-nil hs
  register_loop-firsts (name ∷ names) hs seen h =
      let size = length-path plugins_dir name in
      elim (Bool-cases (leb 4096 (length plugins_dir + 1 + length name))) [
        | inl long ↦ rw (size, long, register_loop) (register_loop-firsts names hs seen h)
        | inr fits ↦ elim (Option-cases (register_one_file (plugins_dir ++ codes "/" ++ name))) [
          | inl e ↦ rw (size, fits, e, register_loop) (register_loop-firsts names hs seen h)
          | inr (c, e) ↦ elim (Bool-cases (member c.script_id seen)) [
            | inl m ↦
                let taken : has_id hs c.script_id ≡ true = h c.script_id ∙ m in
                rw (size, fits, e, m, taken, register_loop) (register_loop-firsts names hs seen h)
            | inr m ↦
                let free : has_id hs c.script_id ≡ false = h c.script_id ∙ m in
                rw (size, fits, e, m, free, register_loop)
                  (register_loop-firsts names (hs ++ (c ∷ [])) (c.script_id ∷ seen)
                      (snoc-Sees hs seen c h)
                    ∙ append-snoc hs c _)
          ]
        ]
      ]
