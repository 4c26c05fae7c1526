-- ===== src/DepGraph/Degree.antt =====
-- src/plugin/depgraph.c: what `in_degree` counts.
use cytadel_scan.Base.{
  ℕ, ◌+◌, ◌-◌, ◌%◌, ◌^◌, ◌≤◌, ◌<◌, Bool, true, false, ◌||◌, List, [], ◌∷◌, ◌≡◌, refl, arith, ◌==◌,
  if◌then◌else◌, length, Bool-cases, inl, inr, All,
}
use cytadel_scan.DepGraph.{lower_degree}

abbrev pub member : ℕ → List ℕ → Bool
member x [] = false
member x (y ∷ ys) = x == y || member x ys

-- How many dependencies are not among the ids that are done.
abbrev pub left_over : List ℕ → List ℕ → ℕ
left_over done [] = 0
left_over done (d ∷ ds) = (if member d done then 0 else 1) + left_over done ds

abbrev pub times : ℕ → List ℕ → ℕ
times id [] = 0
times id (d ∷ ds) = (if d == id then 1 else 0) + times id ds

pub left_over-start : (ds : List ℕ) → left_over [] ds ≡ length ds
left_over-start [] = refl
left_over-start (d ∷ ds) = omega (arith, left_over-start ds)

pub left_over-done :
    (id : ℕ) (done ds : List ℕ)
    → member id done ≡ false
    → left_over (id ∷ done) ds + times id ds ≡ left_over done ds
left_over-done id done [] h = omega arith
left_over-done id done (d ∷ ds) h =
    let ih = left_over-done id done ds h in
    elim (Bool-cases (d == id)) [
      | inl e ↦
          let same : d ≡ id = ground arith in
          let out : member d done ≡ false = rw same h in rw (e, out) (omega (arith, ih))
      | inr e ↦ elim (Bool-cases (member d done)) [
        | inl m ↦ rw (e, m) (omega (arith, ih))
        | inr m ↦ rw (e, m) (omega (arith, ih))
      ]
    ]

pub lower_degree-times :
    (id : ℕ) (ds : List ℕ) (x : ℕ)
    → times id ds ≤ x
    → x < 18446744073709551616
    → lower_degree id ds x + times id ds ≡ x
unfolding lower_degree
lower_degree-times id [] x h small = omega arith
lower_degree-times id (d ∷ ds) x h small = elim (Bool-cases (d == id)) [
  | inl e ↦
      let room : 1 + times id ds ≤ x = rw e at h in
      let back : (x + 18446744073709551615) % 2 ^ 64 ≡ x - 1 = omega (arith, room) in
      rw (e, back)
        (omega (arith, room, lower_degree-times id ds (x - 1) (omega (arith, room)) (omega arith)))
  | inr e ↦
      let room : 0 + times id ds ≤ x = rw e at h in
      rw e (omega (arith, lower_degree-times id ds x (omega (arith, room)) small))
]

pub left_over-zero : (done ds : List ℕ) → left_over done ds ≡ 0 → All (λ d. member d done ≡ true) ds
left_over-zero done [] h = tt
left_over-zero done (d ∷ ds) h = elim (Bool-cases (member d done)) [
  | inl m ↦ (
    m,
    left_over-zero done ds (let k : 0 + left_over done ds ≡ 0 = rw m at h in omega (arith, k)),
  )
  | inr m ↦ let k : 1 + left_over done ds ≡ 0 = rw m at h in absurd (omega (arith, k))
]
