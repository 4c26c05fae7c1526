-- ===== src/Plugin/Scheduler/Ports.antt =====
-- src/plugin/scheduler.c: the keys that give a port.
use cytadel_scan.Base.Text.{strip_prefix, strip_prefix_sound, strip_prefix-append}
use cytadel_scan.Base.{
  ℕ, ◌+◌, ◌-◌, ◌*◌, ◌≤◌, ◌<◌, false, not, ◌&&◌, Option, none, some, [], ◌∷◌, ◌++◌, ◌≡◌, ◌↔◌, refl,
  ◌∙◌, ap, arith, Bytes, codes, length, length-append, ltb, leb, ◌==◌, if◌then◌else◌, Bool-cases,
  Option-cases, inl, inr, All,
}
use cytadel_scan.Plugin.Register.{
  match_service_wildcard, wildcard, malformed, exact, check_svc, in_front_of_star, has_star,
  all_svc_bytes,
}
use cytadel_scan.Plugin.Scheduler.{
  port_loop, positive, port_suffix, behind_service, collect_port, wildcard_service, take_bytes,
  has_slash,
}
use cytadel_scan.Plugin.{services}
use cytadel_scan.PortRange.Numbers.{IsDecimal, decimal}

-- Decimal digits for a port, leading zeros allowed.
abbrev pub IsPort : Bytes → ℕ → Type 0
IsPort ds port =
    (0 < length ds) × All IsDecimal ds × (decimal 0 ds ≡ port) × (1 ≤ port) × (port ≤ 65535)

port_loop_sound :
    (s : Bytes) (n v : ℕ)
    → n ≤ 65535
    → port_loop n s ≡ some v
    → All IsDecimal s × (decimal n s ≡ v) × (v ≤ 65535)
unfolding port_loop
port_loop_sound [] n v small h = (tt, cc, ground arith)
port_loop_sound (c ∷ s) n v small h = ground (arith, port_loop_sound s (n * 10 + (c - b'0')) v)

decimal-le : (s : Bytes) (n : ℕ) → n ≤ decimal n s
decimal-le [] n = omega arith
decimal-le (c ∷ s) n = omega (arith, decimal-le s (n * 10 + (c - b'0')))

port_loop_complete :
    (s : Bytes) (n : ℕ) → All IsDecimal s → decimal n s ≤ 65535 → port_loop n s ≡ some (decimal n s)
unfolding port_loop
port_loop_complete [] n h small = refl
port_loop_complete (c ∷ s) n h small =
    ground
      (arith, decimal-le s (n * 10 + (c - b'0')), port_loop_complete s (n * 10 + (c - b'0')) h.1)

digits-has_slash : (s : Bytes) → All IsDecimal s → has_slash s ≡ false
digits-has_slash [] h = refl
digits-has_slash (c ∷ s) h = ground (arith, digits-has_slash s h.1)

port_suffix_iff : (s : Bytes) (port : ℕ) → (port_suffix s ≡ some port) ↔ IsPort s port
unfolding port_suffix
port_suffix_iff [] port = (λ h. absurd (cc), λ h. absurd (omega (arith, h.0)))
port_suffix_iff (c ∷ s) port = (
  λ h. elim (Bool-cases (has_slash (c ∷ s))) [
    | inl e ↦ let bad : none ≡ some port = rw e at h in absurd (cc)
    | inr e ↦
        let body : positive (port_loop 0 (c ∷ s)) ≡ some port = rw e at h in
        elim (Option-cases (port_loop 0 (c ∷ s))) [
          | inl f ↦ let bad : none ≡ some port = rw f at body in absurd (cc)
          | inr (v, f) ↦
              let (digits, value, small) = port_loop_sound (c ∷ s) 0 v (omega arith) f in
              let tested : (if ltb v 1 then none else some v) ≡ some port = rw f at body in
              let same : (v ≡ port) × (1 ≤ v) = ground arith in
              (omega arith, digits, value ∙ same.0, omega (arith, same), omega (arith, same, small))
        ]
  ],
  λ (long, digits, value, low, high).
      let loop = port_loop_complete (c ∷ s) 0 digits (omega (arith, value, high)) in
      rw (digits-has_slash (c ∷ s) digits) (rw (loop, value) (ground arith)),
)

-- A key of the form `Services/<svc>/<digits>`.
abbrev pub IsPortKey : Bytes → Bytes → ℕ → Type 0
IsPortKey svc key port = (ds : Bytes) × (key ≡ services ++ (svc ++ (b'/' ∷ ds))) × IsPort ds port

behind_service_sound :
    (r : Option Bytes) (port : ℕ)
    → behind_service r ≡ some port
    → (ds : Bytes) × (r ≡ some (b'/' ∷ ds)) × IsPort ds port
unfolding behind_service
behind_service_sound none port h = absurd (cc)
behind_service_sound (some []) port h = absurd (cc)
behind_service_sound (some (c ∷ s)) port h = elim (Bool-cases (c == b'/')) [
  | inr e ↦ let bad : none ≡ some port = rw e at h in absurd (cc)
  | inl e ↦
      let slash : c ≡ b'/' = ground arith in
      (s, ap (λ x. some (x ∷ s)) slash, (port_suffix_iff s port).0 (rw e at h))
]

pub collect_port_sound :
    (svc key : Bytes) (port : ℕ) → collect_port svc key ≡ some port → IsPortKey svc key port
unfolding collect_port
collect_port_sound svc key port h = elim (Bool-cases (leb (length key) (9 + length svc + 1))) [
  | inl e ↦ let bad : none ≡ some port = rw e at h in absurd (cc)
  | inr e ↦ elim (Option-cases (strip_prefix services key)) [
    | inl f ↦ let bad : none ≡ some port = rw (e, f, collect_port) at h in absurd (cc)
    | inr (rest, f) ↦
        let body : behind_service (strip_prefix svc rest) ≡ some port =
          rw (e, f, collect_port) at h in
        let (ds, g, good) = behind_service_sound (strip_prefix svc rest) port body in
        let tail : rest ≡ svc ++ (b'/' ∷ ds) = strip_prefix_sound svc rest (b'/' ∷ ds) g in
        (ds, strip_prefix_sound services key rest f ∙ ap (λ t. services ++ t) tail, good)
  ]
]

pub collect_port_complete :
    (svc key : Bytes) (port : ℕ) → IsPortKey svc key port → collect_port svc key ≡ some port
unfolding collect_port behind_service
collect_port_complete svc key port (ds, form, good) =
    let size : length key ≡ 9 + (length svc + (1 + length ds)) =
      ap length form ∙ omega (arith, length-append svc (b'/' ∷ ds)) in
    let long : leb (length key) (9 + length svc + 1) ≡ false = ground arith in
    let in_front : strip_prefix services key ≡ some (svc ++ (b'/' ∷ ds)) =
      rw form (strip_prefix-append services (svc ++ (b'/' ∷ ds))) in
    rw (long, in_front, strip_prefix-append svc (b'/' ∷ ds)) ((port_suffix_iff ds port).1 good)

in_front_of_star_sound : (s t : Bytes) → in_front_of_star s ≡ some t → s ≡ t ++ codes "/*"
unfolding in_front_of_star
in_front_of_star_sound [] t h = absurd (cc)
in_front_of_star_sound (c ∷ []) t h = absurd (cc)
in_front_of_star_sound (c ∷ d ∷ []) t h = elim (Bool-cases (c == b'/' && d == b'*')) [
  | inr e ↦ let bad : none ≡ some t = rw (e, in_front_of_star) at h in absurd (cc)
  | inl e ↦
      let same : some [] ≡ some t = rw (e, in_front_of_star) at h in
      let none_left : t ≡ [] = cc in
      let both : (c ≡ b'/') × (d ≡ b'*') = ground arith in rw (none_left, both.0, both.1) refl
]
in_front_of_star_sound (c ∷ d ∷ e ∷ s) t h = elim (Option-cases (in_front_of_star (d ∷ e ∷ s))) [
  | inl f ↦ let bad : none ≡ some t = rw (f, in_front_of_star) at h in absurd (cc)
  | inr (u, f) ↦
      let same : some (c ∷ u) ≡ some t = rw (f, in_front_of_star) at h in
      let eq : c ∷ u ≡ t = cc in rw (← eq) (ap (◌∷◌ c) (in_front_of_star_sound (d ∷ e ∷ s) u f))
]

take_bytes-append : (s r : Bytes) → take_bytes (length s) (s ++ r) ≡ s
take_bytes-append [] r = refl
take_bytes-append (c ∷ s) r = ap (◌∷◌ c) (take_bytes-append s r)

wildcard_service-star : (svc : Bytes) → wildcard_service (services ++ (svc ++ codes "/*")) ≡ svc
unfolding wildcard_service
wildcard_service-star svc =
    let size : length (services ++ (svc ++ codes "/*")) - 9 - 2 ≡ length svc =
      omega (arith, length-append svc (codes "/*")) in
    rw size (take_bytes-append svc (codes "/*"))

check_svc_sound : (r : Option Bytes) (svc : Bytes) → check_svc r ≡ wildcard svc → r ≡ some svc
unfolding check_svc
check_svc_sound none svc h = absurd (cc)
check_svc_sound (some t) svc h = elim (Bool-cases (not (all_svc_bytes t))) [
  | inl e ↦ let bad : malformed ≡ wildcard svc = rw e at h in absurd (cc)
  | inr e ↦ elim (Bool-cases (length t == 0)) [
    | inl f ↦ let bad : malformed ≡ wildcard svc = rw (e, f) at h in absurd (cc)
    | inr f ↦ let same : wildcard t ≡ wildcard svc = rw (e, f) at h in cc
  ]
]

-- The service of a key that registered as a wildcard is the one that registration found in it.
pub wildcard_service-pattern :
    (key svc : Bytes) → match_service_wildcard key ≡ wildcard svc → wildcard_service key ≡ svc
unfolding match_service_wildcard
wildcard_service-pattern key svc h = elim (Bool-cases (not (has_star key))) [
  | inl e ↦ let bad : exact ≡ wildcard svc = rw e at h in absurd (cc)
  | inr e ↦ elim (Bool-cases (leb (length key) 9)) [
    | inl f ↦ let bad : malformed ≡ wildcard svc = rw (e, f) at h in absurd (cc)
    | inr f ↦ elim (Option-cases (strip_prefix services key)) [
      | inl g ↦ let bad : malformed ≡ wildcard svc = rw (e, f, g) at h in absurd (cc)
      | inr (rest, g) ↦ elim (Bool-cases (ltb (length key) 12)) [
        | inl i ↦ let bad : malformed ≡ wildcard svc = rw (e, f, g, i) at h in absurd (cc)
        | inr i ↦
            let body : check_svc (in_front_of_star rest) ≡ wildcard svc = rw (e, f, g, i) at h in
            let star =
              in_front_of_star_sound rest svc (check_svc_sound (in_front_of_star rest) svc body) in
            rw (strip_prefix_sound services key rest g, star) (wildcard_service-star svc)
      ]
    ]
  ]
]
