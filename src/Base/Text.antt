-- ===== src/Base/Text.antt =====
-- Prefixes of byte strings.
use cytadel_scan.Base.Lists.{Bytes}
use cytadel_scan.Base.Tests.{◌==◌, ==_refl, ==_iff, if◌then◌else◌, Bool-cases}
use mathlib.Core.List.{[], ◌∷◌, ◌++◌}
use mathlib.Core.Logic.{inl, inr}
use mathlib.Core.Option.{Option, none, some}
use mathlib.Core.Path.{◌≡◌, refl, ap}

-- What stands behind a prefix: `strncmp` with the prefix's length, and the pointer behind it.
unfoldable pub strip_prefix : Bytes → Bytes → Option Bytes
strip_prefix [] s = some s
strip_prefix (p ∷ ps) [] = none
strip_prefix (p ∷ ps) (c ∷ s) = if c == p then strip_prefix ps s else none

pub strip_prefix_sound : (ps s r : Bytes) → strip_prefix ps s ≡ some r → s ≡ ps ++ r
unfolding strip_prefix
strip_prefix_sound [] s r h = cc
strip_prefix_sound (p ∷ ps) [] r h = absurd (cc)
strip_prefix_sound (p ∷ ps) (c ∷ s) r h = elim (Bool-cases (c == p)) [
  | inr e ↦ let bad : none ≡ some r = rw e at h in absurd (cc)
  | inl e ↦
      let same : c ≡ p = (==_iff c p).0 e in
      rw same (ap (◌∷◌ p) (strip_prefix_sound ps s r (rw (e, strip_prefix) at h)))
]

pub strip_prefix-append : (ps r : Bytes) → strip_prefix ps (ps ++ r) ≡ some r
unfolding strip_prefix
strip_prefix-append [] r = refl
strip_prefix-append (p ∷ ps) r = rw (==_refl p) (strip_prefix-append ps r)
