-- ===== src/Plugin/Register.antt =====
-- src/plugin/register.c: the grammar of `required_keys`.
pub mod Wildcard
use cytadel_scan.Base.Text.{strip_prefix}
use cytadel_scan.Base.{
  ℕ, suc, ◌+◌, Bool, true, false, not, ◌&&◌, ◌||◌, Option, none, some, List, [], ◌∷◌, Bytes, codes,
  length, ltb, leb, ◌==◌, if◌then◌else◌,
}
use cytadel_scan.Plugin.{services}

pub data Pattern : Type 0 where
  exact malformed : Pattern
  wildcard : Bytes → Pattern

abbrev pub has_star : Bytes → Bool
has_star [] = false
has_star (c ∷ s) = c == b'*' || has_star s

-- What stands in front of a slash and a star at the end.
unfoldable pub in_front_of_star : Bytes → Option Bytes
in_front_of_star [] = none
in_front_of_star (c ∷ []) = none
in_front_of_star (c ∷ d ∷ []) = if c == b'/' && d == b'*' then some [] else none
in_front_of_star (c ∷ d ∷ e ∷ s) = elim (in_front_of_star (d ∷ e ∷ s)) [
  | none ↦ none
  | some t ↦ some (c ∷ t)
]

unfoldable pub is_svc_byte : ℕ → Bool
is_svc_byte c =
    (leb b'A' c && leb c b'Z')
    || (leb b'a' c && leb c b'z')
    || (leb b'0' c && leb c b'9')
    || c == b'_'
    || c == b'.'
    || c == b'-'

abbrev pub all_svc_bytes : Bytes → Bool
all_svc_bytes [] = true
all_svc_bytes (c ∷ s) = if not (is_svc_byte c) then false else all_svc_bytes s

unfoldable pub check_svc : Option Bytes → Pattern
check_svc none = malformed
check_svc (some svc) =
    if not (all_svc_bytes svc)
    then malformed
    else if length svc == 0
    then malformed
    else wildcard svc

unfoldable pub match_service_wildcard : Bytes → Pattern
match_service_wildcard key =
    if not (has_star key)
    then exact
    else if leb (length key) 9
    then malformed
    else elim (strip_prefix services key) [
      | none ↦ malformed
      | some rest ↦ if ltb (length key) 12 then malformed else check_svc (in_front_of_star rest)
    ]

-- The loop over the keys with the index and the wildcard so far; `none` is the raised error.
unfoldable pub validate_keys_loop : ℕ → Option ℕ → List Bytes → Option (Option ℕ)
validate_keys_loop i found [] = some found
validate_keys_loop i found (key ∷ keys) =
    if length key == 0 then none else elim (match_service_wildcard key) [
      | malformed ↦ none
      | exact ↦ validate_keys_loop (i + 1) found keys
      | wildcard svc ↦ elim found [
        | some w ↦ none
        | none ↦ validate_keys_loop (i + 1) (some i) keys
      ]
    ]

unfoldable pub validate_required_keys : List Bytes → Option (Option ℕ)
validate_required_keys keys = validate_keys_loop 0 none keys
