-- ===== src/Kb/Walk.antt =====
-- src/kb/kb.c: `cytadel_kb_get_str`, `cytadel_kb_foreach` and `cytadel_kb_count`.
use cytadel_scan.Base.{
  ℕ, ◌+◌, ◌≤◌, ◌<◌, Bool, true, false, not, Option, none, some, List, [], ◌∷◌, ◌≡◌, ◌↔◌, ◌⊎◌, inl,
  inr, refl, sym, ap, ◌∙◌, arith, Bytes, length, if◌then◌else◌, Bool-cases, Option-cases,
}
use cytadel_scan.Kb.Api.{get-set_str_n}
use cytadel_scan.Kb.Chain.{entries, count_key, same_key→eq, same_key_refl}
use cytadel_scan.Kb.Grow.{IsTable, find-entries}
use cytadel_scan.Kb.Key.{validate_key}
use cytadel_scan.Kb.Table.{
  Value, zeroed, str, i64, bool, Entry, Kb, Alloc, same_key, chain_find, find, GetStatus, found,
  not_found, invalid_key, get, set_str_n,
}

-- The string, where a string was found.
abbrev str_of : GetStatus → Option Bytes
str_of (found (str s)) = some s
str_of (found zeroed) = none
str_of (found (i64 n)) = none
str_of (found (bool b)) = none
str_of not_found = none
str_of invalid_key = none

unfoldable pub get_str : Option Kb → Option Bytes → Option Bytes
get_str kb key = str_of (get kb key)

-- The entries for which the callback is called, in their order.
unfoldable pub foreach : Option Kb → Bool → List Entry
foreach none has_fn = []
foreach (some kb) has_fn = if not has_fn then [] else entries kb.buckets

unfoldable pub count : Option Kb → ℕ
count none = 0
count (some kb) = kb.entry_count

-- Some call of the walk gets the key with the value.
abbrev pub Visits : Bytes → Value → List Entry → Type 0
Visits key v [] = true ≡ false
Visits key v (e ∷ es) = ((e.key ≡ key) × (e.value ≡ v)) ⊎ Visits key v es

chain_find-Visits :
    (key : Bytes) (v : Value) (es : List Entry) → chain_find key es ≡ some v → Visits key v es
unfolding chain_find
chain_find-Visits key v [] h = absurd (cc)
chain_find-Visits key v (e ∷ es) h = elim (Bool-cases (same_key e.key key)) [
  | inl k ↦ let here : some e.value ≡ some v = rw k at h in inl (same_key→eq e.key key k, cc)
  | inr k ↦ inr (chain_find-Visits key v es (rw (k, chain_find) at h))
]

Visits-count_key :
    (key : Bytes) (v : Value) (es : List Entry) → Visits key v es → 0 < count_key key es
Visits-count_key key v [] h = absurd (cc)
Visits-count_key key v (e ∷ es) (inl (k, w)) =
    let same : same_key e.key key ≡ true = rw k (same_key_refl key) in rw same (omega arith)
Visits-count_key key v (e ∷ es) (inr h) = omega (arith, Visits-count_key key v es h)

Visits-chain_find :
    (key : Bytes) (v : Value) (es : List Entry)
    → count_key key es ≤ 1
    → Visits key v es
    → chain_find key es ≡ some v
unfolding chain_find
Visits-chain_find key v [] once h = absurd (cc)
Visits-chain_find key v (e ∷ es) once (inl (k, w)) =
    let same : same_key e.key key ≡ true = rw k (same_key_refl key) in
    rw same (ap (λ (x : Value). some x) w)
Visits-chain_find key v (e ∷ es) once (inr h) =
    let later = Visits-count_key key v es h in
    elim (Bool-cases (same_key e.key key)) [
      | inl k ↦
          let twice : 1 + count_key key es ≤ 1 = rw k at once in
          absurd (omega (arith, twice, later))
      | inr k ↦
          let rest : 0 + count_key key es ≤ 1 = rw k at once in
          rw (k, chain_find) (Visits-chain_find key v es (omega (arith, rest)) h)
    ]

-- The walk over a well-formed table calls the function with a key and a value exactly if the getter
-- finds the value under the key, for every valid key.
pub foreach-get :
    (kb : Kb) (key : Bytes) (v : Value)
    → IsTable kb
    → validate_key (some key) ≡ true
    → (get (some kb) (some key) ≡ found v) ↔ Visits key v (foreach (some kb) true)
unfolding foreach get
foreach-get kb key v t valid = (
  λ h. elim (Option-cases (find kb key)) [
    | inl e ↦ let bad : not_found ≡ found v = rw (valid, e, get) at h in absurd (cc)
    | inr (w, e) ↦
        let same : found w ≡ found v = rw (valid, e, get) at h in
        let eq : w ≡ v = cc in
        chain_find-Visits key v (entries kb.buckets)
          (sym (find-entries kb key t) ∙ e ∙ ap (λ (x : Value). some x) eq)
  ],
  λ h.
      let e : find kb key ≡ some v =
        find-entries kb key t ∙ Visits-chain_find key v (entries kb.buckets) (t.unique key) h in
      rw (valid, e, get) refl,
)

-- On a well-formed table the count is the number of calls that the walk makes.
pub count-foreach : (kb : Kb) → IsTable kb → count (some kb) ≡ length (foreach (some kb) true)
unfolding count foreach
count-foreach kb t = t.counted

-- After `set_str_n`, `get_str` returns the text under its key, and what it returned before under
-- every other key.
pub get_str-set_str_n :
    (a : Alloc) (kb kb' : Kb) (key value : Bytes)
    → IsTable kb
    → set_str_n a (some kb) (some key) (some value) ≡ some kb'
    → (j : Bytes)
    → get_str (some kb') (some j)
      ≡ (if same_key key j then some value else get_str (some kb) (some j))
unfolding get_str
get_str-set_str_n a kb kb' key value t h j =
    let (now, table) = get-set_str_n a kb kb' key value t h j in
    elim (Bool-cases (same_key key j)) [
      | inl e ↦
          let got : get (some kb') (some j) ≡ found (str value) = now ∙ rw e refl in
          rw (e, got) refl
      | inr e ↦
          let kept : get (some kb') (some j) ≡ get (some kb) (some j) = now ∙ rw e refl in
          rw (e, kept) refl
    ]
