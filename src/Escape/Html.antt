-- ===== src/Escape/Html.antt =====
-- src/report/escape.c: HTML text and attribute values.
use cytadel_scan.Base.{
  ℕ, Bool, true, false, ◌&&◌, ◌||◌, Option, none, some, [], ◌∷◌, ◌++◌, ◌≡◌, inl, inr, refl, ◌∙◌,
  arith, Bytes, codes, ◌==◌, if◌then◌else◌, Bool-cases,
}
use cytadel_scan.Escape.Loop.{escaped, escape_loop-fine}
use cytadel_scan.Escape.Grow.{IsBuf}
use cytadel_scan.Escape.Buffer.{ReportBuf, fine, escape_html}
use cytadel_scan.Escape.{html_escape_one, before}

unfoldable pub same_bytes : Bytes → Bytes → Bool
same_bytes [] [] = true
same_bytes [] (y ∷ b) = false
same_bytes (x ∷ a) [] = false
same_bytes (x ∷ a) (y ∷ b) = x == y && same_bytes a b

-- The character references that a browser reads.
unfoldable pub named : Bytes → Option ℕ
unfolding same_bytes
named s =
    if same_bytes s (codes "amp")
    then some b'&'
    else if same_bytes s (codes "lt")
    then some b'<'
    else if same_bytes s (codes "gt")
    then some b'>'
    else if same_bytes s (codes "quot")
    then some b'"'
    else if same_bytes s (codes "#39")
    then some 39
    else none

abbrev pub decoded : Option ℕ → Option Bytes → Option Bytes
decoded none rest = none
decoded (some c) rest = before c rest

-- Text as HTML: `name` is what was read of a reference. A raw angle bracket is refused, and so is a
-- quote in an attribute value, and so is a reference that does not end.
unfoldable pub html_read : Bool → Option Bytes → Bytes → Option Bytes
html_read in_attr none [] = some []
html_read in_attr (some name) [] = none
html_read in_attr (some name) (c ∷ s) =
    let next = html_read in_attr none s in
    let more = html_read in_attr (some (name ++ (c ∷ []))) s in
    if c == b';' then decoded (named name) next else more
html_read in_attr none (c ∷ s) =
    let next = html_read in_attr none s in
    let reference = html_read in_attr (some []) s in
    if c == b'&'
    then reference
    else if c == b'<' || c == b'>' || (in_attr && (c == b'"' || c == 39))
    then none
    else before c next

reads_reference :
    (q : Bool) (t : Bytes)
    → (html_read q none (codes "&amp;" ++ t) ≡ before b'&' (html_read q none t))
      × (html_read q none (codes "&lt;" ++ t) ≡ before b'<' (html_read q none t))
      × (html_read q none (codes "&gt;" ++ t) ≡ before b'>' (html_read q none t))
      × (html_read q none (codes "&quot;" ++ t) ≡ before b'"' (html_read q none t))
      × (html_read q none (codes "&#39;" ++ t) ≡ before 39 (html_read q none t))
unfolding html_read named same_bytes
reads_reference q t = (refl, refl, refl, refl, refl)

html_read-plain :
    (q : Bool) (c : ℕ) (t : Bytes)
    → (c == b'&') ≡ false
    → (c == b'<') ≡ false
    → (c == b'>') ≡ false
    → html_read q none (html_escape_one q c ++ t) ≡ before c (html_read q none t)
unfolding html_read html_escape_one
html_read-plain false c t e1 e2 e3 = elim (Bool-cases (c == b'"')) [
  | inl e ↦ rw (e1, e2, e3, e) (rw (e1, e2, e3) refl)
  | inr e4 ↦ elim (Bool-cases (c == 39)) [
    | inl e ↦ rw (e1, e2, e3, e4, e) (rw (e1, e2, e3) refl)
    | inr e5 ↦ rw (e1, e2, e3, e4, e5) (rw (e1, e2, e3) refl)
  ]
]
html_read-plain true c t e1 e2 e3 =
    let (amp, lt, gt, quot, apos) = reads_reference true t in
    elim (Bool-cases (c == b'"')) [
      | inl e ↦ let same : c ≡ b'"' = ground arith in rw same quot
      | inr e4 ↦ elim (Bool-cases (c == 39)) [
        | inl e ↦ let same : c ≡ 39 = ground arith in rw same apos
        | inr e5 ↦ rw (e1, e2, e3, e4, e5) (rw (e1, e2, e3, e4, e5) refl)
      ]
    ]

html_read-html_escape_one :
    (q : Bool) (c : ℕ) (t : Bytes)
    → html_read q none (html_escape_one q c ++ t) ≡ before c (html_read q none t)
unfolding html_escape_one
html_read-html_escape_one q c t =
    let (amp, lt, gt, quot, apos) = reads_reference q t in
    elim (Bool-cases (c == b'&')) [
      | inl e ↦ let same : c ≡ b'&' = ground arith in rw same amp
      | inr e1 ↦ elim (Bool-cases (c == b'<')) [
        | inl e ↦ let same : c ≡ b'<' = ground arith in rw same lt
        | inr e2 ↦ elim (Bool-cases (c == b'>')) [
          | inl e ↦ let same : c ≡ b'>' = ground arith in rw same gt
          | inr e3 ↦ html_read-plain q c t e1 e2 e3
        ]
      ]
    ]

-- A browser reads the escaped text as the text, and finds no tag and no quote in it.
pub html_read-escaped :
    (q : Bool) (s : Bytes) → html_read q none (escaped (html_escape_one q) s) ≡ some s
unfolding escaped
html_read-escaped q [] = unfold html_read in refl
html_read-escaped q (c ∷ s) =
    html_read-html_escape_one q c (escaped (html_escape_one q) s) ∙ rw (html_read-escaped q s) refl

-- What `escape_html` appends to a buffer reads back as the text, for element text and for a quoted
-- attribute value.
pub html_read-escape_html :
    (q : Bool) (realloc_ok : ℕ → Bool) (out b : ReportBuf) (s : Bytes)
    → IsBuf out
    → escape_html q realloc_ok out s ≡ fine b
    → (r : Bytes) × (b.data_bytes ≡ out.data_bytes ++ r) × (html_read q none r ≡ some s)
unfolding escape_html
html_read-escape_html q realloc_ok out b s h e = (
  escaped (html_escape_one q) s,
  escape_loop-fine (html_escape_one q) realloc_ok out b s h e,
  html_read-escaped q s,
)
