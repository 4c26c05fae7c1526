-- ===== src/Escape/Tests.antt =====
-- src/report/escape.c: texts escaped, and the theorems at concrete values.
use cytadel_scan.Base.{
  ℕ, Bool, true, false, ◌≡◌, ◌++◌, ◌+◌, ◌≤◌, refl, arith, [], ◌∷◌, Bytes, codes, none, some, All,
  inr, length,
}
use cytadel_scan.Escape.Buffer.{
  ReportBuf, report_buf_init, doubling_loop, buf_reserve, fine, failed, buf_append, escape_loop,
  escape_html, escape_json, escape_url, cleaned, size_max,
}
use cytadel_scan.Escape.Grow.{IsBuf}
use cytadel_scan.Escape.Html.{html_read, html_read-escape_html}
use cytadel_scan.Escape.Json.{json_read, in_text, json_read-escape_json}
use cytadel_scan.Escape.Loop.{escaped, Escapes, escape_loop-Escapes, escape_loop-total}
use cytadel_scan.Escape.SafeUrl.{IsSafeUrl, escape_url-IsSafeUrl}
use cytadel_scan.Escape.Url.{IsUrlByte}
use cytadel_scan.Escape.{
  html_escape_one, json_escape_one, url_has_disallowed_control, url_percent_encode_one,
  url_is_safe_char, drop_breaks, trim_start, trim_end, scheme_tail, scheme_of, scheme_equals_ci,
  is_protocol_relative, is_web_scheme, is_allowed, is_alpha_ascii, is_scheme_char,
}

escapers : Unit {0}
unfolding report_buf_init doubling_loop buf_reserve buf_append escape_loop escape_html escape_json
    escape_url cleaned html_escape_one json_escape_one url_has_disallowed_control
    url_percent_encode_one url_is_safe_char drop_breaks trim_start trim_end scheme_tail scheme_of
    scheme_equals_ci is_protocol_relative is_web_scheme is_allowed is_alpha_ascii is_scheme_char
    escaped
escapers = tt

abbrev memory : ℕ → Bool
memory n = true

abbrev empty : ReportBuf
empty = record { data_bytes = []; cap = 0 }

empty-IsBuf : IsBuf empty
empty-IsBuf = record { room = inr (refl, refl); size = omega arith }

abbrev holding : Bytes → ReportBuf
holding s = record { data_bytes = s; cap = 64 }

html :
    (escape_html true memory empty (codes "<a\"&") ≡ fine (holding (codes "&lt;a&quot;&amp;")))
    × (escape_html false memory empty (codes "\"'") ≡ fine (holding (codes "\"'")))
    × (escape_html true (λ n. false) empty (codes "<") ≡ failed empty)
unfolding escapers
html = (refl, refl, refl)

json : escape_json memory empty (b'"' ∷ 1 ∷ 10 ∷ []) ≡ fine (holding (codes "\\\"\\u0001\\n"))
unfolding escapers
json = refl

links :
    (escape_url true memory empty (codes " java\tscript:alert(1)") ≡ fine (holding (codes "#")))
    × (escape_url true memory empty (codes "//evil") ≡ fine (holding (codes "#")))
    × (escape_url true memory empty (codes "HTTPS://a/?q=\"&")
        ≡ fine (holding (codes "HTTPS://a/?q=%22%26")))
unfolding escapers
links = (refl, refl, refl)

html_read-escape_html_example :
    (r : Bytes) × (codes "&lt;a&quot;&amp;" ≡ [] ++ r)
    × (html_read true none r ≡ some (codes "<a\"&"))
html_read-escape_html_example =
    html_read-escape_html true memory empty (holding (codes "&lt;a&quot;&amp;")) (codes "<a\"&")
      empty-IsBuf (html.0)

json_read-escape_json_example :
    (r : Bytes) × (codes "\\\"\\u0001\\n" ≡ [] ++ r)
    × (json_read in_text r ≡ some (b'"' ∷ 1 ∷ 10 ∷ []))
json_read-escape_json_example =
    json_read-escape_json memory empty (holding (codes "\\\"\\u0001\\n")) (b'"' ∷ 1 ∷ 10 ∷ [])
      empty-IsBuf json

plain_link : escape_url true memory empty (codes "http:") ≡ fine (holding (codes "http:"))
unfolding escapers
plain_link = refl

escape_url-IsSafeUrl_example :
    (r : Bytes) × (codes "http:" ≡ [] ++ r) × All IsUrlByte r × IsSafeUrl r
escape_url-IsSafeUrl_example =
    escape_url-IsSafeUrl true memory empty (holding (codes "http:")) (codes "http:") empty-IsBuf
      (omega arith, (omega arith, (omega arith, (omega arith, (omega arith, tt))))) plain_link

escape_loop-Escapes_example :
    Escapes
      (html_escape_one true)
      empty
      (codes "<a")
      (escape_loop (html_escape_one true) memory empty (codes "<a"))
escape_loop-Escapes_example =
    escape_loop-Escapes (html_escape_one true) memory empty (codes "<a") empty-IsBuf

short_output :
    length empty.data_bytes + 1 + length (escaped json_escape_one (codes "ab")) ≤ size_max
unfolding escapers
short_output = omega arith

escape_loop-total_example :
    (b : ReportBuf) × (escape_loop json_escape_one memory empty (codes "ab") ≡ fine b)
escape_loop-total_example =
    escape_loop-total json_escape_one memory (λ n. refl) empty (codes "ab") empty-IsBuf short_output
