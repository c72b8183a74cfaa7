-- ===== src/Request/Failure.antt =====
-- What parse_request leaves for an error page and for the log.
use simple_web_server.Base.{
  if◌then◌else◌, take, length-take, Option-cases, ap, ◌∙◌, ◌≤◌, ℕ, ◌≡◌, refl, ap, ◌⊎◌, inl, inr,
  true, false, Bool-cases, Option, none, some, [], arith, leb, length,
}
use simple_web_server.Client.{ClientResponse, failure}
use simple_web_server.CString.{c_string, Bytes, strnstr, strtok}
use simple_web_server.CString.Search.{find-split, length-c_string-le}
use simple_web_server.Logging.{LogEntry, log_append}
use simple_web_server.Request.{
  Request, zero_request, logs_enabled, request_note, Parsed, crlf, line_length, found, header_end,
  check_fields, check_tokens, parse_line, log_request, parse_request, request_line,
}
use simple_web_server.Response.Error.{has_no_page}
use simple_web_server.Request.Checks.{filled, parse_request_complete, parse_request_incomplete}
use simple_web_server.Request.Reject.{
  Defect, word_count, too_long, relative, no_version, old_version, climbs, no_method,
  parse_request-Defect,
}

fields-time :
    (r : Request) (resp : ClientResponse) (le : LogEntry)
    → (check_fields r resp le).request.time_received ≡ r.time_received
unfolding check_fields
fields-time r resp le = ground arith

tokens-time :
    (m p v x : Option Bytes) (out : Request) (resp : ClientResponse) (le : LogEntry)
    → (check_tokens m p v x out resp le).request.time_received ≡ out.time_received
unfolding check_tokens
tokens-time none p v x out resp le = refl
tokens-time (some m) none v x out resp le = refl
tokens-time (some m) (some p) none x out resp le = refl
tokens-time (some m) (some p) (some v) (some x) out resp le = refl
tokens-time (some m) (some p) (some v) none out resp le = elim (Bool-cases (leb 4096 (length p))) [
  | inl e ↦ rw e refl
  | inr e ↦ rw e (fields-time (filled out m p v) resp le)
]

line-time :
    (line : Bytes) (out : Request) (resp : ClientResponse) (le : LogEntry)
    → (parse_line line out resp le).request.time_received ≡ out.time_received
unfolding parse_line
line-time line out resp le =
    let first = strtok b' ' line in
    let second = strtok b' ' first.1 in
    let third = strtok b' ' second.1 in
    tokens-time first.0 second.0 third.0 (strtok b' ' third.1).0 out resp le

-- The date of the error page is the clock's text, or nothing.
pub parse_request-time :
    (app_flags : ℕ) (now buf : Bytes) (len : ℕ) (resp : ClientResponse) (le : LogEntry)
    → let r = parse_request app_flags now (some buf) len zero_request resp le in
      (r.request.time_received ≡ now) ⊎ ((r.request.time_received ≡ []) × (r.status ≡ failure))
parse_request-time app_flags now buf len resp le =
    elim (Bool-cases (found (strnstr buf header_end len))) [
      | inl e ↦
          let run = parse_request_complete app_flags now buf len zero_request resp le e in
          inl (
            rw run (
              line-time (request_line buf len) (record zero_request { time_received = now }) resp
                (log_request app_flags now (request_line buf len) le)))
      | inr e ↦
          let run = parse_request_incomplete app_flags now buf len zero_request resp le e in
          inr (rw run (refl, refl))
    ]

Defect-has_page : (line : Bytes) (r : ClientResponse) → Defect line r → has_no_page r ≡ false
Defect-has_page line r (word_count h) = refl
Defect-has_page line r (too_long m p v e h) = refl
Defect-has_page line r (relative m p v e h) = refl
Defect-has_page line r (no_version m p v e h) = refl
Defect-has_page line r (old_version m p v e h) = refl
Defect-has_page line r (climbs m p v a b e h) = refl
Defect-has_page line r (no_method m p v e h k) = refl

-- Every code of a refused request has an error page.
pub parse_request-has_page :
    (app_flags : ℕ) (now buf : Bytes) (len : ℕ) (resp : ClientResponse) (le : LogEntry)
    → let r = parse_request app_flags now (some buf) len zero_request resp le in
      r.status ≡ failure → has_no_page r.resp ≡ false
parse_request-has_page app_flags now buf len resp le h =
    elim (parse_request-Defect app_flags now buf len zero_request resp le h) [
      | inl (_, e) ↦ ap has_no_page e
      | inr (_, d) ↦ Defect-has_page _ _ d
    ]

fields-entry :
    (r : Request) (resp : ClientResponse) (le : LogEntry) → (check_fields r resp le).entry ≡ le
unfolding check_fields
fields-entry r resp le = ground arith

tokens-entry :
    (m p v x : Option Bytes) (out : Request) (resp : ClientResponse) (le : LogEntry)
    → (check_tokens m p v x out resp le).entry ≡ le
unfolding check_tokens
tokens-entry none p v x out resp le = refl
tokens-entry (some m) none v x out resp le = refl
tokens-entry (some m) (some p) none x out resp le = refl
tokens-entry (some m) (some p) (some v) (some x) out resp le = refl
tokens-entry (some m) (some p) (some v) none out resp le = elim (Bool-cases (leb 4096 (length p))) [
  | inl e ↦ rw e refl
  | inr e ↦ rw e (fields-entry (filled out m p v) resp le)
]

-- A request whose headers are complete is noted in the log entry, whatever comes of it, if the
-- server logs.
pub parse_request-entry :
    (app_flags : ℕ) (now buf : Bytes) (len : ℕ) (resp : ClientResponse) (le : LogEntry)
    → found (strnstr buf header_end len) ≡ true
    → logs_enabled app_flags ≡ true
    → (parse_request app_flags now (some buf) len zero_request resp le).entry
      ≡ log_append le (request_note now (request_line buf len))
unfolding parse_line log_request
parse_request-entry app_flags now buf len resp le e on =
    let noted = log_request app_flags now (request_line buf len) le in
    let out : Request = record zero_request { time_received = now } in
    let first = strtok b' ' (request_line buf len) in
    let second = strtok b' ' first.1 in
    let third = strtok b' ' second.1 in
    ap (λ (p : Parsed). p.entry)
      (parse_request_complete app_flags now buf len zero_request resp le e)
    ∙ tokens-entry first.0 second.0 third.0 (strtok b' ' third.1).0 out resp noted
    ∙ ap (λ b. if b then log_append le (request_note now (request_line buf len)) else le) on

-- The line is within the request.
pub length-request_line-le : (buf : Bytes) (len : ℕ) → length (request_line buf len) ≤ len
unfolding request_line line_length
length-request_line-le buf len = elim (Option-cases (strnstr buf crlf len)) [
  | inl e ↦
      rw (e, line_length) (omega (arith, length-c_string-le (take len buf), length-take len buf))
  | inr (i, e) ↦
      let (r, _, _, fits) = find-split crlf (c_string (take len buf)) i (unfold strnstr in e) in
      rw (e, line_length)
        (omega (
          arith,
          length-c_string-le (take len buf),
          length-take len buf,
          length-c_string-le (take i buf),
          length-take i buf,
        ))
]
