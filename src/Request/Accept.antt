-- ===== src/Request/Accept.antt =====
-- Exactly which requests parse_request accepts.
use simple_web_server.Base.{ℕ, ◌≡◌, refl, ◌↔◌, inl, inr, ◌∙◌, sym, ap, true, some, Bool-cases}
use simple_web_server.Client.{ClientResponse, success, failure}
use simple_web_server.CString.{Bytes, strnstr}
use simple_web_server.Logging.{LogEntry}
use simple_web_server.Request.{Request, Parsed, found, request_line, header_end, parse_request}
use simple_web_server.Request.Checks.{parse_request_complete, parse_request_incomplete, line_Free}
use simple_web_server.Request.Acceptable.{Acceptable, parse_line-success, parse_line-Acceptable}

module _ (app_flags : ℕ) (now buf : Bytes) (len : ℕ) (out : Request) (resp : ClientResponse)
    (le : LogEntry) where
  abbrev result : Parsed
  result = parse_request app_flags now (some buf) len out resp le

  accepted :
      result.status ≡ success
      → (found (strnstr buf header_end len) ≡ true)
        × Acceptable (request_line buf len) result.request
        × (result.request.time_received ≡ now)
  accepted s = elim (Bool-cases (found (strnstr buf header_end len))) [
    | inl h ↦
        let run = parse_request_complete app_flags now buf len out resp le h in
        let (a, t) = parse_line-success _ _ resp _ (line_Free buf len) (rw run at s) in
        (h, rw run a, rw run t)
    | inr h ↦ absurd (
        clash (
          sym s
          ∙ ap (λ (r : Parsed). r.status)
              (parse_request_incomplete app_flags now buf len out resp le h)))
  ]
    where
      clash : success ≡ failure → ⊥
      clash e = cc

  -- parse_request succeeds exactly if the end of the headers is within the `len` bytes and the
  -- first line is acceptable, and then the struct holds what the line says and the clock's text.
  pub parse_request-accepts :
      (r : Request)
      → ((result.status ≡ success) × (result.request ≡ r)) ↔ (
          (found (strnstr buf header_end len) ≡ true)
          × Acceptable (request_line buf len) r
          × (r.time_received ≡ now))
  parse_request-accepts r = (only, enough)
    where
      only :
          (result.status ≡ success) × (result.request ≡ r)
          → (found (strnstr buf header_end len) ≡ true)
            × Acceptable (request_line buf len) r
            × (r.time_received ≡ now)
      only (s, e) = rw e at (accepted s)

      enough :
          (found (strnstr buf header_end len) ≡ true)
            × Acceptable (request_line buf len) r
            × (r.time_received ≡ now)
          → (result.status ≡ success) × (result.request ≡ r)
      enough (h, a, t) =
          rw
            (
              parse_request_complete app_flags now buf len out resp le h,
              parse_line-Acceptable _ (record out { time_received = now }) r resp _
                  (line_Free buf len) a,
            )
            (refl, λ i. record r { time_received = sym t i })
