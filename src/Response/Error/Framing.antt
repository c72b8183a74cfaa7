-- ===== src/Response/Error/Framing.antt =====
-- Every error page is a well-formed message.
use simple_web_server.Base.{
  ◌-◌, ◌≡◌, refl, ap, inl, inr, Bool, true, false, List, [], ◌∷◌, ◌++◌, append_assoc, arith, length,
  length-append, Bool-cases,
}
use simple_web_server.Client.{Client, ClientResponse, resp_200, resp_400, num_client_resp, success}
use simple_web_server.CString.{Bytes, codes, decimal}
use simple_web_server.CString.Search.{Free}
use simple_web_server.CString.Decimal.{decimal-Free}
use simple_web_server.Host.{Host}
use simple_web_server.Request.{Request}
use simple_web_server.Response.Error.{
  Response, error_responses, has_no_page, is_head, error_header, build_error_response,
  server_version,
}
use simple_web_server.Response.Message.{
  IsFramed, status_text, render, AllLines, served, served-nil, served-IsFramed, line-Free,
}

abbrev tail_lines : Response → Bytes → List Bytes
tail_lines page time =
    (codes "Date: " ++ time)
    ∷ (codes "Server: " ++ server_version)
    ∷ (codes "Content-Type: " ++ page.mime_type)
    ∷ (codes "Content-Length: " ++ decimal (length page.body))
    ∷ codes "Connection: close"
    ∷ []

abbrev error_lines : Response → Bytes → List Bytes
error_lines page time = (codes "HTTP/1.0 " ++ page.status_line) ∷ tail_lines page time

error_header-render :
    (page : Response) (time body : Bytes)
    → error_header page time ++ body ≡ render (error_lines page time) body
unfolding error_header
error_header-render page time body = simp append_assoc

error_lines-AllLines :
    (page : Response) (time : Bytes)
    → Free b'\r' page.status_line
    → Free b'\r' page.mime_type
    → Free b'\r' time
    → AllLines (error_lines page time)
error_lines-AllLines page time fs fm ft =
    let status = line-Free b'H' (codes "TTP/1.0 ") page.status_line (omega arith) fs in
    let date = line-Free b'D' (codes "ate: ") time (omega arith) ft in
    let server = line-Free b'S' (codes "erver: ") server_version (omega arith) (omega arith) in
    let type = line-Free b'C' (codes "ontent-Type: ") page.mime_type (omega arith) fm in
    let size =
      line-Free b'C' (codes "ontent-Length: ") (decimal (length page.body)) (omega arith)
        (decimal-Free b'\r' (length page.body) (omega arith)) in
    let close = line-Free b'C' (codes "onnection: close") [] (omega arith) tt in
    (status, (date, (server, (type, (size, (close, tt))))))

-- The texts of the table hold no carriage return.
error_responses-Free :
    (r : ClientResponse)
    → Free b'\r' (error_responses r).status_line × Free b'\r' (error_responses r).mime_type
unfolding error_responses
error_responses-Free resp_400 = (omega arith, omega arith)
error_responses-Free _ = (omega arith, omega arith)

status_text-page :
    (r : ClientResponse) → has_no_page r ≡ false → status_text r ≡ (error_responses r).status_line
unfolding error_responses
status_text-page resp_200 h = cc
status_text-page num_client_resp h = cc
status_text-page _ h = refl

abbrev pub body_unless : Bool → Bytes → Bytes
body_unless true body = []
body_unless false body = body

module _ (h : Host) (c : Client) (req : Request) (known : has_no_page c.resp_val ≡ false)
    (granted : h.error_stream_ok ≡ true) (plain_time : Free b'\r' req.time_received) where
  abbrev page : Response
  page = error_responses c.resp_val

  abbrev header : Bytes
  header = error_header page req.time_received

  lines_ok : AllLines (error_lines page req.time_received)
  lines_ok =
      let (s, m) = error_responses-Free c.resp_val in
      error_lines-AllLines page req.time_received s m plain_time

  abbrev staged_page : Bytes → Client
  staged_page sent = served c header sent (length page.body)

  staged_page-IsFramed : (sent : Bytes) → IsFramed (staged_page sent) page.body sent
  staged_page-IsFramed sent =
      served-IsFramed c header page.body sent (length page.body) (tail_lines page req.time_received)
        (rw (status_text-page c.resp_val known) (error_header-render page req.time_received sent))
        (rw (status_text-page c.resp_val known) lines_ok) (inr (inr (inr (inl refl))))
        (inr (inr (inr (inr (inl refl)))))

  body_part : length (header ++ page.body) - length header ≡ length page.body
  body_part = omega (arith, length-append header page.body)

  build_error_response_lem :
      build_error_response h c req
      ≡ (success, staged_page (body_unless (is_head req.method) page.body))
  build_error_response_lem = elim (Bool-cases (is_head req.method)) [
    | inl e ↦
        unfold build_error_response in
        rw (known, granted, e) (ap (λ d. (success, d)) (served-nil c header (length page.body)))
    | inr e ↦
        unfold build_error_response in
        rw (known, granted, e) (ap (λ n. (success, served c header page.body n)) body_part)
  ]

  -- For every code that has a page and a clock text without a carriage return, build_error_response
  -- succeeds and stages a well-formed message for that code, announcing the length of the page and
  -- carrying the page, or no body for HEAD; the response code is kept, and `body_len` is the length
  -- of the page.
  pub build_error_response-IsFramed :
      let r = build_error_response h c req in
      (r.0 ≡ success)
      × IsFramed r.1 page.body (body_unless (is_head req.method) page.body)
      × (r.1.resp_val ≡ c.resp_val)
      × (r.1.body_len ≡ length page.body)
  build_error_response-IsFramed =
      rw build_error_response_lem (refl, staged_page-IsFramed _, refl, refl)
