-- ===== src/Read/Respond.antt =====
-- From a complete request to a staged response.
use simple_web_server.Base.{
  ◌≡◌, refl, sym, subst, ◌∙◌, ◌⊎◌, inl, inr, Bool, Option, some, [], ◌∷◌, ◌++◌,
}
use simple_web_server.Client.{Client, sending_header, Status, success, failure}
use simple_web_server.CString.{Bytes}
use simple_web_server.CString.Search.{Free}
use simple_web_server.Connections.{Pollfd, pollout}
use simple_web_server.Host.{Host, World}
use simple_web_server.Logging.{empty_entry}
use simple_web_server.Read.{answer_parsed, respond, noted}
use simple_web_server.Request.{Parsed, zero_request, parse_request}
use simple_web_server.Request.Failure.{parse_request-time, parse_request-has_page}
use simple_web_server.Response.Error.{is_head}
use simple_web_server.Resolve.{zero_resolved, resolve_path}
use simple_web_server.Response.Okay.Built.{is_script}
use simple_web_server.Response.Okay.Framing.{IsAnswered}
use simple_web_server.Read.Answers.{IsReliable, IsAsked, Answers, refused-Answers, resolved-Answers}

Status-cases : (s : Status) → (s ≡ success) ⊎ (s ≡ failure)
Status-cases success = inl refl
Status-cases failure = inr refl

-- What the request in the buffer is read as.
abbrev pub read_as : Host → Client → Option Bytes → Parsed
read_as h c o =
    parse_request h.app_flags h.now o c.header_len zero_request c.resp_val
      (noted h (c.client_addr ++ b' ' ∷ []) empty_entry)

-- Whether the request leads to a script.
abbrev pub asks_script : Host → Client → World → Parsed → Bool
asks_script h c w p =
    is_script
      (resolve_path h (record c { resp_val = p.resp }) p.request zero_resolved w).rp.path_type

-- What the request asks for.
abbrev pub IsAskedFor : Host → Client → World → Parsed → Bytes → Type 0
IsAskedFor h c w p =
    IsAsked h p.request (resolve_path h (record c { resp_val = p.resp }) p.request zero_resolved w)

module _ (h : Host) (reliable : IsReliable h) (c : Client) (p : Pollfd) (w : World) (buf : Bytes)
    (full : c.in_buf ≡ some buf) where
  abbrev parsed : Parsed
  parsed = read_as h c (some buf)

  parsed-Answers :
      Answers
        (is_head parsed.request.method)
        (asks_script h c w parsed)
        (IsAskedFor h c w parsed)
        (answer_parsed h c w parsed parsed.status).client
  unfolding answer_parsed
  parsed-Answers = elim (Status-cases parsed.status) [
    | inl ok ↦ at_status ok (
        resolved-Answers h reliable (record c { resp_val = parsed.resp }) w parsed.request
          (read_time ok))
    | inr bad ↦ at_status bad (
        refused-Answers h reliable (record c { resp_val = parsed.resp }) w parsed.request
          (asks_script h c w parsed) (IsAskedFor h c w parsed) (record c { resp_val = parsed.resp })
          (parse_request-has_page h.app_flags h.now buf c.header_len c.resp_val
            (noted h (c.client_addr ++ b' ' ∷ []) empty_entry) bad)
          plain_date)
  ]
    where
      date :
          (parsed.request.time_received ≡ h.now)
          ⊎ ((parsed.request.time_received ≡ []) × (parsed.status ≡ failure))
      date =
          parse_request-time h.app_flags h.now buf c.header_len c.resp_val
            (noted h (c.client_addr ++ b' ' ∷ []) empty_entry)

      read_time : parsed.status ≡ success → parsed.request.time_received ≡ h.now
      read_time ok = elim date [ inl e ↦ e | inr (_, f) ↦ absurd (clash (sym ok ∙ f)) ]
        where
          clash : success ≡ failure → ⊥
          clash q = cc

      plain_date : Free b'\r' parsed.request.time_received
      plain_date = elim date [ inl e ↦ rw e reliable.now_plain | inr (e, _) ↦ rw e tt ]

      at_status :
          {s : Status}
          → parsed.status ≡ s
          → Answers
              (is_head parsed.request.method)
              (asks_script h c w parsed)
              (IsAskedFor h c w parsed)
              (answer_parsed h c w parsed s).client
          → Answers
              (is_head parsed.request.method)
              (asks_script h c w parsed)
              (IsAskedFor h c w parsed)
              (answer_parsed h c w parsed parsed.status).client
      at_status e a =
          subst
            (λ s.
              Answers (is_head parsed.request.method) (asks_script h c w parsed)
                (IsAskedFor h c w parsed) (answer_parsed h c w parsed s).client)
            (sym e) a

  -- Every complete request is answered: whatever it asks for, and whatever the file system, libmagic
  -- and the CGI scripts say, as far as the host is reliable, do_read leaves a well-formed message in
  -- the output buffer, which announces the length of its entity and carries it whole, or not at all
  -- for a HEAD request, unless it is the output of a script, which is carried whole for HEAD too; for the code 200
  -- the entity is the file, listing or output that the request leads to, and else the page of the
  -- code; the
  -- connection is SENDING_HEADER, and its slot waits for POLLOUT alone.
  pub respond-Answers :
      let r = respond h c p w in
      (r.client.state ≡ sending_header)
      × (r.pollfd ≡ record p { events = pollout })
      × IsAnswered
          (is_head (read_as h c c.in_buf).request.method)
          (asks_script h c w (read_as h c c.in_buf))
          (IsAskedFor h c w (read_as h c c.in_buf))
          (success, r.client)
  unfolding respond
  respond-Answers = (
    refl,
    refl,
    subst
        (λ o.
          Answers (is_head (read_as h c o).request.method) (asks_script h c w (read_as h c o))
            (IsAskedFor h c w (read_as h c o))
            (record ((answer_parsed h c w (read_as h c o) (read_as h c o).status).client) {
              state = sending_header;
            }))
        (sym full) (in_state parsed-Answers),
  )
    where
      in_state :
          {head script : Bool} {P : Bytes → Type 0} {d : Client}
          → Answers head script P d
          → Answers head script P (record d { state = sending_header })
      in_state a = record {
        done = refl;
        entity = a.entity;
        named = a.named;
        framed = record {
          message = a.framed.message;
          fields = a.framed.fields;
          staged = a.framed.staged;
          counted = a.framed.counted;
          reads = a.framed.reads;
          length_line = a.framed.length_line;
          close_line = a.framed.close_line;
          header_counted = a.framed.header_counted;
        };
        code_set = a.code_set;
      }
