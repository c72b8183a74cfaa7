-- ===== src/Response/Okay/Framing.antt =====
-- build_okay_response stages a well-formed message on every branch.
use simple_web_server.Base.{
  ◌+◌, ◌<◌, ◌≤◌, ◌^◌, ◌≡◌, refl, ◌≢◌, ◌⊎◌, inl, inr, ◌∙◌, sym, ap, subst, ◌&&◌, Bool, true, false,
  none, [], length, Bool-cases, ltb, if◌then◌else◌,
}
use simple_web_server.Client.{
  Client, ClientResponse, resp_200, resp_414, resp_500, resp_501, Status, success, failure,
  has_flag, c_flag,
}
use simple_web_server.CString.{Bytes}
use simple_web_server.CString.Search.{Free}
use simple_web_server.Host.{Host, CgiRun}
use simple_web_server.Request.{Request, path_max}
use simple_web_server.Resolve.{ResolvedPath, PathType, unknown, is_file, is_dir, is_cgi}
use simple_web_server.Response.Error.{has_no_page, is_head, error_responses, build_error_response}
use simple_web_server.Response.Error.Framing.{body_unless, build_error_response-IsFramed}
use simple_web_server.Response.Message.{IsFramed}
use simple_web_server.Response.Script.{
  output, no_output, CgiOutput, read_cgi, cgi_call, finish_cgi, build_response_cgi,
}
use simple_web_server.Response.Okay.{
  file_body, is_200, build_by_type, recover, or_recover, build_okay_response,
}
use simple_web_server.Response.Okay.Built.{
  IsPlain, ScriptEntity, IsEntity, is_script, carried, Built, Built-failure,
}
use simple_web_server.Response.Okay.Pages.{build_response_file-Built, build_response_dir-Built}
use simple_web_server.Response.Okay.Cgi.{header_of, finish_cgi_lem, cgi_served}

CgiOutput-cases : (o : CgiOutput) → (o ≡ no_output) ⊎ ((s : Bytes) × (o ≡ output s))
CgiOutput-cases no_output = inl refl
CgiOutput-cases (output s) = inr (s, refl)

module _ (h : Host) (c : Client) (rp : ResolvedPath) (req : Request) (plain : IsPlain h rp req)
    (code : c.resp_val ≡ resp_200) (short : length req.time_received ≤ 31) where
  abbrev run : CgiRun
  run = h.cgi_run (cgi_call c rp req)

  finish_cgi-Built :
      (resp : Bytes)
      → read_cgi h run.reads 8192 [] ≡ output resp
      → length resp < 10 ^ 20
      → Built
          (ScriptEntity h (cgi_call c rp req))
          true
          (is_head req.method)
          (finish_cgi h c req run resp)
  finish_cgi-Built resp e size = elim (Bool-cases run.waitpid_ok) [
    | inl e₁ ↦ elim (Bool-cases run.exited_zero) [
      | inl e₂ ↦
          elim (Bool-cases (
            h.malloc_ok (length (header_of h c rp req code plain.time short resp) + length resp))) [
              | inl e₃ ↦
                  rw (finish_cgi_lem h c rp req code plain.time short run resp size e₁ e₂ e₃)
                    (code, (resp, e, cgi_served h c rp req code plain.time short resp))
              | inr bad ↦ refused (unfold finish_cgi in rw (e₁, e₂, bad))
            ]
      | inr bad ↦ failed (unfold finish_cgi in rw (e₁, bad))
    ]
    | inr bad ↦ failed (unfold finish_cgi in rw bad)
  ]
    where
      failed :
          finish_cgi h c req run resp ≡ (failure, record c { resp_val = resp_500 })
          → Built
              (ScriptEntity h (cgi_call c rp req))
              true
              (is_head req.method)
              (finish_cgi h c req run resp)
      failed e = rw e refl

      refused :
          finish_cgi h c req run resp ≡ (failure, record c { out_buf = none; resp_val = resp_500 })
          → Built
              (ScriptEntity h (cgi_call c rp req))
              true
              (is_head req.method)
              (finish_cgi h c req run resp)
      refused e = rw e refl

  build_response_cgi-Built :
      ((out : Bytes) → read_cgi h run.reads 8192 [] ≡ output out → length out < 10 ^ 20)
      → Built
          (ScriptEntity h (cgi_call c rp req))
          true
          (is_head req.method)
          (build_response_cgi h c rp req)
  build_response_cgi-Built size = elim (Bool-cases (has_flag h.app_flags c_flag)) [
    | inl e₁ ↦ elim (Bool-cases run.pipe_ok) [
      | inl e₂ ↦ elim (Bool-cases (ltb path_max (length rp.query_string))) [
        | inl long ↦ failed resp_414 refl (unfold build_response_cgi in rw (e₁, e₂, long))
        | inr e₃ ↦ elim (Bool-cases run.fork_ok) [
          | inl e₄ ↦ elim (Bool-cases run.malloc_ok) [
            | inl e₅ ↦ elim (CgiOutput-cases (read_cgi h run.reads 8192 [])) [
              | inl lost ↦
                  failed resp_500 refl
                    (unfold build_response_cgi in rw (e₁, e₂, e₃, e₄, e₅, lost, build_response_cgi))
              | inr (resp, e) ↦
                  let ran : build_response_cgi h c rp req ≡ finish_cgi h c req run resp =
                    (unfold build_response_cgi in rw (e₁, e₂, e₃, e₄, e₅, e, build_response_cgi)) in
                  rw ran (finish_cgi-Built resp e (size resp e))
            ]
            | inr bad ↦ failed resp_500 refl (unfold build_response_cgi in rw (e₁, e₂, e₃, e₄, bad))
          ]
          | inr bad ↦ failed resp_500 refl (unfold build_response_cgi in rw (e₁, e₂, e₃, bad))
        ]
      ]
      | inr bad ↦ failed resp_500 refl (unfold build_response_cgi in rw (e₁, bad))
    ]
    | inr bad ↦ failed resp_501 refl (unfold build_response_cgi in rw bad)
  ]
    where
      failed :
          (resp : ClientResponse)
          → has_no_page (if is_200 resp then resp_500 else resp) ≡ false
          → build_response_cgi h c rp req ≡ (failure, record c { resp_val = resp })
          → Built
              (ScriptEntity h (cgi_call c rp req))
              true
              (is_head req.method)
              (build_response_cgi h c rp req)
      failed resp k e =
          Built-failure h c rp req plain code (ScriptEntity h (cgi_call c rp req)) true
            (is_head req.method) (build_response_cgi h c rp req) resp k e

-- The host and the request, as the rest of the server hands them over.
pub record IsServing (h : Host) (c : Client) (rp : ResolvedPath) (req : Request) : Type 0 where
  pub plain : IsPlain h rp req
  pub short : length req.time_received ≤ 31
  pub known : rp.path_type ≢ unknown
  pub unchanged : rp.path_type ≡ is_file → length (file_body h rp.file_ptr) ≡ rp.file_size
  pub cgi_size :
      (out : Bytes)
      → read_cgi h (h.cgi_run (cgi_call c rp req)).reads 8192 [] ≡ output out
      → length out < 10 ^ 20
  pub pages : h.error_stream_ok ≡ true

build_by_type-Built :
    (t : PathType) (h : Host) (c : Client) (rp : ResolvedPath) (req : Request)
    → rp.path_type ≡ t
    → c.resp_val ≡ resp_200
    → IsServing h c rp req
    → Built
        (IsEntity t h (cgi_call c rp req) rp req)
        (is_script t)
        (is_head req.method)
        (build_by_type t h c rp req)
unfolding build_by_type
build_by_type-Built is_cgi h c rp req e code s =
    build_response_cgi-Built h c rp req s.plain code s.short s.cgi_size
build_by_type-Built is_dir h c rp req e code s = build_response_dir-Built h c rp req s.plain code
build_by_type-Built is_file h c rp req e code s =
    build_response_file-Built h c rp req s.plain code (s.unchanged e)
build_by_type-Built unknown h c rp req e code s = absurd (s.known e)

-- What the entity is: for 200 this, and the page for every other code.
abbrev pub Named : (Bytes → Type 0) → ClientResponse → Bytes → Type 0
Named P resp_200 entity = P entity
Named P code entity = entity ≡ (error_responses code).body

-- What is staged in the end: an entity for the code of the client, sent whole or, for HEAD, not at
-- all; but for the output of a script, which is sent for HEAD too.
pub record IsAnswered (head script : Bool) (P : Bytes → Type 0) (r : Status × Client) : Type 0 where
  pub done : r.0 ≡ success
  pub entity : Bytes
  pub named : Named P r.1.resp_val entity
  pub framed : IsFramed r.1 entity (carried (is_200 r.1.resp_val && script) head entity)
  pub code_set : (r.1.resp_val ≡ resp_200) ⊎ (has_no_page r.1.resp_val ≡ false)

-- An error page is sent like this.
pub page-carried :
    (script head : Bool) (code : ClientResponse) (body : Bytes)
    → has_no_page code ≡ false
    → body_unless head body ≡ carried (is_200 code && script) head body
page-carried script head resp_200 body k = cc
page-carried script head _ body k = refl

pub page-Named :
    (P : Bytes → Type 0) (code : ClientResponse)
    → has_no_page code ≡ false
    → Named P code (error_responses code).body
page-Named P resp_200 k = cc
page-Named P _ k = refl

-- Whatever the entity is.
abbrev pub AnyEntity : Bytes → Type 0
AnyEntity entity = Unit {0}

pub IsAnswered-any :
    {head script : Bool} {P : Bytes → Type 0} {r : Status × Client}
    → IsAnswered head script P r
    → IsAnswered head script AnyEntity r
IsAnswered-any {head} {script} {P} {r} a = record {
  done = a.done;
  entity = a.entity;
  named = any r.1.resp_val a.named;
  framed = a.framed;
  code_set = a.code_set;
}
  where
    any : (code : ClientResponse) → Named P code a.entity → Named AnyEntity code a.entity
    any resp_200 n = tt
    any _ n = n

or_recover-IsAnswered :
    (P : Bytes → Type 0) (script : Bool) (h : Host) (req : Request) (r : Status × Client)
    → h.error_stream_ok ≡ true
    → Free b'\r' req.time_received
    → Built P script (is_head req.method) r
    → IsAnswered (is_head req.method) script P (or_recover h req r)
or_recover-IsAnswered P script h req (success, c) ok plain (code, (entity, is, framed)) = record {
  done = refl;
  entity = entity;
  named = subst (λ r. Named P r entity) (sym code) is;
  framed =
      subst (IsFramed c entity)
        (ap (λ r. carried (is_200 r && script) (is_head req.method) entity) (sym code)) framed;
  code_set = inl code;
}
or_recover-IsAnswered P script h req (failure, c) ok plain k =
    let c' = record c {
      resp_val = if is_200 c.resp_val then resp_500 else c.resp_val;
      output_length = 0;
      header_len = 0;
      body_len = 0;
      file_size = 0;
    } in
    let (done, framed, code, _) = build_error_response-IsFramed h c' req k ok plain in
    unfold recover in
    record {
      done = done;
      entity = (error_responses c'.resp_val).body;
      named =
          subst (λ r. Named P r (error_responses c'.resp_val).body) (sym code)
            (page-Named P c'.resp_val k);
      framed =
          subst (IsFramed (build_error_response h c' req).1 (error_responses c'.resp_val).body)
            (page-carried script (is_head req.method) _ _ (ap has_no_page code ∙ k)) framed;
      code_set = inr (ap has_no_page code ∙ k);
    }

-- For every request whose path was resolved, build_okay_response succeeds and stages a well-formed
-- message: its status line is that of the response code left in the client, it announces the length
-- of its entity, and it carries the entity whole where the method is not HEAD. Where it is HEAD, it
-- carries nothing, unless it is the output of a script, for the code 200: that is carried whole,
-- whatever the method. For the code 200 the entity is what the file reads, the listing of the
-- directory, or the output of the script; for every other code, one that has a page, it is the page. Supposed are texts without a carriage return, a clock text of
-- at most 31 bytes, a file whose size is still the one that `fstat` gave, CGI output of less than
-- 10 ^ 20 bytes, and memory for the error page.
pub build_okay_response-IsAnswered :
    (h : Host) (c : Client) (rp : ResolvedPath) (req : Request)
    → IsServing h c rp req
    → IsAnswered
        (is_head req.method)
        (is_script rp.path_type)
        (IsEntity rp.path_type h (cgi_call c rp req) rp req)
        (build_okay_response h c rp req)
unfolding build_okay_response
build_okay_response-IsAnswered h c rp req s =
    or_recover-IsAnswered _ (is_script rp.path_type) h req _ s.pages s.plain.time
      (build_by_type-Built rp.path_type h (record c { resp_val = resp_200 }) rp req refl refl s')
  where
    s' : IsServing h (record c { resp_val = resp_200 }) rp req
    s' = record {
      plain = s.plain;
      short = s.short;
      known = s.known;
      unchanged = s.unchanged;
      cgi_size = s.cgi_size;
      pages = s.pages;
    }
