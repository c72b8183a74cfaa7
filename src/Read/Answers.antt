-- ===== src/Read/Answers.antt =====
-- Whatever a path is led to, the client gets a framed message.
use simple_web_server.Base.{
  ℕ, ◌<◌, ◌≤◌, ◌^◌, ◌≡◌, ◌≢◌, refl, sym, ap, subst, ◌∙◌, ◌⊎◌, inl, inr, Bool, true, false, Option,
  none, some, [], arith, length,
}
use simple_web_server.Client.{Client, ClientResponse, Status, success}
use simple_web_server.CString.{Bytes}
use simple_web_server.CString.Search.{Free}
use simple_web_server.Host.{Host, Stat, CgiCall, World}
use simple_web_server.Read.{answer_resolved}
use simple_web_server.Request.{Request}
use simple_web_server.Resolve.{
  Resolved, unknown, is_file, is_cgi, is_dir, zero_resolved, resolve_path, get_mime_type_by_ext,
}
use simple_web_server.Resolve.Ends.{Serves, Lists, Leftover, not_found, no_stat, no_cgi}
use simple_web_server.Resolve.Outcome.{resolve_path-Ends}
use simple_web_server.Resolve.Mime.{get_mime_type_by_ext-Free}
use simple_web_server.Response.Error.{has_no_page, is_head, error_responses, build_error_response}
use simple_web_server.Response.Error.Framing.{build_error_response-IsFramed}
use simple_web_server.Response.Common.{shown}
use simple_web_server.Response.Message.{IsFramed}
use simple_web_server.Response.Okay.Built.{is_script, IsEntity}
use simple_web_server.Response.Script.{cgi_call, output, read_cgi}
use simple_web_server.Response.Okay.{file_body, build_okay_response}
use simple_web_server.Response.Okay.Framing.{
  Named, page-Named, IsAnswered, page-carried, build_okay_response-IsAnswered,
}

-- What is supposed of the host: texts that go into a header as they are hold no carriage return, a
-- file that is opened reads as many bytes as `fstat` says, the output of a CGI script is of less than
-- 10 ^ 20 bytes, and there is memory for an error page.
pub record IsReliable (h : Host) : Type 0 where
  pub now_plain : Free b'\r' h.now
  pub now_short : length h.now ≤ 31
  pub time_plain : (t : ℕ) (m : Bytes) → h.time_text t ≡ some m → Free b'\r' m
  pub magic_plain : (n : ℕ) (m : Bytes) → h.magic_descriptor n ≡ some m → Free b'\r' m
  pub contents_size : (n : ℕ) (st : Stat) → h.fstat n ≡ some st → length (h.contents n) ≡ st.st_size
  pub cgi_size :
      (call : CgiCall) (out : Bytes)
      → read_cgi h (h.cgi_run call).reads 8192 [] ≡ output out
      → length out < 10 ^ 20
  pub pages : h.error_stream_ok ≡ true

-- The client of an answer, with a framed message in its buffer.
abbrev pub Answers : Bool → Bool → (Bytes → Type 0) → Client → Type 0
Answers head script P c = IsAnswered head script P (success, c)

-- What is asked for where the path was resolved like this.
abbrev pub IsAsked : Host → Request → Resolved → Bytes → Type 0
IsAsked h req r = IsEntity r.rp.path_type h (cgi_call r.client r.rp req) r.rp req

module _ (h : Host) (reliable : IsReliable h) (c : Client) (w : World) (req : Request) where
  pub refused-Answers :
      (script : Bool) (P : Bytes → Type 0) (d : Client)
      → has_no_page d.resp_val ≡ false
      → Free b'\r' req.time_received
      → Answers (is_head req.method) script P (build_error_response h d req).1
  refused-Answers script P d k plain =
      let (done, framed, code, _) = build_error_response-IsFramed h d req k reliable.pages plain in
      record {
        done = refl;
        entity = (error_responses d.resp_val).body;
        named =
            subst (λ r. Named P r (error_responses d.resp_val).body) (sym code)
              (page-Named P d.resp_val k);
        framed =
            subst (IsFramed (build_error_response h d req).1 (error_responses d.resp_val).body)
              (page-carried script (is_head req.method) _ _ (ap has_no_page code ∙ k)) framed;
        code_set = inr (ap has_no_page code ∙ k);
      }

  plain_mime :
      (r : Resolved)
      → Serves h c w r ⊎ Lists c zero_resolved w r
      → Free b'\r' (shown r.rp.mime_type)
  plain_mime r (inl s) = elim s.mime [
    | inl e ↦ rw e (omega arith)
    | inr (path, e) ↦ rw e (
        shown-Free (get_mime_type_by_ext h path s.file.node)
          (λ m g. get_mime_type_by_ext-Free h path s.file.node m reliable.magic_plain g))
  ]
    where
      shown-Free :
          (o : Option Bytes) → ((m : Bytes) → o ≡ some m → Free b'\r' m) → Free b'\r' (shown o)
      shown-Free none f = omega arith
      shown-Free (some m) f = f m refl
  plain_mime r (inr l) = rw l.mime (omega arith)

  served-size :
      (r : Resolved)
      → Serves h c w r ⊎ Lists c zero_resolved w r
      → r.rp.path_type ≡ is_file
      → length (file_body h r.rp.file_ptr) ≡ r.rp.file_size
  served-size r (inl s) e =
      ap (λ o. length (file_body h o)) s.rp_file
      ∙ reliable.contents_size s.file.node s.stat s.found_stat
      ∙ sym s.size
  served-size r (inr l) e = absurd (clash (sym l.listed ∙ e))
    where
      clash : is_dir ≡ is_file → ⊥
      clash q = cc

  known_type :
      (r : Resolved) → Serves h c w r ⊎ Lists c zero_resolved w r → r.rp.path_type ≢ unknown
  known_type r s u = elim s [
    | inl f ↦ elim f.known [ inl e ↦ absurd (file (sym e ∙ u)) | inr e ↦ absurd (cgi (sym e ∙ u)) ]
    | inr l ↦ dir (sym l.listed ∙ u)
  ]
    where
      file : is_file ≡ unknown → ⊥
      file q = cc

      cgi : is_cgi ≡ unknown → ⊥
      cgi q = cc

      dir : is_dir ≡ unknown → ⊥
      dir q = cc

  served-Answers :
      (r : Resolved)
      → Serves h c w r ⊎ Lists c zero_resolved w r
      → req.time_received ≡ h.now
      → Answers
          (is_head req.method)
          (is_script r.rp.path_type)
          (IsAsked h req r)
          (build_okay_response h r.client r.rp req).1
  served-Answers r s t =
      let a = build_okay_response-IsAnswered h r.client r.rp req (record {
        plain = record {
          time = rw t reliable.now_plain;
          mod_time = reliable.time_plain;
          mime = plain_mime r s;
        };
        short = rw t reliable.now_short;
        known = known_type r s;
        unchanged = served-size r s;
        cgi_size = λ out e. reliable.cgi_size (cgi_call r.client r.rp req) out e;
        pages = reliable.pages;
      }) in
      record {
        done = refl;
        entity = a.entity;
        named = a.named;
        framed = a.framed;
        code_set = a.code_set;
      }

  pub resolved-Answers :
      req.time_received ≡ h.now
      → let r = resolve_path h c req zero_resolved w in
        Answers
          (is_head req.method)
          (is_script r.rp.path_type)
          (IsAsked h req r)
          (answer_resolved h req r r.status).client
  unfolding answer_resolved
  resolved-Answers t = elim (resolve_path-Ends h c w req zero_resolved) [
    | inl s ↦ at_status s.done (served-Answers (resolve_path h c req zero_resolved w) (inl s) t)
    | inr (inl l) ↦
        at_status l.done (served-Answers (resolve_path h c req zero_resolved w) (inr l) t)
    | inr (inr f) ↦ at_status f.refused (
        refused-Answers _ _ (resolve_path h c req zero_resolved w).client
          (ap (λ (x : Client). has_no_page x.resp_val) f.marked ∙ page _ f.leftover)
          (rw t reliable.now_plain))
  ]
    where
      at_status :
          {s : Status}
          → (resolve_path h c req zero_resolved w).status ≡ s
          → Answers
              (is_head req.method)
              (is_script (resolve_path h c req zero_resolved w).rp.path_type)
              (IsAsked h req (resolve_path h c req zero_resolved w))
              (answer_resolved h req (resolve_path h c req zero_resolved w) s).client
          → Answers
              (is_head req.method)
              (is_script (resolve_path h c req zero_resolved w).rp.path_type)
              (IsAsked h req (resolve_path h c req zero_resolved w))
              (answer_resolved h req
                (resolve_path h c req zero_resolved w)
                (resolve_path h c req zero_resolved w).status).client
      at_status e a =
          subst
            (λ s.
              Answers (is_head req.method)
                (is_script (resolve_path h c req zero_resolved w).rp.path_type)
                (IsAsked h req (resolve_path h c req zero_resolved w))
                (answer_resolved h req (resolve_path h c req zero_resolved w) s).client)
            (sym e) a

      page : (e : ClientResponse) {r : Resolved} → Leftover w r e → has_no_page e ≡ false
      page e (not_found (inl q) _ _) = ap has_no_page q
      page e (not_found (inr q) _ _) = ap has_no_page q
      page e (no_stat f _ _) = refl
      page e (no_cgi f _ _) = refl
