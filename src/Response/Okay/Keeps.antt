-- ===== src/Response/Okay/Keeps.antt =====
-- The response builders leave the socket and the stream of a connection alone.
use simple_web_server.Base.{◌≡◌, refl, ◌∙◌, List, arith}
use simple_web_server.Client.{Client, resp_200, Status, success, failure}
use simple_web_server.CString.{Bytes}
use simple_web_server.Host.{Host, CgiRun, Dirent}
use simple_web_server.Request.{Request}
use simple_web_server.Resolve.{ResolvedPath, PathType, unknown, is_file, is_dir, is_cgi}
use simple_web_server.Response.Error.{build_error_response}
use simple_web_server.Response.Script.{finish_cgi, build_response_cgi}
use simple_web_server.Response.Listing.{list_dir, build_response_dir}
use simple_web_server.Response.Okay.{
  build_response_file, build_by_type, recover, or_recover, build_okay_response,
}

pub record Keeps (c : Client) (d : Client) : Type 0 where
  pub same_fd : d.fd ≡ c.fd
  pub same_file : d.file_ptr ≡ c.file_ptr
  pub same_sent : d.output_sent ≡ c.output_sent

pub build_error_response-Keeps :
    (h : Host) (c : Client) (req : Request) → Keeps c (build_error_response h c req).1
unfolding build_error_response
build_error_response-Keeps h c req = ground arith

build_response_file-Keeps :
    (h : Host) (c : Client) (rp : ResolvedPath) (req : Request)
    → Keeps c (build_response_file h c rp req).1
unfolding build_response_file
build_response_file-Keeps h c rp req = ground arith

finish_cgi-Keeps :
    (h : Host) (c : Client) (req : Request) (run : CgiRun) (s : Bytes)
    → Keeps c (finish_cgi h c req run s).1
unfolding finish_cgi
finish_cgi-Keeps h c req run s = ground arith

list_dir-Keeps :
    (h : Host) (c : Client) (rp : ResolvedPath) (req : Request) (p : Bytes) (es : List Dirent)
    → Keeps c (list_dir h c rp req p es).1
unfolding list_dir
list_dir-Keeps h c rp req p es = ground arith

build_response_dir-Keeps :
    (h : Host) (c : Client) (rp : ResolvedPath) (req : Request)
    → Keeps c (build_response_dir h c rp req).1
unfolding build_response_dir
build_response_dir-Keeps h c rp req = ground arith

build_response_cgi-Keeps :
    (h : Host) (c : Client) (rp : ResolvedPath) (req : Request)
    → Keeps c (build_response_cgi h c rp req).1
unfolding build_response_cgi
build_response_cgi-Keeps h c rp req = ground arith

build_by_type-Keeps :
    (t : PathType) (h : Host) (c : Client) (rp : ResolvedPath) (req : Request)
    → Keeps c (build_by_type t h c rp req).1
unfolding build_by_type
build_by_type-Keeps is_cgi h c rp req = build_response_cgi-Keeps h c rp req
build_by_type-Keeps is_dir h c rp req = build_response_dir-Keeps h c rp req
build_by_type-Keeps is_file h c rp req = build_response_file-Keeps h c rp req
build_by_type-Keeps unknown h c rp req = record {
  same_fd = refl;
  same_file = refl;
  same_sent = refl;
}

or_recover-Keeps :
    (h : Host) (c : Client) (req : Request) (r : Status × Client)
    → Keeps c r.1
    → Keeps c (or_recover h req r).1
unfolding recover
or_recover-Keeps h c req (success, d) k = k
or_recover-Keeps h c req (failure, d) k =
    let l = build_error_response-Keeps h _ req in
    record {
      same_fd = l.same_fd ∙ k.same_fd;
      same_file = l.same_file ∙ k.same_file;
      same_sent = l.same_sent ∙ k.same_sent;
    }

pub build_okay_response-Keeps :
    (h : Host) (c : Client) (rp : ResolvedPath) (req : Request)
    → Keeps c (build_okay_response h c rp req).1
unfolding build_okay_response
build_okay_response-Keeps h c rp req =
    let k = build_by_type-Keeps rp.path_type h (record c { resp_val = resp_200 }) rp req in
    or_recover-Keeps h c req
      (build_by_type rp.path_type h (record c { resp_val = resp_200 }) rp req)
      (record { same_fd = k.same_fd; same_file = k.same_file; same_sent = k.same_sent })
