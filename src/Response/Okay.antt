-- ===== src/Response/Okay.antt =====
-- response/build_okay_response.c: static files, and the choice between the builders.
pub mod Built
pub mod Pages
pub mod CgiLines
pub mod Cgi
pub mod Framing
pub mod Keeps
pub mod Listed
use simple_web_server.Base.{
  ℕ, ◌+◌, ◌-◌, ◌*◌, Bool, true, false, not, Option, none, some, List, [], ◌∷◌, ◌++◌, ◌&&◌, ltb,
  ◌==◌, if◌then◌else◌, length, get_or, drop, take,
}
use simple_web_server.Client.{
  Client, ClientResponse, resp_200, resp_414, resp_500, resp_501, Status, success, failure, File,
  has_flag, c_flag,
}
use simple_web_server.CString.{Bytes, codes, decimal, bounded_copy, before_delim}
use simple_web_server.Host.{Host, Dirent, PipeRead, bytes, interrupted, broken, CgiCall, CgiRun}
use simple_web_server.Request.{Request, path_max, method_to_string, version_to_string}
use simple_web_server.Resolve.{ResolvedPath, PathType, unknown, is_file, is_dir, is_cgi}
use simple_web_server.Response.Error.{server_version, is_head, build_error_response}
use simple_web_server.Response.Common.{shown, okay_header, fail_with, is_empty}
use simple_web_server.Response.Script.{
  max_header_buf, cgi_header, CgiOutput, output, no_output, grown, refused, read_cgi, script_path,
  cgi_call, finish_cgi, build_response_cgi,
}
use simple_web_server.Response.Listing.{
  start_html_string, end_html_string, empty_dir_html, dir_item, dir_items, local_body_len, dir_body,
  list_dir, is_dir_type, build_response_dir,
}

-- All that the `fread` loop copies.
abbrev pub file_body : Host → Option File → Bytes
file_body h none = []
file_body h (some f) = h.contents f.node

pub build_response_file : Host → Client → ResolvedPath → Request → Status × Client
build_response_file h c rp req = elim (h.time_text rp.last_mod) [
  | none ↦ fail_with resp_500 c
  | some mod_time ↦
      let header = okay_header req.time_received mod_time (shown rp.mime_type) rp.file_size in
      let whole = header ++ file_body h rp.file_ptr in
      if not h.out_stream_ok
      then (failure, c)
      else if is_head req.method
      then (
        success,
        record c {
          out_buf = some header;
          output_length = length header;
          header_len = length header;
          body_len = c.file_size;
        },
      )
      else (
        success,
        record c {
          out_buf = some whole;
          output_length = length whole;
          header_len = length header;
          body_len = length whole - length header;
        },
      )
]

-- The builder for the type of the path; a path of unknown type gets none.
pub build_by_type : PathType → Host → Client → ResolvedPath → Request → Status × Client
build_by_type is_cgi h c rp req = build_response_cgi h c rp req
build_by_type is_dir h c rp req = build_response_dir h c rp req
build_by_type is_file h c rp req = build_response_file h c rp req
build_by_type unknown h c rp req = (success, c)

abbrev pub is_200 : ClientResponse → Bool
is_200 resp_200 = true
is_200 _ = false

-- `if (status < 0)`: the output is reset, and an error page built instead.
pub recover : Host → Client → Request → Status × Client
recover h c req =
    build_error_response h
      (record c {
        resp_val = if is_200 c.resp_val then resp_500 else c.resp_val;
        output_length = 0;
        header_len = 0;
        body_len = 0;
        file_size = 0;
      })
      req

abbrev pub or_recover : Host → Request → Status × Client → Status × Client
or_recover h req (success, c) = (success, c)
or_recover h req (failure, c) = recover h c req

pub build_okay_response : Host → Client → ResolvedPath → Request → Status × Client
unfolding build_by_type recover
build_okay_response h c rp req =
    or_recover h req (build_by_type rp.path_type h (record c { resp_val = resp_200 }) rp req)
