-- ===== src/Response/Script.antt =====
-- response/build_okay_response.c: the output of a CGI script.
use simple_web_server.Base.{
  ℕ, ◌+◌, ◌-◌, ◌*◌, Bool, not, none, some, List, [], ◌∷◌, ◌++◌, ◌&&◌, ltb, ◌==◌, if◌then◌else◌,
  length, take,
}
use simple_web_server.Client.{
  Client, resp_414, resp_500, resp_501, Status, success, failure, has_flag, c_flag,
}
use simple_web_server.CString.{Bytes, codes, decimal, bounded_copy, before_delim}
use simple_web_server.Host.{Host, PipeRead, bytes, interrupted, broken, CgiCall, CgiRun}
use simple_web_server.Request.{Request, path_max, method_to_string, version_to_string}
use simple_web_server.Resolve.{ResolvedPath}
use simple_web_server.Response.Error.{server_version}
use simple_web_server.Response.Common.{fail_with, is_empty}

abbrev pub max_header_buf : ℕ
max_header_buf = 750

unfoldable pub cgi_header : Bytes → ℕ → Bytes
cgi_header time content_length =
    codes "HTTP/1.0 200 OK\r\nDate: "
    ++ (time
        ++ (codes "\r\nServer: "
            ++ (server_version
                ++ (codes "\r\nContent-Type: text/html\r\nContent-Length: "
                    ++ (decimal content_length ++ codes "\r\nConnection: close\r\n\r\n")))))

-- The loop that reads the pipe: the bytes so far, and the capacity that is doubled when it is full.
pub data CgiOutput : Type 0 where
  output : Bytes → CgiOutput
  no_output : CgiOutput

abbrev pub grown : ℕ → Bytes → ℕ
grown capacity resp = if length resp == capacity then capacity * 2 else capacity

-- A full buffer that cannot be grown.
abbrev pub refused : Host → ℕ → Bytes → Bool
refused h capacity resp = length resp == capacity && not (h.malloc_ok (capacity * 2))

-- One `read` stores no more than there is room for, and no byte means the end of the file.
unfoldable pub read_cgi : Host → List PipeRead → ℕ → Bytes → CgiOutput
read_cgi h [] capacity resp = if refused h capacity resp then no_output else output resp
read_cgi h (broken ∷ reads) capacity resp = no_output
read_cgi h (interrupted ∷ reads) capacity resp =
    let rest = read_cgi h reads (grown capacity resp) resp in
    if refused h capacity resp then no_output else rest
read_cgi h (bytes s ∷ reads) capacity resp =
    let chunk = take (grown capacity resp - length resp) s in
    let rest = read_cgi h reads (grown capacity resp) (resp ++ chunk) in
    if refused h capacity resp then no_output else if is_empty chunk then output resp else rest

-- The loop over `req->path` that writes `local_path_buf`, up to a question mark.
abbrev pub script_path : Bytes → Bytes
script_path path = b'.' ∷ before_delim b'?' path

abbrev pub cgi_call : Client → ResolvedPath → Request → CgiCall
cgi_call c rp req = record {
  script_name = script_path req.path;
  query_string = rp.query_string;
  request_method = method_to_string req.method;
  server_protocol = version_to_string req.version;
  gateway_interface = codes "CGI/1.1";
  remote_addr = c.client_addr;
  server_software = server_version;
}

-- Behind the loop: the child's status, the header, and the two copies into `out_buf`.
unfoldable pub finish_cgi : Host → Client → Request → CgiRun → Bytes → Status × Client
finish_cgi h c req run resp =
    let header_text = cgi_header req.time_received (length resp) in
    let header_len = length header_text in
    let header = bounded_copy header_text max_header_buf in
    if not run.waitpid_ok
    then fail_with resp_500 c
    else if not run.exited_zero
    then fail_with resp_500 c
    else if not (h.malloc_ok (header_len + length resp))
    then (failure, record c { out_buf = none; resp_val = resp_500 })
    else (
      success,
      record c {
        out_buf = some (take header_len header ++ resp);
        output_length = header_len + length resp;
        body_len = length resp;
        header_len = header_len;
      },
    )

unfoldable pub build_response_cgi : Host → Client → ResolvedPath → Request → Status × Client
unfolding finish_cgi
build_response_cgi h c rp req =
    let run = h.cgi_run (cgi_call c rp req) in
    if not (has_flag h.app_flags c_flag)
    then fail_with resp_501 c
    else if not run.pipe_ok
    then fail_with resp_500 c
    else if ltb path_max (length rp.query_string)
    then fail_with resp_414 c
    else if not run.fork_ok
    then fail_with resp_500 c
    else if not run.malloc_ok
    then fail_with resp_500 c
    else elim (read_cgi h run.reads 8192 []) [
      | no_output ↦ fail_with resp_500 c
      | output resp ↦ finish_cgi h c req run resp
    ]
