-- ===== src/Tests/Responses.antt =====
-- The theorems on responses at a file, an error and a script.
use simple_web_server.Base.{◌<◌, ◌≡◌, refl, false, some, List, [], ◌∷◌, arith, length}
use simple_web_server.Client.{Client, resp_200, resp_404, success, has_flag}
use simple_web_server.CString.{codes}
use simple_web_server.Host.{PipeRead, bytes, interrupted}
use simple_web_server.Request.{Request, http_get, http_1_0}
use simple_web_server.Resolve.{ResolvedPath, is_file, zero_resolved}
use simple_web_server.Response.Error.{error_responses, build_error_response}
use simple_web_server.Response.Error.Framing.{body_unless, build_error_response-IsFramed}
use simple_web_server.Response.Message.{IsFramed}
use simple_web_server.Response.Script.{cgi_call, read_cgi, output, cgi_header, build_response_cgi}
use simple_web_server.Response.Okay.{build_okay_response}
use simple_web_server.Response.Okay.Cgi.{
  Fits, in_room, when_full, again, again_when_full, at_end, read_cgi-all_bytes,
  length-cgi_header-lt, build_response_cgi-IsFramed,
}
use simple_web_server.Response.Okay.Built.{FileEntity}
use simple_web_server.Response.Okay.Framing.{IsServing, IsAnswered, build_okay_response-IsAnswered}
use simple_web_server.Tests.Fixtures.{host, host-IsReliable, client}

abbrev asked : Request
asked = record {
  method = http_get;
  version = http_1_0;
  time_received = codes "Thu";
  path = codes "/a.txt";
}

abbrev resolved : ResolvedPath
resolved = record zero_resolved {
  file_ptr = some (record { handle = 1; node = 1 });
  file_size = 2;
  mime_type = some (codes "text/plain");
  path_type = is_file;
}

resolved-IsServing : IsServing host client resolved asked
resolved-IsServing = record {
  plain = record { time = omega arith; mod_time = host-IsReliable.time_plain; mime = omega arith };
  short = omega arith;
  known = λ e. cc;
  unchanged = λ e. refl;
  cgi_size = λ out e. host-IsReliable.cgi_size (cgi_call client resolved asked) out e;
  pages = refl;
}

build_okay_response-IsAnswered_example :
    IsAnswered false false
      (FileEntity host resolved)
      (build_okay_response host client resolved asked)
build_okay_response-IsAnswered_example =
    build_okay_response-IsAnswered host client resolved asked resolved-IsServing

abbrev missing : Client
missing = record client { resp_val = resp_404 }

build_error_response-IsFramed_example :
    let r = build_error_response host missing asked in
    (r.0 ≡ success)
    × IsFramed r.1
        (error_responses resp_404).body
        (body_unless false (error_responses resp_404).body)
    × (r.1.resp_val ≡ resp_404)
    × (r.1.body_len ≡ length (error_responses resp_404).body)
build_error_response-IsFramed_example =
    build_error_response-IsFramed host missing asked refl refl (omega arith)

-- Reads that fill a buffer of four bytes and its double.
abbrev reads : List PipeRead
reads =
    bytes (codes "ok")
    ∷ interrupted
    ∷ bytes (codes "!!")
    ∷ interrupted
    ∷ bytes (codes "more")
    ∷ bytes (codes "and more")
    ∷ []

reads-Fits : Fits 4 0 reads
reads-Fits = in_room (omega arith) (omega arith) (
    again (omega arith) (
      in_room (omega arith) (omega arith) (
        again_when_full (
          in_room (omega arith) (omega arith)
            (when_full (omega arith) (omega arith) (at_end (omega arith)))))))

read_cgi-all_bytes_example : read_cgi host reads 4 [] ≡ output (codes "ok!!moreand more")
read_cgi-all_bytes_example = read_cgi-all_bytes host reads 4 [] (λ n. refl) reads-Fits

length-cgi_header-lt_example : length (cgi_header (codes "Thu") 2) < 750
length-cgi_header-lt_example = length-cgi_header-lt (codes "Thu") 2 (omega arith) (omega arith)

abbrev okay : Client
okay = record client { resp_val = resp_200 }

build_response_cgi-IsFramed_example :
    let r = build_response_cgi host okay resolved asked in
    (r.0 ≡ success) × (r.1.resp_val ≡ resp_200) × IsFramed r.1 (codes "ok") (codes "ok")
build_response_cgi-IsFramed_example =
    build_response_cgi-IsFramed host okay resolved asked refl (omega arith) (omega arith)
      (unfold has_flag in refl) refl (omega arith) refl refl refl refl (λ n. refl)
      (in_room (omega arith) (omega arith) (at_end (omega arith))) (omega arith)
