-- ===== src/Request/Tests.antt =====
-- Runs of parse_request on requests of the source's own test suite.
use simple_web_server.Base.{◌≡◌, refl, some, length}
use simple_web_server.Client.{has_flag, num_client_resp}
use simple_web_server.CString.{Bytes, codes, strnstr, strtok, bounded_copy, strncmp_zero}
use simple_web_server.Logging.{empty_entry}
use simple_web_server.Request.{
  Parsed, http_get, http_1_1, zero_request, parse_request, request_line, method_from_token,
  version_from_token, path_has_traversal, token_is,
}

abbrev parsed : Bytes → Parsed
parsed buf =
    parse_request 0 (codes "now") (some buf) (length buf) zero_request num_client_resp empty_entry

get_root : (parsed (codes "GET / HTTP/1.1\r\nHost: a\r\n\r\n")).request ≡ record {
  method = http_get;
  version = http_1_1;
  time_received = codes "now";
  path = codes "/";
}
unfolding parse_request request_line has_flag strnstr strtok method_from_token version_from_token
    path_has_traversal bounded_copy strncmp_zero token_is
get_root = refl
