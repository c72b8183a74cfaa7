-- ===== src/Request.antt =====
-- requests/parse_request.h and requests/parse_request.c: the request line is split by `strtok` and
-- validated. The clock is an argument: `now` is what `strftime` wrote. The output struct and the
-- response code are returned beside the status.
pub mod Tokens
mod Line
pub mod Checks
pub mod Acceptable
pub mod Accept
pub mod Reject
pub mod Failure
pub mod Printed
pub mod RoundTrip
mod Tests
use simple_web_server.Base.{
  ℕ, Bool, true, false, not, ◌&&◌, ◌||◌, Option, none, some, List, [], ◌∷◌, ◌++◌, leb, ◌==◌,
  if◌then◌else◌, length, take, get_or,
}
use simple_web_server.Client.{
  ClientResponse, resp_400, resp_403, resp_414, resp_501, resp_505, Status, success, failure,
  has_flag, v_flag, l_flag,
}
use simple_web_server.CString.{Bytes, codes, c_string, strnstr, strncmp_zero, bounded_copy, strtok}
use simple_web_server.Logging.{LogEntry, log_append}

-- `enum http_method`
pub data HttpMethod : Type 0 where
  http_get http_post http_head http_put http_delete http_method_unknown : HttpMethod

-- `enum http_version`
pub data HttpVersion : Type 0 where
  http_0_9 http_1_0 http_1_1 http_2 http_3 http_version_unsupported http_version_unknown :
      HttpVersion

pub record Request : Type 0 where
  pub method : HttpMethod
  pub version : HttpVersion
  pub time_received : Bytes
  pub path : Bytes

-- `Request req = {0}`: the first constant of each enumeration, and empty texts.
abbrev pub zero_request : Request
zero_request = record { method = http_get; version = http_0_9; time_received = []; path = [] }

abbrev pub path_max : ℕ
path_max = 4096

abbrev pub crlf : Bytes
crlf = codes "\r\n"

abbrev pub header_end : Bytes
header_end = codes "\r\n\r\n"

-- One test of the token tables: `len == strlen(lit) && strncmp(tok, lit, len) == 0`.
unfoldable pub token_is : Bytes → ℕ → Bytes → Bool
token_is tok len lit = len == length lit && strncmp_zero tok lit len

unfoldable pub method_from_token : Bytes → ℕ → HttpMethod
method_from_token tok len =
    if len == 0
    then http_method_unknown
    else if token_is tok len (codes "GET")
    then http_get
    else if token_is tok len (codes "POST")
    then http_post
    else if token_is tok len (codes "HEAD")
    then http_head
    else http_method_unknown

unfoldable pub version_from_token : Bytes → ℕ → HttpVersion
version_from_token tok len =
    if len == 0
    then http_version_unknown
    else if token_is tok len (codes "HTTP/1.0")
    then http_1_0
    else if token_is tok len (codes "HTTP/1.1")
    then http_1_1
    else if token_is tok len (codes "HTTP/0.9")
    then http_version_unsupported
    else if token_is tok len (codes "HTTP/2.0")
    then http_version_unsupported
    else if token_is tok len (codes "HTTP/3.0")
    then http_version_unsupported
    else http_version_unknown

-- `method_to_string` and `version_to_string` of response/build_okay_response.c, which name a request
-- to a CGI script.
pub method_to_string : HttpMethod → Bytes
method_to_string http_get = codes "GET"
method_to_string http_post = codes "POST"
method_to_string http_head = codes "HEAD"
method_to_string _ = codes "UNKNOWN"

pub version_to_string : HttpVersion → Bytes
version_to_string http_1_0 = codes "HTTP/1.0"
version_to_string http_1_1 = codes "HTTP/1.1"
version_to_string http_version_unsupported = codes "HTTP_UNSUPPORTED"
version_to_string _ = codes "HTTP_UNKNOWN"

-- Whether a pointer is not NULL.
abbrev pub found {ℓ} : {A : Type ℓ} → Option A → Bool
found none = false
found (some a) = true

unfoldable pub path_has_traversal : Bytes → ℕ → Bool
path_has_traversal path len = found (strnstr path (codes "../") len)

-- The status with what is behind the output pointers.
pub record Parsed : Type 0 where
  pub status : Status
  pub request : Request
  pub resp : ClientResponse
  pub entry : LogEntry

abbrev pub determined_400 : Request → LogEntry → Parsed
determined_400 out le = record {
  status = failure;
  request = record out { method = http_method_unknown; version = http_version_unknown };
  resp = resp_400;
  entry = le;
}

-- DETERMINED_403, DETERMINED_414, DETERMINED_501 and DETERMINED_505
abbrev determined : ClientResponse → Request → LogEntry → Parsed
determined resp out le = record { status = failure; request = out; resp = resp; entry = le }

abbrev pub is_version_unknown : HttpVersion → Bool
is_version_unknown http_version_unknown = true
is_version_unknown _ = false

abbrev pub is_version_unsupported : HttpVersion → Bool
is_version_unsupported http_version_unsupported = true
is_version_unsupported _ = false

abbrev pub is_method_unknown : HttpMethod → Bool
is_method_unknown http_method_unknown = true
is_method_unknown _ = false

abbrev pub is_method_post : HttpMethod → Bool
is_method_post http_post = true
is_method_post _ = false

-- The checks behind the token split.
pub check_fields : Request → ClientResponse → LogEntry → Parsed
check_fields out resp le =
    if not (get_or out.path 0 0 == b'/')
    then determined_400 out le
    else if is_version_unknown out.version
    then determined_400 out le
    else if is_version_unsupported out.version
    then determined resp_505 out le
    else if path_has_traversal out.path (length out.path)
    then determined resp_403 out le
    else if is_method_unknown out.method
    then determined resp_501 out le
    else if is_method_post out.method
    then determined resp_501 out le
    else record { status = success; request = out; resp = resp; entry = le }

-- `if (method && path && version && !extra)`
pub check_tokens :
    Option Bytes
    → Option Bytes
    → Option Bytes
    → Option Bytes
    → Request
    → ClientResponse
    → LogEntry
    → Parsed
unfolding check_fields
check_tokens (some method) (some path) (some version) none out resp le =
    let out' : Request = record out {
      method = method_from_token method (length method);
      version = version_from_token version (length version);
      path = bounded_copy path path_max;
    } in
    if leb path_max (length path) then determined resp_414 out' le else check_fields out' resp le
check_tokens _ _ _ _ out resp le = determined_400 out le

-- The four `strtok` calls.
pub parse_line : Bytes → Request → ClientResponse → LogEntry → Parsed
unfolding check_tokens
parse_line line_buf out resp le =
    let first = strtok b' ' line_buf in
    let second = strtok b' ' first.1 in
    let third = strtok b' ' second.1 in
    let fourth = strtok b' ' third.1 in check_tokens first.0 second.0 third.0 fourth.0 out resp le

-- `first_line ? first_line - buf : len`
pub line_length : Bytes → ℕ → ℕ
line_length buf len = elim (strnstr buf crlf len) [ none ↦ len | some i ↦ i ]

-- What `line_buf` holds as a C string.
unfoldable pub request_line : Bytes → ℕ → Bytes
unfolding line_length
request_line buf len = c_string (take (line_length buf len) buf)

abbrev pub logs_enabled : ℕ → Bool
logs_enabled app_flags = has_flag app_flags v_flag || has_flag app_flags l_flag

-- `"%s \"%s\" "`
abbrev pub request_note : Bytes → Bytes → Bytes
request_note time line = time ++ (codes " \"" ++ (line ++ codes "\" "))

-- The line is noted in the log entry if the server logs.
pub log_request : ℕ → Bytes → Bytes → LogEntry → LogEntry
log_request app_flags now line le =
    if logs_enabled app_flags then log_append le (request_note now line) else le

unfoldable pub parse_request :
    ℕ → Bytes → Option Bytes → ℕ → Request → ClientResponse → LogEntry → Parsed
unfolding parse_line log_request
parse_request app_flags now none len out resp le = determined_400 out le
parse_request app_flags now (some buf) len out resp le =
    if len == 0 || not (found (strnstr buf header_end len))
    then determined_400 out le
    else let line = request_line buf len in
      parse_line line (record out { time_received = now }) resp (log_request app_flags now line le)
