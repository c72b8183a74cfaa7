-- ===== src/Tests/Requests.antt =====
-- The theorems on requests and paths at a request for a file.
use simple_web_server.Base.{
  ◌≡◌, ◌↔◌, ◌⊎◌, refl, true, false, some, [], ◌∷◌, inl, arith, length, ap, ◌∙◌,
}
use simple_web_server.Client.{success, failure, num_client_resp, resp_400}
use simple_web_server.CString.{to_lower, strrchr, Bytes, codes, strnstr, strtok}
use simple_web_server.CString.Tokens.{words, words-append, words-Free}
use simple_web_server.Logging.{empty_entry}
use simple_web_server.Request.{
  Request, http_get, http_1_0, zero_request, parse_request, request_line, header_end, found,
  path_has_traversal,
}
use simple_web_server.Request.Acceptable.{Acceptable}
use simple_web_server.Request.Accept.{parse_request-accepts}
use simple_web_server.Request.Checks.{StaysInside, path_has_traversal-false}
use simple_web_server.Request.Reject.{Defect, parse_request-Defect}
use simple_web_server.Request.Printed.{IsServable, print_request}
use simple_web_server.Request.RoundTrip.{parse_request-print_request}
use simple_web_server.Resolve.{get_mime_type_by_ext, zero_resolved, resolve_path, split_query}
use simple_web_server.Resolve.Confined.{split_query-StaysInside}
use simple_web_server.Resolve.Ends.{Ends}
use simple_web_server.Resolve.Outcome.{resolve_path-Ends}
use simple_web_server.Resolve.Mime.{get_mime_type_by_ext_case}
use simple_web_server.Resolve.Query.{split_query-words}
use simple_web_server.Tests.Fixtures.{host, client, world, message}

abbrev asked : Request
asked = record {
  method = http_get;
  version = http_1_0;
  time_received = codes "Thu";
  path = codes "/a.txt";
}

parse_request-accepts_example :
    let r =
      parse_request 0 (codes "Thu") (some message) 23 zero_request num_client_resp empty_entry in
    ((r.status ≡ success) × (r.request ≡ asked)) ↔ (
      (found (strnstr message header_end 23) ≡ true)
      × Acceptable (request_line message 23) asked
      × (asked.time_received ≡ codes "Thu"))
parse_request-accepts_example =
    parse_request-accepts 0 (codes "Thu") message 23 zero_request num_client_resp empty_entry asked

abbrev bad : Bytes
bad = codes "GET\r\n\r\n"

bad_fails :
    (parse_request 0 (codes "Thu") (some bad) 7 zero_request num_client_resp empty_entry).status
    ≡ failure
unfolding parse_request request_line strnstr strtok
bad_fails = refl

parse_request-Defect_example :
    let r = parse_request 0 (codes "Thu") (some bad) 7 zero_request num_client_resp empty_entry in
    ((found (strnstr bad header_end 7) ≡ false) × (r.resp ≡ resp_400))
    ⊎ ((found (strnstr bad header_end 7) ≡ true) × Defect (request_line bad 7) r.resp)
parse_request-Defect_example =
    parse_request-Defect 0 (codes "Thu") bad 7 zero_request num_client_resp empty_entry bad_fails

a-StaysInside : StaysInside (codes "/a.txt")
a-StaysInside = path_has_traversal-false (codes "/a.txt") (omega arith) none_found
  where
    none_found : path_has_traversal (codes "/a.txt") 6 ≡ false
    none_found = unfold path_has_traversal in unfold strnstr in refl

asked-IsServable : IsServable asked
asked-IsServable = record {
  method_is = inl refl;
  version_is = inl refl;
  absolute = refl;
  short = omega arith;
  inside = a-StaysInside;
  no_space = omega arith;
  no_return = omega arith;
  no_nul = omega arith;
}

parse_request-print_request_example :
    let buf = print_request asked [] in
    let parsed =
      parse_request 0
        (codes "Thu")
        (some buf)
        (length buf)
        zero_request
        num_client_resp
        empty_entry in
    (parsed.status ≡ success) × (parsed.request ≡ asked)
parse_request-print_request_example =
    parse_request-print_request asked [] 0 zero_request num_client_resp empty_entry asked-IsServable
      tt

split_query-StaysInside_example : StaysInside (split_query (codes "/a.txt")).0
split_query-StaysInside_example = split_query-StaysInside (codes "/a.txt") refl a-StaysInside

two_words : words b'?' (codes "./a?b") ≡ codes "./a" ∷ codes "b" ∷ []
two_words =
    words-append b'?' (codes "./a") (codes "b") (omega arith) (λ e. cc)
    ∙ ap (◌∷◌ (codes "./a")) (words-Free b'?' (codes "b") (omega arith) (λ e. cc))

split_query-words_example : split_query (codes "/a?b") ≡ (codes "./a", some (codes "b"))
split_query-words_example =
    split_query-words (codes "/a?b") (codes "./a") (codes "b" ∷ []) (omega arith) two_words

resolve_path-Ends_example :
    Ends host client zero_resolved world (resolve_path host client asked zero_resolved world)
resolve_path-Ends_example = resolve_path-Ends host client world asked zero_resolved

get_mime_type_by_ext_case_example :
    get_mime_type_by_ext host (codes "./a.HTML") 1 ≡ get_mime_type_by_ext host (codes "./b.html") 1
get_mime_type_by_ext_case_example =
    get_mime_type_by_ext_case host (codes "./a.HTML") (codes "./b.html") (codes ".HTML")
      (codes ".html") 1 upper lower (unfold to_lower in refl)
  where
    upper : strrchr (codes "./a.HTML") b'.' ≡ some (codes ".HTML")
    upper = unfold strrchr in refl

    lower : strrchr (codes "./b.html") b'.' ≡ some (codes ".html")
    lower = unfold strrchr in refl
