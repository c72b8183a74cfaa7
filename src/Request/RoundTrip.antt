-- ===== src/Request/RoundTrip.antt =====
-- A printed request is parsed back.
use simple_web_server.Base.{
  ℕ, ◌≡◌, refl, ◌⊎◌, inl, inr, sym, ap, true, some, List, ◌++◌, append_assoc, arith, length,
  Option-cases,
}
use simple_web_server.Client.{ClientResponse, success}
use simple_web_server.CString.{Bytes, codes, strnstr, find}
use simple_web_server.CString.Search.{Free, Free-append, strnstr-find, find-ne-none}
use simple_web_server.Logging.{LogEntry}
use simple_web_server.Request.{
  HttpMethod, http_get, http_head, HttpVersion, http_1_0, http_1_1, Request, found, crlf,
  header_end, request_line, parse_request, method_to_string, version_to_string,
}
use simple_web_server.Request.Acceptable.{Acceptable}
use simple_web_server.Request.Accept.{parse_request-accepts}
use simple_web_server.Request.Printed.{
  print_line, print_headers, print_request, IsServable, AllText, headers-Free, end_in_headers,
  method-IsPlain, version-IsPlain, path-IsPlain, joined-words, joined-no_return, joined-no_nul,
  request_line-append,
}

served_method :
    (k : HttpMethod)
    → (k ≡ http_get) ⊎ (k ≡ http_head)
    → ((method_to_string k ≡ codes "GET") × (k ≡ http_get))
      ⊎ ((method_to_string k ≡ codes "HEAD") × (k ≡ http_head))
unfolding method_to_string
served_method k (inl e) = inl (rw e, e)
served_method k (inr e) = inr (rw e, e)

served_version :
    (k : HttpVersion)
    → (k ≡ http_1_0) ⊎ (k ≡ http_1_1)
    → ((version_to_string k ≡ codes "HTTP/1.0") × (k ≡ http_1_0))
      ⊎ ((version_to_string k ≡ codes "HTTP/1.1") × (k ≡ http_1_1))
unfolding version_to_string
served_version k (inl e) = inl (rw e, e)
served_version k (inr e) = inr (rw e, e)

found-find : (t a b : Bytes) → t ≡ a ++ (header_end ++ b) → found (find header_end t) ≡ true
found-find t a b e = elim (Option-cases (find header_end t)) [
  | inl missing ↦ absurd (find-ne-none header_end a b (rw e at missing))
  | inr (i, h) ↦ ap found h
]

module _ (r : Request) (hs : List Bytes) (s : IsServable r) (f : AllText hs) where
  plain_line : Free 0 (print_line r)
  unfolding print_line
  plain_line =
      joined-no_nul _ r.path _ (method-IsPlain _ s.method_is) (path-IsPlain r s)
        (version-IsPlain _ s.version_is)

  message-Free : Free 0 (print_request r hs)
  unfolding print_request
  message-Free =
      Free-append 0 (print_line r) (crlf ++ print_headers hs) plain_line
        (omega arith, (omega arith, headers-Free hs f))

  message-line : request_line (print_request r hs) (length (print_request r hs)) ≡ print_line r
  message-line =
      unfold print_request print_line in
      request_line-append (print_line r) (print_headers hs) _
        (joined-no_return _ r.path _ (method-IsPlain _ s.method_is) (path-IsPlain r s)
          (version-IsPlain _ s.version_is))
        message-Free plain_line (omega arith)

  message-Acceptable : Acceptable (print_line r) r
  unfolding print_line
  message-Acceptable = record {
    method_token = method_to_string r.method;
    version_token = version_to_string r.version;
    tokens =
        joined-words _ r.path _ (method-IsPlain _ s.method_is) (path-IsPlain r s)
          (version-IsPlain _ s.version_is);
    method_is = served_method r.method s.method_is;
    version_is = served_version r.version s.version_is;
    absolute = s.absolute;
    short = s.short;
    inside = s.inside;
  }

  message-ends :
      found (strnstr (print_request r hs) header_end (length (print_request r hs))) ≡ true
  message-ends =
      let (a, b, e) = end_in_headers hs in
      rw
        (strnstr-find (print_request r hs) header_end (length (print_request r hs)) message-Free
          (omega arith))
        (found-find _ (print_line r ++ a) b
          (unfold print_request in rw e (sym (append_assoc (print_line r) a (header_end ++ b)))))

-- parse_request reads back what a client prints: any servable request, with any header fields that
-- hold no NUL, succeeds, and the struct holds the method, the version and the path.
pub parse_request-print_request :
    (r : Request) (hs : List Bytes) (app_flags : ℕ) (out : Request) (resp : ClientResponse)
    (le : LogEntry)
    → IsServable r
    → AllText hs
    → let buf = print_request r hs in
      let parsed = parse_request app_flags r.time_received (some buf) (length buf) out resp le in
      (parsed.status ≡ success) × (parsed.request ≡ r)
parse_request-print_request r hs app_flags out resp le s f =
    (parse_request-accepts app_flags r.time_received _ _ out resp le r).1
      (message-ends r hs s f, rw (message-line r hs s f) (message-Acceptable r hs s f), refl)
