-- ===== src/Request/Reject.antt =====
-- Every error code of parse_request names a defect that the request line has.
use simple_web_server.Base.{
  ℕ, ◌≤◌, ◌≡◌, ◌≢◌, ◌⊎◌, inl, inr, ◌∙◌, sym, ap, true, false, none, some, [], ◌∷◌, ◌++◌, arith,
  length, Bool-cases, Option-cases, leb, get_or, take, ◌<◌,
}
use simple_web_server.Client.{
  ClientResponse, resp_400, resp_403, resp_414, resp_501, resp_505, failure,
}
use simple_web_server.CString.{Bytes, codes, strnstr, find}
use simple_web_server.CString.Search.{Free, find-split}
use simple_web_server.CString.Tokens.{words, words-AllFree}
use simple_web_server.Logging.{LogEntry}
use simple_web_server.Request.{
  HttpMethod, http_method_unknown, http_post, HttpVersion, http_version_unknown,
  http_version_unsupported, Request, Parsed, path_max, path_has_traversal, found, check_fields,
  check_tokens, parse_line, is_version_unknown, is_version_unsupported, is_method_unknown,
  is_method_post, request_line, header_end, parse_request,
}
use simple_web_server.Request.Tokens.{
  NamesMethod, NamesVersion, IsUnsupported, method_from_token-NamesMethod,
  version_from_token-NamesVersion,
}
use simple_web_server.Request.Line.{parse_line_three, parse_line_other}
use simple_web_server.Request.Checks.{
  three-cases, filled, path_has_traversal-find, bounded_copy_short, check_tokens-short,
  parse_request_complete, parse_request_incomplete, line_Free,
}

-- The defects, each with the code that the header file documents for it.
pub data Defect (line : Bytes) : ClientResponse → Type 0 where
  word_count : ((m p v : Bytes) → words b' ' line ≢ m ∷ p ∷ v ∷ []) → Defect line resp_400
  too_long :
      (m p v : Bytes)
      → words b' ' line ≡ m ∷ p ∷ v ∷ []
      → path_max ≤ length p
      → Defect line resp_414
  relative :
      (m p v : Bytes)
      → words b' ' line ≡ m ∷ p ∷ v ∷ []
      → get_or p 0 0 ≢ b'/'
      → Defect line resp_400
  no_version :
      (m p v : Bytes)
      → words b' ' line ≡ m ∷ p ∷ v ∷ []
      → NamesVersion v http_version_unknown
      → Defect line resp_400
  old_version :
      (m p v : Bytes) → words b' ' line ≡ m ∷ p ∷ v ∷ [] → IsUnsupported v → Defect line resp_505
  climbs :
      (m p v a b : Bytes)
      → words b' ' line ≡ m ∷ p ∷ v ∷ []
      → p ≡ a ++ (codes "../" ++ b)
      → Defect line resp_403
  no_method :
      (m p v : Bytes)
      → words b' ' line ≡ m ∷ p ∷ v ∷ []
      → m ≢ codes "GET"
      → m ≢ codes "HEAD"
      → Defect line resp_501

abbrev Failed : Request → Parsed → Type 0
Failed out r =
    ((get_or out.path 0 0 ≢ b'/') × (r.resp ≡ resp_400))
    ⊎ ((is_version_unknown out.version ≡ true) × (r.resp ≡ resp_400))
    ⊎ ((is_version_unsupported out.version ≡ true) × (r.resp ≡ resp_505))
    ⊎ ((path_has_traversal out.path (length out.path) ≡ true) × (r.resp ≡ resp_403))
    ⊎ (((is_method_unknown out.method ≡ true) ⊎ (is_method_post out.method ≡ true))
        × (r.resp ≡ resp_501))

check_fields-Failed :
    (out : Request) (resp : ClientResponse) (le : LogEntry)
    → (check_fields out resp le).status ≡ failure
    → Failed out (check_fields out resp le)
unfolding check_fields
check_fields-Failed out resp le h = ground arith

climb :
    (p : Bytes)
    → path_has_traversal p (length p) ≡ true
    → Free 0 p
    → (a : Bytes) × (b : Bytes) × (p ≡ a ++ (codes "../" ++ b))
climb p h f = elim (Option-cases (find (codes "../") p)) [
  | inl e ↦ absurd (clash (sym h ∙ path_has_traversal-find p f ∙ ap found e))
  | inr (i, e) ↦ let (r, split, _, _) = find-split (codes "../") p i e in (take i p, r, split)
]
  where
    clash : true ≡ false → ⊥
    clash e = cc

unserved :
    (tok : Bytes) (k : HttpMethod)
    → NamesMethod tok k
    → (is_method_unknown k ≡ true) ⊎ (is_method_post k ≡ true)
    → (tok ≢ codes "GET") × (tok ≢ codes "HEAD")
unserved tok http_post n h = (λ e. ground arith, λ e. ground arith)
unserved tok http_method_unknown n h = (n.0, n.2)
unserved tok _ n h = absurd (ground arith)

unknown-version :
    (v : Bytes) (k : HttpVersion)
    → NamesVersion v k
    → is_version_unknown k ≡ true
    → NamesVersion v http_version_unknown
unknown-version v http_version_unknown n h = n
unknown-version v _ n h = absurd (ground arith)

version-IsUnsupported :
    (v : Bytes) (k : HttpVersion)
    → NamesVersion v k
    → is_version_unsupported k ≡ true
    → IsUnsupported v
version-IsUnsupported v http_version_unsupported n h = n
version-IsUnsupported v _ n h = absurd (ground arith)

Failed-Defect :
    (line m p v : Bytes) (out : Request) (r : Parsed)
    → Free 0 line
    → words b' ' line ≡ m ∷ p ∷ v ∷ []
    → length p < path_max
    → Failed (filled out m p v) r
    → Defect line r.resp
Failed-Defect line m p v out r f w h (inl (bad, e)) =
    rw e (relative m p v w (rw (bounded_copy_short p h) at bad))
Failed-Defect line m p v out r f w h (inr (inl (bad, e))) =
    rw e (no_version m p v w (unknown-version v _ (version_from_token-NamesVersion v) bad))
Failed-Defect line m p v out r f w h (inr (inr (inl (bad, e)))) =
    rw e (old_version m p v w (version-IsUnsupported v _ (version_from_token-NamesVersion v) bad))
Failed-Defect line m p v out r f w h (inr (inr (inr (inl (bad, e))))) =
    let free = rw w at (words-AllFree 0 b' ' line f) in
    let (a, b, split) = climb p (rw (bounded_copy_short p h) at bad) free.1.0 in
    rw e (climbs m p v a b w split)
Failed-Defect line m p v out r f w h (inr (inr (inr (inr (bad, e))))) =
    let (no_get, no_head) = unserved m _ (method_from_token-NamesMethod m) bad in
    rw e (no_method m p v w no_get no_head)

check_tokens-long_resp :
    (m p v : Bytes) (out : Request) (resp : ClientResponse) (le : LogEntry)
    → leb path_max (length p) ≡ true
    → (check_tokens (some m) (some p) (some v) none out resp le).resp ≡ resp_414
unfolding check_tokens
check_tokens-long_resp m p v out resp le h = rw h

parse_line-Defect :
    (line : Bytes) (out : Request) (resp : ClientResponse) (le : LogEntry)
    → Free 0 line
    → (parse_line line out resp le).status ≡ failure
    → Defect line (parse_line line out resp le).resp
parse_line-Defect line out resp le f h = elim (three-cases (words b' ' line)) [
  | inl (m, p, v, w) ↦
      let three = parse_line_three line out resp le m p v w in
      elim (Bool-cases (leb path_max (length p))) [
        | inl long ↦
            rw (three, check_tokens-long_resp m p v out resp le long)
              (too_long m p v w (ground arith))
        | inr short ↦
            let fits : length p < path_max = ground arith in
            let read = check_tokens-short m p v out resp le fits in
            rw (three, read)
              (Failed-Defect line m p v out (check_fields (filled out m p v) resp le) f w fits
                (check_fields-Failed (filled out m p v) resp le (rw (three, read) at h)))
      ]
  | inr other ↦ rw (parse_line_other line out resp le other) (word_count other)
]

-- Whenever parse_request fails, either no end of the headers is within the `len` bytes and the code
-- is 400, or the request line has a defect that the code stands for: a wrong number of words, a
-- path that is not absolute or an unknown version for 400, a path of 4096 bytes or more for 414, an
-- unsupported version for 505, a `../` in the path for 403, another method than GET and HEAD for 501.
pub parse_request-Defect :
    (app_flags : ℕ) (now buf : Bytes) (len : ℕ) (out : Request) (resp : ClientResponse)
    (le : LogEntry)
    → let r = parse_request app_flags now (some buf) len out resp le in
      r.status ≡ failure
      → ((found (strnstr buf header_end len) ≡ false) × (r.resp ≡ resp_400))
        ⊎ ((found (strnstr buf header_end len) ≡ true) × Defect (request_line buf len) r.resp)
parse_request-Defect app_flags now buf len out resp le h =
    elim (Bool-cases (found (strnstr buf header_end len))) [
      | inl e ↦
          let run = parse_request_complete app_flags now buf len out resp le e in
          inr (e, rw run (parse_line-Defect _ _ resp _ (line_Free buf len) (rw run at h)))
      | inr e ↦ inl (e, rw (parse_request_incomplete app_flags now buf len out resp le e))
    ]
