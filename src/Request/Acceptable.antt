-- ===== src/Request/Acceptable.antt =====
-- The checks of parse_request on one line, and an independent description of what they accept.
use simple_web_server.Base.{
  ◌<◌, ◌≡◌, refl, ◌⊎◌, inl, inr, ◌∙◌, sym, ap, false, [], ◌∷◌, arith, length, Bool-cases, leb,
  get_or,
}
use simple_web_server.Client.{ClientResponse, success, failure}
use simple_web_server.CString.{Bytes, codes, strncmp_zero}
use simple_web_server.CString.Search.{Free}
use simple_web_server.CString.Tokens.{words, words-AllFree}
use simple_web_server.Logging.{LogEntry}
use simple_web_server.Request.{
  HttpMethod, http_get, http_head, HttpVersion, http_1_0, http_1_1, Request, Parsed, path_max,
  path_has_traversal, check_fields, parse_line, method_from_token, version_from_token,
  is_version_unknown, is_version_unsupported, is_method_unknown, is_method_post, token_is,
}
use simple_web_server.Request.Tokens.{
  NamesMethod, NamesVersion, method_from_token-NamesMethod, version_from_token-NamesVersion,
}
use simple_web_server.Request.Line.{parse_line_three, parse_line_other}
use simple_web_server.Request.Checks.{
  StaysInside, path_has_traversal-false, StaysInside-no_traversal, three-cases, filled,
  bounded_copy_short, check_tokens-short, check_tokens-long,
}

-- A request line that the server serves, and what it is read as.
pub record Acceptable (line : Bytes) (r : Request) : Type 0 where
  pub method_token : Bytes
  pub version_token : Bytes
  pub tokens : words b' ' line ≡ method_token ∷ r.path ∷ version_token ∷ []
  pub method_is :
      ((method_token ≡ codes "GET") × (r.method ≡ http_get))
      ⊎ ((method_token ≡ codes "HEAD") × (r.method ≡ http_head))
  pub version_is :
      ((version_token ≡ codes "HTTP/1.0") × (r.version ≡ http_1_0))
      ⊎ ((version_token ≡ codes "HTTP/1.1") × (r.version ≡ http_1_1))
  pub absolute : get_or r.path 0 0 ≡ b'/'
  pub short : length r.path < path_max
  pub inside : StaysInside r.path

-- The checks that a request must pass.
record Checked (out : Request) : Type 0 where
  absolute : get_or out.path 0 0 ≡ b'/'
  known : is_version_unknown out.version ≡ false
  supported : is_version_unsupported out.version ≡ false
  inside : path_has_traversal out.path (length out.path) ≡ false
  method_known : is_method_unknown out.method ≡ false
  no_post : is_method_post out.method ≡ false

check_fields-success :
    (out : Request) (resp : ClientResponse) (le : LogEntry)
    → (check_fields out resp le).status ≡ success
    → Checked out × ((check_fields out resp le).request ≡ out)
unfolding check_fields
check_fields-success out resp le h = ground arith

check_fields-Checked :
    (out : Request) (resp : ClientResponse) (le : LogEntry)
    → Checked out
    → check_fields out resp le ≡ record { status = success; request = out; resp = resp; entry = le }
unfolding check_fields
check_fields-Checked out resp le c = ground arith

method-served :
    (tok : Bytes) (k : HttpMethod)
    → NamesMethod tok k
    → is_method_unknown k ≡ false
    → is_method_post k ≡ false
    → ((tok ≡ codes "GET") × (k ≡ http_get)) ⊎ ((tok ≡ codes "HEAD") × (k ≡ http_head))
method-served tok http_get n h p = inl (n, refl)
method-served tok http_head n h p = inr (n, refl)
method-served tok _ n h p = ground arith

version-served :
    (tok : Bytes) (k : HttpVersion)
    → NamesVersion tok k
    → is_version_unknown k ≡ false
    → is_version_unsupported k ≡ false
    → ((tok ≡ codes "HTTP/1.0") × (k ≡ http_1_0)) ⊎ ((tok ≡ codes "HTTP/1.1") × (k ≡ http_1_1))
version-served tok http_1_0 n h p = inl (n, refl)
version-served tok http_1_1 n h p = inr (n, refl)
version-served tok _ n h p = ground arith

-- What `Acceptable` says of three words, in terms of the code's own tests.
Checked-Acceptable :
    (line m p v : Bytes) (out : Request)
    → Free 0 line
    → words b' ' line ≡ m ∷ p ∷ v ∷ []
    → length p < path_max
    → Checked (filled out m p v)
    → Acceptable line (filled out m p v)
Checked-Acceptable line m p v out f w h c =
    let free = rw w at (words-AllFree 0 b' ' line f) in
    let kept = bounded_copy_short p h in
    record {
      method_token = m;
      version_token = v;
      tokens = rw kept w;
      method_is = method-served m _ (method_from_token-NamesMethod m) c.method_known c.no_post;
      version_is = version-served v _ (version_from_token-NamesVersion v) c.known c.supported;
      absolute = c.absolute;
      short = rw kept h;
      inside = rw kept (path_has_traversal-false p free.1.0 (rw kept at c.inside));
    }

pub parse_line-success :
    (line : Bytes) (out : Request) (resp : ClientResponse) (le : LogEntry)
    → Free 0 line
    → (parse_line line out resp le).status ≡ success
    → Acceptable line (parse_line line out resp le).request
      × ((parse_line line out resp le).request.time_received ≡ out.time_received)
parse_line-success line out resp le f h = elim (three-cases (words b' ' line)) [
  | inl (m, p, v, w) ↦
      let three = parse_line_three line out resp le m p v w in
      let h' = rw three at h in
      elim (Bool-cases (leb path_max (length p))) [
        | inl long ↦ absurd (clash (sym h' ∙ check_tokens-long m p v out resp le long))
        | inr short ↦
            let fits : length p < path_max = ground arith in
            let read = check_tokens-short m p v out resp le fits in
            let (c, e) = check_fields-success (filled out m p v) resp le (rw read at h') in
            rw (three, read, e) (Checked-Acceptable line m p v out f w fits c, refl)
      ]
  | inr other ↦
      absurd
        (clash (sym h ∙ ap (λ (r : Parsed). r.status) (parse_line_other line out resp le other)))
]
  where
    clash : success ≡ failure → ⊥
    clash e = cc

method_from_token_served :
    (m : Bytes) (k : HttpMethod)
    → ((m ≡ codes "GET") × (k ≡ http_get)) ⊎ ((m ≡ codes "HEAD") × (k ≡ http_head))
    → (method_from_token m (length m) ≡ k)
      × (is_method_unknown k ≡ false)
      × (is_method_post k ≡ false)
unfolding method_from_token token_is strncmp_zero
method_from_token_served m k (inl (e, d)) = rw (e, d) (refl, refl, refl)
method_from_token_served m k (inr (e, d)) = rw (e, d) (refl, refl, refl)

version_from_token_served :
    (v : Bytes) (k : HttpVersion)
    → ((v ≡ codes "HTTP/1.0") × (k ≡ http_1_0)) ⊎ ((v ≡ codes "HTTP/1.1") × (k ≡ http_1_1))
    → (version_from_token v (length v) ≡ k)
      × (is_version_unknown k ≡ false)
      × (is_version_unsupported k ≡ false)
unfolding version_from_token token_is strncmp_zero
version_from_token_served v k (inl (e, d)) = rw (e, d) (refl, refl, refl)
version_from_token_served v k (inr (e, d)) = rw (e, d) (refl, refl, refl)

pub parse_line-Acceptable :
    (line : Bytes) (out r : Request) (resp : ClientResponse) (le : LogEntry)
    → Free 0 line
    → Acceptable line r
    → parse_line line out resp le ≡ record {
      status = success;
      request = record r { time_received = out.time_received };
      resp = resp;
      entry = le;
    }
parse_line-Acceptable line out r resp le f a =
    let m = a.method_token in
    let v = a.version_token in
    let free = rw a.tokens at (words-AllFree 0 b' ' line f) in
    let (me, mk, mp) = method_from_token_served m r.method a.method_is in
    let (ve, vk, vu) = version_from_token_served v r.version a.version_is in
    let kept = bounded_copy_short r.path a.short in
    let is_r : filled out m r.path v ≡ record r { time_received = out.time_received } =
      rw (me, ve, kept) in
    parse_line_three line out resp le m r.path v a.tokens
    ∙ check_tokens-short m r.path v out resp le a.short
    ∙ rw is_r (
        check_fields-Checked _ resp le (record {
          absolute = a.absolute;
          known = vk;
          supported = vu;
          inside = StaysInside-no_traversal r.path free.1.0 a.inside;
          method_known = mk;
          no_post = mp;
        }))
