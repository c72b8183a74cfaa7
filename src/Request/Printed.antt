-- ===== src/Request/Printed.antt =====
-- What a client sends, and how its lines and words stand in the text; the names are those of
-- method_to_string and version_to_string.
use simple_web_server.Base.{
  ℕ, ◌<◌, ◌≤◌, ◌≡◌, refl, ◌≢◌, ◌⊎◌, inl, inr, ◌∙◌, sym, ap, List, [], ◌∷◌, ◌++◌, append_assoc,
  arith, length, get_or, take_all, take-append_left,
}
use simple_web_server.CString.{Bytes, c_string}
use simple_web_server.CString.Search.{Free, Free-append, strnstr-find, find-first, c_string-Free}
use simple_web_server.CString.Tokens.{words, words-append, words-Free}
use simple_web_server.Request.{
  HttpMethod, http_get, http_head, HttpVersion, http_1_0, http_1_1, Request, path_max, crlf,
  header_end, line_length, request_line, method_to_string, version_to_string,
}
use simple_web_server.Request.Checks.{StaysInside}

unfoldable pub print_line : Request → Bytes
print_line r = method_to_string r.method ++ b' ' ∷ (r.path ++ b' ' ∷ version_to_string r.version)

pub print_headers : List Bytes → Bytes
print_headers [] = crlf
print_headers (h ∷ hs) = h ++ (crlf ++ print_headers hs)

-- A client's message: the request line, header fields, and an empty line.
unfoldable pub print_request : Request → List Bytes → Bytes
unfolding print_line print_headers
print_request r hs = print_line r ++ (crlf ++ print_headers hs)

-- What can be asked for: a path with no separator in it.
pub record IsServable (r : Request) : Type 0 where
  pub method_is : (r.method ≡ http_get) ⊎ (r.method ≡ http_head)
  pub version_is : (r.version ≡ http_1_0) ⊎ (r.version ≡ http_1_1)
  pub absolute : get_or r.path 0 0 ≡ b'/'
  pub short : length r.path < path_max
  pub inside : StaysInside r.path
  pub no_space : Free b' ' r.path
  pub no_return : Free b'\r' r.path
  pub no_nul : Free 0 r.path

abbrev pub AllText : List Bytes → Type 0
AllText [] = Unit {0}
AllText (h ∷ hs) = Free 0 h × AllText hs

pub headers-Free : (hs : List Bytes) → AllText hs → Free 0 (print_headers hs)
unfolding print_headers
headers-Free [] f = omega arith
headers-Free (h ∷ hs) f =
    Free-append 0 h (crlf ++ print_headers hs) f.0 (omega arith, (omega arith, headers-Free hs f.1))

-- The end of the headers stands in the message.
pub end_in_headers :
    (hs : List Bytes)
    → (a : Bytes) × (b : Bytes) × (crlf ++ print_headers hs ≡ a ++ (header_end ++ b))
unfolding print_headers
end_in_headers [] = ([], [], refl)
end_in_headers (h ∷ hs) =
    let (a, b, e) = end_in_headers hs in
    (crlf ++ (h ++ a), b, rw (e, append_assoc h a (header_end ++ b)))

-- A word of the line: nothing in it ends the word, the line or the text.
pub record IsPlain (w : Bytes) : Type 0 where
  no_space : Free b' ' w
  no_return : Free b'\r' w
  no_nul : Free 0 w
  ne_nil : w ≢ []

pub method-IsPlain :
    (k : HttpMethod) → (k ≡ http_get) ⊎ (k ≡ http_head) → IsPlain (method_to_string k)
unfolding method_to_string
method-IsPlain k (inl e) = rw e (record {
  no_space = omega arith;
  no_return = omega arith;
  no_nul = omega arith;
  ne_nil = λ e. ground arith;
})
method-IsPlain k (inr e) = rw e (record {
  no_space = omega arith;
  no_return = omega arith;
  no_nul = omega arith;
  ne_nil = λ e. ground arith;
})

pub version-IsPlain :
    (k : HttpVersion) → (k ≡ http_1_0) ⊎ (k ≡ http_1_1) → IsPlain (version_to_string k)
unfolding version_to_string
version-IsPlain k (inl e) = rw e (record {
  no_space = omega arith;
  no_return = omega arith;
  no_nul = omega arith;
  ne_nil = λ e. ground arith;
})
version-IsPlain k (inr e) = rw e (record {
  no_space = omega arith;
  no_return = omega arith;
  no_nul = omega arith;
  ne_nil = λ e. ground arith;
})

pub path-IsPlain : (r : Request) → IsServable r → IsPlain r.path
path-IsPlain r s = record {
  no_space = s.no_space;
  no_return = s.no_return;
  no_nul = s.no_nul;
  ne_nil = λ e. zero_ne (sym (ap (λ p. get_or p 0 0) e) ∙ s.absolute);
}
  where
    zero_ne : ◌≡◌ {A = ℕ} 0 b'/' → ⊥
    zero_ne e = omega arith

module _ (m p v : Bytes) (pm : IsPlain m) (pp : IsPlain p) (pv : IsPlain v) where
  abbrev joined : Bytes
  joined = m ++ b' ' ∷ (p ++ b' ' ∷ v)

  pub joined-words : words b' ' joined ≡ m ∷ p ∷ v ∷ []
  joined-words =
      words-append b' ' m (p ++ b' ' ∷ v) pm.no_space pm.ne_nil
      ∙ ap (◌∷◌ m) (
          words-append b' ' p v pp.no_space pp.ne_nil
          ∙ ap (◌∷◌ p) (words-Free b' ' v pv.no_space pv.ne_nil))

  pub joined-no_return : Free b'\r' joined
  joined-no_return =
      Free-append _ m (b' ' ∷ (p ++ b' ' ∷ v)) pm.no_return
        (omega arith, Free-append _ p (b' ' ∷ v) pp.no_return (omega arith, pv.no_return))

  pub joined-no_nul : Free 0 joined
  joined-no_nul =
      Free-append _ m (b' ' ∷ (p ++ b' ' ∷ v)) pm.no_nul
        (omega arith, Free-append _ p (b' ' ∷ v) pp.no_nul (omega arith, pv.no_nul))

-- The first line of a message is cut out of it.
pub request_line-append :
    (line rest : Bytes) (len : ℕ)
    → Free b'\r' line
    → Free 0 (line ++ (crlf ++ rest))
    → Free 0 line
    → length (line ++ (crlf ++ rest)) ≤ len
    → request_line (line ++ (crlf ++ rest)) len ≡ line
request_line-append line rest len fr fz fl h =
    let at_line =
      strnstr-find (line ++ (crlf ++ rest)) crlf len fz h
      ∙ find-first b'\r' (b'\n' ∷ []) line rest fr in
    unfold request_line line_length in
    rw (at_line, line_length)
      (ap c_string (
          take-append_left (length line) line (crlf ++ rest) (omega arith)
          ∙ take_all (length line) line (omega arith))
        ∙ c_string-Free line fl)
