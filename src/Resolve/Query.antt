-- ===== src/Resolve/Query.antt =====
-- The path that is opened, and the query string.
use simple_web_server.Base.{
  ◌+◌, ◌<◌, ◌≡◌, ap, Option, none, some, List, [], ◌∷◌, arith, length, take_all,
}
use simple_web_server.CString.{Bytes, strtok, bounded_copy}
use simple_web_server.CString.Tokens.{words, strtok-cons, strtok-nil}
use simple_web_server.Request.{path_max}
use simple_web_server.Resolve.{split_query}

-- The second word, if any.
abbrev first_of : List Bytes → Option Bytes
first_of [] = none
first_of (q ∷ ws) = some q

-- Where the path fits the buffer, what is opened is the first word of the path between question
-- marks, with a dot in front, and the query string is the second word: what is behind another
-- question mark is in neither.
pub split_query-words :
    (path w : Bytes) (ws : List Bytes)
    → length path + 1 < path_max
    → words b'?' (b'.' ∷ path) ≡ w ∷ ws
    → split_query path ≡ (w, first_of ws)
split_query-words path w ws fits e =
    let whole : bounded_copy (b'.' ∷ path) path_max ≡ b'.' ∷ path =
      (unfold bounded_copy in take_all 4095 (b'.' ∷ path) (omega arith)) in
    let (t, first, rest) = strtok-cons b'?' (b'.' ∷ path) e in
    unfold split_query in rw (whole, first, second t ws rest)
  where
    second : (t : Bytes) (vs : List Bytes) → words b'?' t ≡ vs → (strtok b'?' t).0 ≡ first_of vs
    second t [] r = ap (λ x. x.0) (strtok-nil b'?' t r)
    second t (q ∷ vs) r = let (u, k, _) = strtok-cons b'?' t r in ap (λ x. x.0) k
