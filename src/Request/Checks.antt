-- ===== src/Request/Checks.antt =====
-- Facts about the checks that the proofs on acceptance and on errors share.
use simple_web_server.Base.{
  ℕ, ◌<◌, ◌≡◌, refl, ◌≢◌, ◌⊎◌, inl, inr, ◌∙◌, sym, ap, true, false, Option, none, some, List, [],
  ◌∷◌, ◌++◌, arith, length, Bool-cases, Option-cases, leb, take, take_all, ◌==◌,
}
use simple_web_server.Client.{ClientResponse, failure}
use simple_web_server.CString.{Bytes, codes, strnstr, find, bounded_copy}
use simple_web_server.CString.Search.{Free, strnstr-find, find-split, find-ne-none, Free-c_string}
use simple_web_server.Logging.{LogEntry}
use simple_web_server.Request.{
  Request, Parsed, path_max, path_has_traversal, found, check_fields, check_tokens, parse_line,
  method_from_token, version_from_token, request_line, header_end, parse_request, determined_400,
  log_request,
}

-- The path climbs nowhere by a `../` in it.
abbrev pub StaysInside : Bytes → Type 0
StaysInside path = (a b : Bytes) → path ≢ a ++ (codes "../" ++ b)

pub path_has_traversal-find :
    (path : Bytes)
    → Free 0 path
    → path_has_traversal path (length path) ≡ found (find (codes "../") path)
path_has_traversal-find path f =
    unfold path_has_traversal in rw (strnstr-find path (codes "../") (length path) f (omega arith))

-- `path_has_traversal` finds `../` wherever it stands.
pub path_has_traversal-false :
    (path : Bytes) → Free 0 path → path_has_traversal path (length path) ≡ false → StaysInside path
path_has_traversal-false path f h a b e =
    find-ne-none (codes "../") a b
      (ap (find (codes "../")) (sym e) ∙ missing _ (sym (path_has_traversal-find path f) ∙ h))
  where
    missing : (o : Option ℕ) → found o ≡ false → o ≡ none
    missing none h = refl
    missing (some i) h = cc

pub StaysInside-no_traversal :
    (path : Bytes) → Free 0 path → StaysInside path → path_has_traversal path (length path) ≡ false
StaysInside-no_traversal path f h =
    path_has_traversal-find path f ∙ elim (Option-cases (find (codes "../") path)) [
      | inl e ↦ ap found e
      | inr (i, e) ↦
          let (r, split, _, _) = find-split (codes "../") path i e in
          absurd (h (take i path) r split)
    ]

pub three-cases :
    (ws : List Bytes)
    → ((m : Bytes) × (p : Bytes) × (v : Bytes) × (ws ≡ m ∷ p ∷ v ∷ []))
      ⊎ ((m p v : Bytes) → ws ≢ m ∷ p ∷ v ∷ [])
three-cases [] = inr (λ m p v e. cc)
three-cases (a ∷ []) = inr (λ m p v e. cc)
three-cases (a ∷ b ∷ []) = inr (λ m p v e. cc)
three-cases (a ∷ b ∷ c ∷ []) = inl (a, b, c, refl)
three-cases (a ∷ b ∷ c ∷ d ∷ ws) = inr (λ m p v e. cc)

-- The struct that the checks see, for three words.
abbrev pub filled : Request → Bytes → Bytes → Bytes → Request
filled out m p v = record out {
  method = method_from_token m (length m);
  version = version_from_token v (length v);
  path = bounded_copy p path_max;
}

pub bounded_copy_short : (p : Bytes) → length p < path_max → bounded_copy p path_max ≡ p
unfolding bounded_copy
bounded_copy_short p h = take_all 4095 p (omega arith)

pub check_tokens-short :
    (m p v : Bytes) (out : Request) (resp : ClientResponse) (le : LogEntry)
    → length p < path_max
    → check_tokens (some m) (some p) (some v) none out resp le
      ≡ check_fields (filled out m p v) resp le
unfolding check_tokens
check_tokens-short m p v out resp le h = ground arith

pub check_tokens-long :
    (m p v : Bytes) (out : Request) (resp : ClientResponse) (le : LogEntry)
    → leb path_max (length p) ≡ true
    → (check_tokens (some m) (some p) (some v) none out resp le).status ≡ failure
unfolding check_tokens
check_tokens-long m p v out resp le h = rw h

module _ (app_flags : ℕ) (now buf : Bytes) (len : ℕ) (out : Request) (resp : ClientResponse)
    (le : LogEntry) where
  abbrev result : Parsed
  result = parse_request app_flags now (some buf) len out resp le

  pub parse_request_complete :
      found (strnstr buf header_end len) ≡ true
      → result
        ≡ parse_line
            (request_line buf len)
            (record out { time_received = now })
            resp
            (log_request app_flags now (request_line buf len) le)
  parse_request_complete h = elim (Bool-cases (len == 0)) [
    | inl z ↦ let zero_len : len ≡ 0 = ground arith in absurd (empty (rw zero_len at h))
    | inr nz ↦ unfold parse_request in rw (nz, h)
  ]
    where
      empty : found (strnstr buf header_end 0) ≡ true → ⊥
      empty e = unfold strnstr in cc

  pub parse_request_incomplete :
      found (strnstr buf header_end len) ≡ false → result ≡ determined_400 out le
  parse_request_incomplete h = elim (Bool-cases (len == 0)) [
    | inl z ↦ unfold parse_request in rw z
    | inr nz ↦ unfold parse_request in rw (nz, h)
  ]

pub line_Free : (buf : Bytes) (len : ℕ) → Free 0 (request_line buf len)
unfolding request_line
line_Free buf len = Free-c_string _
