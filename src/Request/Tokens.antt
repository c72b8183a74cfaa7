-- ===== src/Request/Tokens.antt =====
-- The token tables decide equality with the documented spellings.
use simple_web_server.Base.{◌≡◌, ◌↔◌, ◌⊎◌, ◌≢◌, true, [], ◌∷◌, arith, length}
use simple_web_server.CString.{Bytes, codes, strncmp_zero}
use simple_web_server.Request.{
  HttpMethod, http_get, http_post, http_head, http_method_unknown, HttpVersion, http_1_0, http_1_1,
  http_version_unsupported, http_version_unknown, token_is, method_from_token, version_from_token,
}

token_is_iff : (tok lit : Bytes) → (token_is tok (length tok) lit ≡ true) ↔ (tok ≡ lit)
unfolding token_is strncmp_zero
token_is_iff [] [] = ground arith
token_is_iff [] (d ∷ lit) = ground arith
token_is_iff (c ∷ tok) [] = ground arith
token_is_iff (c ∷ tok) (d ∷ lit) = ground (arith, token_is_iff tok lit)

-- What `method_from_token` says of a token, and which tokens it says it of.
abbrev pub NamesMethod : Bytes → HttpMethod → Type 0
NamesMethod tok http_get = tok ≡ codes "GET"
NamesMethod tok http_post = tok ≡ codes "POST"
NamesMethod tok http_head = tok ≡ codes "HEAD"
NamesMethod tok http_method_unknown =
    (tok ≢ codes "GET") × (tok ≢ codes "POST") × (tok ≢ codes "HEAD")
NamesMethod tok _ = ⊥

pub method_from_token-NamesMethod :
    (tok : Bytes) → NamesMethod tok (method_from_token tok (length tok))
unfolding method_from_token
method_from_token-NamesMethod [] = (λ e. cc, λ e. cc, λ e. cc)
method_from_token-NamesMethod (c ∷ t) = ground (
  arith,
  token_is_iff (c ∷ t) (codes "GET"),
  token_is_iff (c ∷ t) (codes "POST"),
  token_is_iff (c ∷ t) (codes "HEAD"),
)

abbrev pub IsUnsupported : Bytes → Type 0
IsUnsupported tok = (tok ≡ codes "HTTP/0.9") ⊎ (tok ≡ codes "HTTP/2.0") ⊎ (tok ≡ codes "HTTP/3.0")

abbrev pub NamesVersion : Bytes → HttpVersion → Type 0
NamesVersion tok http_1_0 = tok ≡ codes "HTTP/1.0"
NamesVersion tok http_1_1 = tok ≡ codes "HTTP/1.1"
NamesVersion tok http_version_unsupported = IsUnsupported tok
NamesVersion tok http_version_unknown =
    (tok ≢ codes "HTTP/1.0") × (tok ≢ codes "HTTP/1.1") × (¬ IsUnsupported tok)
NamesVersion tok _ = ⊥

pub version_from_token-NamesVersion :
    (tok : Bytes) → NamesVersion tok (version_from_token tok (length tok))
unfolding version_from_token
version_from_token-NamesVersion [] = (λ e. cc, λ e. cc, λ e. ground arith)
version_from_token-NamesVersion (c ∷ t) = ground (
  arith,
  token_is_iff (c ∷ t) (codes "HTTP/1.0"),
  token_is_iff (c ∷ t) (codes "HTTP/1.1"),
  token_is_iff (c ∷ t) (codes "HTTP/0.9"),
  token_is_iff (c ∷ t) (codes "HTTP/2.0"),
  token_is_iff (c ∷ t) (codes "HTTP/3.0"),
)
