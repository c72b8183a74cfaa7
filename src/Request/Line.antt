-- ===== src/Request/Line.antt =====
-- The four `strtok` calls see exactly the words of the line.
use simple_web_server.Base.{◌≡◌, refl, ◌≢◌, none, some, List, [], ◌∷◌}
use simple_web_server.Client.{ClientResponse}
use simple_web_server.CString.{Bytes}
use simple_web_server.CString.Tokens.{words, strtok-cons, strtok-nil}
use simple_web_server.Logging.{LogEntry}
use simple_web_server.Request.{Request, determined_400, check_tokens, parse_line}

module _ (line : Bytes) (out : Request) (resp : ClientResponse) (le : LogEntry) where
  pub parse_line_three :
      (m p v : Bytes)
      → words b' ' line ≡ m ∷ p ∷ v ∷ []
      → parse_line line out resp le ≡ check_tokens (some m) (some p) (some v) none out resp le
  parse_line_three m p v h =
      let (t₁, e₁, k₁) = strtok-cons b' ' line h in
      let (t₂, e₂, k₂) = strtok-cons b' ' t₁ k₁ in
      let (t₃, e₃, k₃) = strtok-cons b' ' t₂ k₂ in
      unfold parse_line in rw (e₁, e₂, e₃, strtok-nil b' ' t₃ k₃)

  more :
      (m p v x : Bytes) (ws : List Bytes)
      → words b' ' line ≡ m ∷ p ∷ v ∷ x ∷ ws
      → parse_line line out resp le ≡ determined_400 out le
  more m p v x ws h =
      let (t₁, e₁, k₁) = strtok-cons b' ' line h in
      let (t₂, e₂, k₂) = strtok-cons b' ' t₁ k₁ in
      let (t₃, e₃, k₃) = strtok-cons b' ' t₂ k₂ in
      let (t₄, e₄, k₄) = strtok-cons b' ' t₃ k₃ in
      unfold parse_line check_tokens in rw (e₁, e₂, e₃, e₄)

  fewer :
      (ws : List Bytes)
      → words b' ' line ≡ ws
      → ((m p v : Bytes) → ws ≢ m ∷ p ∷ v ∷ [])
      → parse_line line out resp le ≡ determined_400 out le
  fewer [] h three = unfold parse_line check_tokens in rw (strtok-nil b' ' line h)
  fewer (m ∷ []) h three =
      let (t₁, e₁, k₁) = strtok-cons b' ' line h in
      unfold parse_line check_tokens in rw (e₁, strtok-nil b' ' t₁ k₁)
  fewer (m ∷ p ∷ []) h three =
      let (t₁, e₁, k₁) = strtok-cons b' ' line h in
      let (t₂, e₂, k₂) = strtok-cons b' ' t₁ k₁ in
      unfold parse_line check_tokens in rw (e₁, e₂, strtok-nil b' ' t₂ k₂)
  fewer (m ∷ p ∷ v ∷ []) h three = absurd (three m p v refl)
  fewer (m ∷ p ∷ v ∷ x ∷ r) h three = more m p v x r h

  -- Any other number of words is a bad request.
  pub parse_line_other :
      ((m p v : Bytes) → words b' ' line ≢ m ∷ p ∷ v ∷ [])
      → parse_line line out resp le ≡ determined_400 out le
  parse_line_other h = fewer (words b' ' line) refl h
