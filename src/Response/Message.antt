-- ===== src/Response/Message.antt =====
-- HTTP messages as their reader sees them: lines up to an empty one, and a body.
use simple_web_server.Base.{
  ℕ, ◌+◌, ◌≡◌, refl, ◌≢◌, ◌⊎◌, some, List, [], ◌∷◌, ◌++◌, sym, append-nil, arith, length,
  length-append,
}
use simple_web_server.Client.{
  Client, ClientResponse, resp_200, resp_400, resp_403, resp_404, resp_414, resp_500, resp_501,
  resp_505, num_client_resp,
}
use simple_web_server.CString.{Bytes, codes, decimal}
use simple_web_server.CString.Search.{Free, Free-append}

-- The message splits into these lines and this body.
pub data Reads : Bytes → List Bytes → Bytes → Type 0 where
  empty_line : (body : Bytes) → Reads (b'\r' ∷ b'\n' ∷ body) [] body
  header_line :
      (l s : Bytes) {ls : List Bytes} {body : Bytes}
      → l ≢ []
      → Free b'\r' l
      → Reads s ls body
      → Reads (l ++ (b'\r' ∷ b'\n' ∷ s)) (l ∷ ls) body

-- One of the lines is `x`.
abbrev Holds : Bytes → List Bytes → Type 0
Holds x [] = ⊥
Holds x (l ∷ ls) = (x ≡ l) ⊎ Holds x ls

-- The text behind the protocol version for each code, as HTTP has it.
abbrev pub status_text : ClientResponse → Bytes
status_text resp_200 = codes "200 OK"
status_text resp_400 = codes "400 Bad Request"
status_text resp_403 = codes "403 Forbidden"
status_text resp_404 = codes "404 Not Found"
status_text resp_414 = codes "414 URI Too Long"
status_text resp_500 = codes "500 Internal Server Error"
status_text resp_501 = codes "501 Not Implemented"
status_text resp_505 = codes "505 HTTP Version Not Supported"
status_text num_client_resp = []

-- The output buffer holds a message whose status line is that of the client's response code, which
-- announces the length of `entity`, says that the connection is closed, and carries `sent`.
pub record IsFramed (c : Client) (entity sent : Bytes) : Type 0 where
  pub message : Bytes
  pub fields : List Bytes
  pub staged : c.out_buf ≡ some message
  pub counted : c.output_length ≡ length message
  pub reads : Reads message ((codes "HTTP/1.0 " ++ status_text c.resp_val) ∷ fields) sent
  pub length_line : Holds (codes "Content-Length: " ++ decimal (length entity)) fields
  pub close_line : Holds (codes "Connection: close") fields
  pub header_counted : c.header_len + length sent ≡ c.output_length

-- The message with these lines and this body.
abbrev pub render : List Bytes → Bytes → Bytes
render [] body = b'\r' ∷ b'\n' ∷ body
render (l ∷ ls) body = l ++ (b'\r' ∷ b'\n' ∷ render ls body)

-- Lines that can be told from the empty line, and end where they should.
abbrev pub AllLines : List Bytes → Type 0
AllLines [] = Unit {0}
AllLines (l ∷ ls) = ((l ≢ []) × Free b'\r' l) × AllLines ls

render-Reads : (ls : List Bytes) (body : Bytes) → AllLines ls → Reads (render ls body) ls body
render-Reads [] body f = empty_line body
render-Reads (l ∷ ls) body f = header_line l (render ls body) f.0.0 f.0.1 (render-Reads ls body f.1)

-- A line that begins with a literal.
pub line-Free :
    (c : ℕ) (l t : Bytes)
    → Free b'\r' (c ∷ l)
    → Free b'\r' t
    → (((c ∷ l) ++ t) ≢ []) × Free b'\r' ((c ∷ l) ++ t)
line-Free c l t f g = (λ e. cc, Free-append b'\r' (c ∷ l) t f g)

abbrev pub status_line : Client → Bytes
status_line c = codes "HTTP/1.0 " ++ status_text c.resp_val

-- The client whose buffer holds a header and what is sent behind it.
abbrev pub served : Client → Bytes → Bytes → ℕ → Client
served c header sent n = record c {
  out_buf = some (header ++ sent);
  output_length = length (header ++ sent);
  header_len = length header;
  body_len = n;
}

pub served-nil :
    (c : Client) (header : Bytes) (n : ℕ)
    → record c {
      out_buf = some header;
      output_length = length header;
      header_len = length header;
      body_len = n;
    }
      ≡ served c header [] n
served-nil c header n i = record c {
  out_buf = some (sym (append-nil header) i);
  output_length = length (sym (append-nil header) i);
  header_len = length header;
  body_len = n;
}

-- It is framed if the header renders these fields.
pub served-IsFramed :
    (c : Client) (header entity sent : Bytes) (n : ℕ) (fields : List Bytes)
    → header ++ sent ≡ render (status_line c ∷ fields) sent
    → AllLines (status_line c ∷ fields)
    → Holds (codes "Content-Length: " ++ decimal (length entity)) fields
    → Holds (codes "Connection: close") fields
    → IsFramed (served c header sent n) entity sent
served-IsFramed c header entity sent n fields e f hl hc = record {
  message = header ++ sent;
  fields = fields;
  staged = refl;
  counted = refl;
  reads = rw e (render-Reads (status_line c ∷ fields) sent f);
  length_line = hl;
  close_line = hc;
  header_counted = omega (arith, length-append header sent);
}
