-- ===== src/Response/Okay/CgiLines.antt =====
-- The lines of the header of a CGI response.
use simple_web_server.Base.{ℕ, ◌≡◌, List, [], ◌∷◌, ◌++◌, append_assoc, arith}
use simple_web_server.CString.{Bytes, codes, decimal}
use simple_web_server.CString.Search.{Free}
use simple_web_server.CString.Decimal.{decimal-Free}
use simple_web_server.Response.Error.{server_version}
use simple_web_server.Response.Message.{render, AllLines, line-Free}
use simple_web_server.Response.Script.{cgi_header}

abbrev pub cgi_fields : Bytes → ℕ → List Bytes
cgi_fields time n =
    (codes "Date: " ++ time)
    ∷ (codes "Server: " ++ server_version)
    ∷ codes "Content-Type: text/html"
    ∷ (codes "Content-Length: " ++ decimal n)
    ∷ codes "Connection: close"
    ∷ []

pub cgi_header-render :
    (time : Bytes) (n : ℕ) (body : Bytes)
    → cgi_header time n ++ body ≡ render (codes "HTTP/1.0 200 OK" ∷ cgi_fields time n) body
unfolding cgi_header
cgi_header-render time n body = simp append_assoc

pub cgi_lines :
    (time : Bytes) (n : ℕ)
    → Free b'\r' time
    → AllLines (codes "HTTP/1.0 200 OK" ∷ cgi_fields time n)
cgi_lines time n ft =
    let status = line-Free b'H' (codes "TTP/1.0 200 OK") [] (omega arith) tt in
    let date = line-Free b'D' (codes "ate: ") time (omega arith) ft in
    let server = line-Free b'S' (codes "erver: ") server_version (omega arith) (omega arith) in
    let type = line-Free b'C' (codes "ontent-Type: text/html") [] (omega arith) tt in
    let size =
      line-Free b'C' (codes "ontent-Length: ") (decimal n) (omega arith)
        (decimal-Free b'\r' n (omega arith)) in
    let close = line-Free b'C' (codes "onnection: close") [] (omega arith) tt in
    (status, (date, (server, (type, (size, (close, tt))))))
