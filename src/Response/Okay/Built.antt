-- ===== src/Response/Okay/Built.antt =====
-- What each builder of build_okay_response.c leaves, and the header of files and listings.
use simple_web_server.Base.{
  ℕ, ◌≡◌, refl, ap, inl, inr, Bool, true, false, some, List, [], ◌∷◌, ◌++◌, append_assoc, arith,
  length, drop, if◌then◌else◌,
}
use simple_web_server.Client.{Client, ClientResponse, resp_200, resp_500, Status, success, failure}
use simple_web_server.CString.{Bytes, codes, decimal}
use simple_web_server.CString.Search.{Free}
use simple_web_server.CString.Decimal.{decimal-Free}
use simple_web_server.Host.{Host, Dirent, CgiCall}
use simple_web_server.Request.{Request}
use simple_web_server.Resolve.{ResolvedPath, PathType, unknown, is_file, is_dir, is_cgi}
use simple_web_server.Response.Error.{has_no_page, server_version}
use simple_web_server.Response.Error.Framing.{body_unless}
use simple_web_server.Response.Message.{
  IsFramed, render, AllLines, line-Free, served, served-IsFramed,
}
use simple_web_server.Response.Common.{okay_header, shown}
use simple_web_server.Response.Okay.{is_200, file_body}
use simple_web_server.Response.Listing.{dir_body, dir_items}
use simple_web_server.Response.Script.{read_cgi, output}

abbrev okay_fields : Bytes → Bytes → Bytes → ℕ → List Bytes
okay_fields time mod_time mime n =
    (codes "Date: " ++ time)
    ∷ (codes "Server: " ++ server_version)
    ∷ (codes "Last-Modified: " ++ mod_time)
    ∷ (codes "Content-Type: " ++ mime)
    ∷ (codes "Content-Length: " ++ decimal n)
    ∷ codes "Connection: close"
    ∷ []

okay_header-render :
    (time mod_time mime : Bytes) (n : ℕ) (body : Bytes)
    → okay_header time mod_time mime n ++ body
      ≡ render (codes "HTTP/1.0 200 OK" ∷ okay_fields time mod_time mime n) body
unfolding okay_header
okay_header-render time mod_time mime n body = simp append_assoc

okay_lines :
    (time mod_time mime : Bytes) (n : ℕ)
    → Free b'\r' time
    → Free b'\r' mod_time
    → Free b'\r' mime
    → AllLines (codes "HTTP/1.0 200 OK" ∷ okay_fields time mod_time mime n)
okay_lines time mod_time mime n ft fm fi =
    let status = line-Free b'H' (codes "TTP/1.0 200 OK") [] (omega arith) tt in
    let date = line-Free b'D' (codes "ate: ") time (omega arith) ft in
    let server = line-Free b'S' (codes "erver: ") server_version (omega arith) (omega arith) in
    let modified = line-Free b'L' (codes "ast-Modified: ") mod_time (omega arith) fm in
    let type = line-Free b'C' (codes "ontent-Type: ") mime (omega arith) fi in
    let size =
      line-Free b'C' (codes "ontent-Length: ") (decimal n) (omega arith)
        (decimal-Free b'\r' n (omega arith)) in
    let close = line-Free b'C' (codes "onnection: close") [] (omega arith) tt in
    (status, (date, (server, (modified, (type, (size, (close, tt)))))))

-- Whether a script is run for the path.
abbrev pub is_script : PathType → Bool
is_script is_cgi = true
is_script _ = false

-- What a response with the code 200 carries: the file that was opened, the listing of the directory
-- that was opened, or the output of the script that was called.
abbrev pub FileEntity : Host → ResolvedPath → Bytes → Type 0
FileEntity h rp entity = entity ≡ file_body h rp.file_ptr

abbrev pub DirEntity : Host → Bytes → Bytes → Type 0
DirEntity h dir_path entity =
    (entries : List Dirent) × (h.opendir dir_path ≡ some entries)
    × (entity ≡ dir_body (dir_items dir_path entries))

abbrev pub ScriptEntity : Host → CgiCall → Bytes → Type 0
ScriptEntity h call entity = read_cgi h (h.cgi_run call).reads 8192 [] ≡ output entity

abbrev pub IsEntity : PathType → Host → CgiCall → ResolvedPath → Request → Bytes → Type 0
IsEntity is_file h call rp req entity = FileEntity h rp entity
IsEntity is_dir h call rp req entity = DirEntity h (drop 1 req.path) entity
IsEntity is_cgi h call rp req entity = ScriptEntity h call entity
IsEntity unknown h call rp req entity = ⊥

-- What is sent of an entity: the output of a script is sent for HEAD too.
abbrev pub carried : Bool → Bool → Bytes → Bytes
carried true head entity = entity
carried false head entity = body_unless head entity

-- What a builder leaves: a message for 200, carrying what is to be sent of the entity; or a code that
-- an error page can be built for.
abbrev pub Built : (Bytes → Type 0) → Bool → Bool → Status × Client → Type 0
Built P script head (success, c) =
    (c.resp_val ≡ resp_200)
    × ((entity : Bytes) × P entity × IsFramed c entity (carried script head entity))
Built P script head (failure, c) =
    has_no_page (if is_200 c.resp_val then resp_500 else c.resp_val) ≡ false

-- The texts that go into a header as they are.
pub record IsPlain (h : Host) (rp : ResolvedPath) (req : Request) : Type 0 where
  pub time : Free b'\r' req.time_received
  pub mod_time : (t : ℕ) (m : Bytes) → h.time_text t ≡ some m → Free b'\r' m
  pub mime : Free b'\r' (shown rp.mime_type)

module _ (h : Host) (c : Client) (rp : ResolvedPath) (req : Request) (plain : IsPlain h rp req)
    (code : c.resp_val ≡ resp_200) where
  okay_served :
      (mod_time mime entity sent : Bytes) (k n : ℕ)
      → Free b'\r' mod_time
      → Free b'\r' mime
      → length entity ≡ k
      → IsFramed (served c (okay_header req.time_received mod_time mime k) sent n) entity sent
  okay_served mod_time mime entity sent k n fm fi size =
      served-IsFramed c (okay_header req.time_received mod_time mime k) entity sent n
        (okay_fields req.time_received mod_time mime k)
        (rw code (okay_header-render req.time_received mod_time mime k sent))
        (rw code (okay_lines req.time_received mod_time mime k plain.time fm fi))
        (inr (inr (inr (inr (inl (ap (λ t. codes "Content-Length: " ++ decimal t) size))))))
        (inr (inr (inr (inr (inr (inl refl))))))

  -- Both ways in which a file or a listing is staged.
  pub Built-served :
      (P : Bytes → Type 0) (head : Bool) (r : Status × Client) (mod_time mime entity : Bytes)
      (k n : ℕ)
      → P entity
      → Free b'\r' mod_time
      → Free b'\r' mime
      → length entity ≡ k
      → r ≡ (
        success,
        served c (okay_header req.time_received mod_time mime k) (body_unless head entity) n,
      )
      → Built P false head r
  Built-served P head r mod_time mime entity k n is fm fi size e = rw e (
    code,
    (entity, is, okay_served mod_time mime entity (body_unless head entity) k n fm fi size),
  )

  pub Built-failure :
      (P : Bytes → Type 0) (script head : Bool) (r : Status × Client) (resp : ClientResponse)
      → has_no_page (if is_200 resp then resp_500 else resp) ≡ false
      → r ≡ (failure, record c { resp_val = resp })
      → Built P script head r
  Built-failure P script head r resp k e = rw e k
