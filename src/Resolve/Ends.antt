-- ===== src/Resolve/Ends.antt =====
-- The ways in which resolve_path ends.
use simple_web_server.Base.{◌≤◌, ◌≡◌, ◌⊎◌, none, some, ◌∷◌}
use simple_web_server.Client.{
  Client, ClientResponse, resp_403, resp_404, resp_500, resp_501, success, failure, File,
}
use simple_web_server.CString.{Bytes, codes}
use simple_web_server.Host.{Host, Stat, World}
use simple_web_server.Resolve.{
  ResolvedPath, Resolved, is_file, is_dir, is_cgi, get_mime_type_by_ext,
}

-- A stream is open for what is served, in the client and in the resolved path alike.
pub record Serves (h : Host) (c : Client) (w : World) (r : Resolved) : Type 0 where
  pub file : File
  pub stat : Stat
  pub found_stat : h.fstat file.node ≡ some stat
  pub done : r.status ≡ success
  pub known : (r.rp.path_type ≡ is_file) ⊎ (r.rp.path_type ≡ is_cgi)
  pub rp_file : r.rp.file_ptr ≡ some file
  pub staged : r.client ≡ record c { file_ptr = some file; file_size = stat.st_size }
  pub size : r.rp.file_size ≡ stat.st_size
  pub mime :
      (r.rp.mime_type ≡ some (codes "text/html"))
      ⊎ ((path : Bytes) × (r.rp.mime_type ≡ get_mime_type_by_ext h path file.node))
  pub opened : r.world.open_files ≡ file.handle ∷ w.open_files
  pub fresh : w.next_handle ≤ file.handle
  pub balanced : r.world.bad_closes ≡ w.bad_closes

-- A directory without an index file is listed; no stream is left open.
pub record Lists (c : Client) (rp : ResolvedPath) (w : World) (r : Resolved) : Type 0 where
  pub done : r.status ≡ success
  pub listed : r.rp.path_type ≡ is_dir
  pub rp_file : r.rp.file_ptr ≡ none
  pub staged : r.client ≡ c
  pub mime : r.rp.mime_type ≡ rp.mime_type
  pub opened : r.world.open_files ≡ w.open_files
  pub balanced : r.world.bad_closes ≡ w.bad_closes

-- What the streams are when no response can be given: nothing was opened; a stream was opened and
-- closed, and is still referred to; or it was opened, and nothing refers to it.
pub data Leftover (w : World) (r : Resolved) : ClientResponse → Type 0 where
  not_found :
      {e : ClientResponse}
      → (e ≡ resp_403) ⊎ (e ≡ resp_404)
      → r.rp.file_ptr ≡ none
      → r.world ≡ w
      → Leftover w r e
  no_stat :
      (f : File)
      → r.rp.file_ptr ≡ some f
      → r.world.open_files ≡ w.open_files
      → Leftover w r resp_500
  no_cgi :
      (f : File)
      → r.rp.file_ptr ≡ none
      → r.world.open_files ≡ f.handle ∷ w.open_files
      → Leftover w r resp_501

pub record Fails (c : Client) (w : World) (r : Resolved) : Type 0 where
  pub code : ClientResponse
  pub refused : r.status ≡ failure
  pub marked : r.client ≡ record c { resp_val = code }
  pub leftover : Leftover w r code

abbrev pub Ends : Host → Client → ResolvedPath → World → Resolved → Type 0
Ends h c rp w r = Serves h c w r ⊎ (Lists c rp w r ⊎ Fails c w r)
