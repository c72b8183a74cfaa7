-- ===== src/Resolve.antt =====
-- requests/resolve_path.h, requests/resolve_path.c and requests/close_resolve_path.c: the path of a
-- request is led to a file, an index file, a directory or a CGI script.
pub mod Ends
pub mod Kinds
pub mod Outcome
pub mod Effects
pub mod Query
pub mod Mime
pub mod Confined
use simple_web_server.Base.{
  ℕ, ◌-◌, Bool, true, false, Option, none, some, List, [], ◌∷◌, ◌++◌, ◌==◌, if◌then◌else◌, length,
  get_or,
}
use simple_web_server.Client.{
  Client, ClientResponse, resp_403, resp_404, resp_500, resp_501, Status, success, failure, File,
  has_flag, c_flag,
}
use simple_web_server.CString.{
  Bytes, codes, strnstr, strtok, strrchr, strcasecmp_zero, bounded_copy,
}
use simple_web_server.Host.{
  Host, Stat, Lookup, eacces, World, Opened, stream, not_opened, fopen, fclose,
}
use simple_web_server.Request.{Request, path_max, found}

-- `enum Path_type`
pub data PathType : Type 0 where
  unknown is_file is_dir is_cgi : PathType

pub record ResolvedPath : Type 0 where
  pub query_string : Bytes
  pub file_ptr : Option File
  pub file_size : ℕ
  pub mime_type : Option Bytes
  pub last_mod : ℕ
  pub path_type : PathType

-- `ResolvedPath rp = {0}`
abbrev pub zero_resolved : ResolvedPath
zero_resolved = record {
  query_string = [];
  file_ptr = none;
  file_size = 0;
  mime_type = none;
  last_mod = 0;
  path_type = unknown;
}

-- `enum trailing_char`
pub data TrailingChar : Type 0 where
  trailing_slash trailing_char : TrailingChar

-- The status with what is behind the pointers.
pub record Resolved : Type 0 where
  pub status : Status
  pub client : Client
  pub rp : ResolvedPath
  pub world : World

-- get_file_path_slash, get_file_path_char and the table of the two
pub index_path : TrailingChar → Bytes → Bytes → Bytes
index_path trailing_slash path dir_index = bounded_copy (path ++ dir_index) path_max
index_path trailing_char path dir_index = bounded_copy (path ++ b'/' ∷ dir_index) path_max

-- The extension table.
abbrev pub mime_table : List (Bytes × Bytes)
mime_table =
    (codes ".html", codes "text/html")
    ∷ (codes ".htm", codes "text/html")
    ∷ (codes ".txt", codes "text/plain; charset=utf-8")
    ∷ (codes ".csv", codes "text/csv; charset=utf-8")
    ∷ (codes ".md", codes "text/markdown; charset=utf-8")
    ∷ (codes ".xml", codes "application/xml")
    ∷ (codes ".json", codes "application/json")
    ∷ (codes ".map", codes "application/json")
    ∷ (codes ".wasm", codes "application/wasm")
    ∷ (codes ".mjs", codes "text/javascript")
    ∷ (codes ".cjs", codes "text/javascript")
    ∷ (codes ".jpeg", codes "image/jpeg")
    ∷ (codes ".jpg", codes "image/jpeg")
    ∷ (codes ".gif", codes "image/gif")
    ∷ (codes ".svg", codes "image/svg+xml")
    ∷ (codes ".webp", codes "image/webp")
    ∷ (codes ".ico", codes "image/x-icon")
    ∷ (codes ".woff", codes "font/woff")
    ∷ (codes ".woff2", codes "font/woff2")
    ∷ (codes ".ttf", codes "font/ttf")
    ∷ (codes ".otf", codes "font/otf")
    ∷ (codes ".mp3", codes "audio/mpeg")
    ∷ (codes ".wav", codes "audio/wav")
    ∷ (codes ".mp4", codes "video/mp4")
    ∷ (codes ".webm", codes "video/webm")
    ∷ (codes ".pdf", codes "application/pdf")
    ∷ (codes ".zip", codes "application/zip")
    ∷ (codes ".gz", codes "application/gzip")
    ∷ (codes ".tgz", codes "application/gzip")
    ∷ (codes ".tar", codes "application/x-tar")
    ∷ []

-- The ladder of `strcasecmp` tests, as a search of the table.
pub mime_lookup : Bytes → List (Bytes × Bytes) → Option Bytes
mime_lookup ext [] = none
mime_lookup ext ((e, m) ∷ rest) = if strcasecmp_zero ext e then some m else mime_lookup ext rest

unfoldable pub get_mime_type_by_ext : Host → Bytes → ℕ → Option Bytes
unfolding mime_lookup
get_mime_type_by_ext h filename file_des = elim (strrchr filename b'.') [
  | none ↦ h.magic_descriptor file_des
  | some ext ↦ elim (mime_lookup ext mime_table) [
    | some m ↦ some m
    | none ↦ h.magic_descriptor file_des
  ]
]

unfoldable pub path_includes_cgi : Bytes → Bool
path_includes_cgi path = found (strnstr path (codes "./cgi-bin/") 10)

unfoldable pub get_last_char : Bytes → TrailingChar
get_last_char path =
    if get_or path (length path - 1) 0 == b'/' then trailing_slash else trailing_char

-- HANDLE_DIR_INDEX and the `return 0` behind it
pub handle_dir_index : Host → Client → ResolvedPath → File → World → Resolved
handle_dir_index h c rp index w = elim (h.fstat index.node) [
  | none ↦ record {
    status = failure;
    client = record c { resp_val = resp_500 };
    rp = record rp { file_ptr = some index };
    world = fclose index w;
  }
  | some st ↦ record {
    status = success;
    client = record c { file_ptr = some index; file_size = st.st_size };
    rp = record rp {
      file_ptr = some index;
      file_size = st.st_size;
      mime_type = some (codes "text/html");
      last_mod = st.st_mtime;
      path_type = is_file;
    };
    world = w;
  }
]

-- `if (S_ISDIR(st.st_mode))`
pub resolve_dir : Host → Client → Bytes → ResolvedPath → File → Stat → World → Resolved
unfolding handle_dir_index
resolve_dir h c local_path rp dir_fp st w =
    elim (fopen h (index_path (get_last_char local_path) local_path (codes "index.htm")) w) [
      | stream index w₁ ↦ handle_dir_index h c rp index (fclose dir_fp w₁)
      | not_opened _ ↦
          elim (fopen h (index_path (get_last_char local_path) local_path (codes "index.html")) w) [
            | stream index w₁ ↦ handle_dir_index h c rp index (fclose dir_fp w₁)
            | not_opened _ ↦ record {
              status = success;
              client = c;
              rp = record rp { last_mod = st.st_mtime; path_type = is_dir; file_ptr = none };
              world = fclose dir_fp w;
            }
          ]
    ]

-- The rest of resolve_path for a directory or a regular file.
pub resolve_kind : Host → Client → Bytes → ResolvedPath → File → Stat → World → Resolved
unfolding resolve_dir
resolve_kind h c local_path rp f st w =
    if st.is_dir then resolve_dir h c local_path rp f st w else record {
      status = success;
      client = record c { file_ptr = some f; file_size = st.st_size };
      rp = record rp {
        last_mod = st.st_mtime;
        mime_type = get_mime_type_by_ext h local_path f.node;
        file_size = st.st_size;
      };
      world = w;
    }

-- `if (rp->file_ptr)`, behind a `fopen` that succeeded
pub resolve_open : Host → Client → Bytes → ResolvedPath → File → World → Resolved
unfolding resolve_kind
resolve_open h c local_path rp f w = elim (h.fstat f.node) [
  | none ↦ record {
    status = failure;
    client = record c { resp_val = resp_500 };
    rp = rp;
    world = fclose f w;
  }
  | some st ↦
      if path_includes_cgi local_path
      then (if has_flag h.app_flags c_flag
          then resolve_kind h c local_path (record rp { path_type = is_cgi }) f st w
          else record {
            status = failure;
            client = record c { resp_val = resp_501 };
            rp = record rp { file_ptr = none; path_type = unknown };
            world = w;
          })
      else resolve_kind h c local_path (record rp { path_type = is_file }) f st w
]

-- The response code for a file that cannot be opened.
abbrev pub open_error : Lookup → ClientResponse
open_error eacces = resp_403
open_error _ = resp_404

abbrev pub or_empty : Option Bytes → Bytes
or_empty none = []
or_empty (some s) = s

-- The first token of the path buffer, which is never NULL since the buffer begins with a dot.
unfoldable pub split_query : Bytes → Bytes × Option Bytes
split_query path =
    let first = strtok b'?' (bounded_copy (b'.' ∷ path) path_max) in
    (or_empty first.0, (strtok b'?' first.1).0)

abbrev pub with_query : ResolvedPath → Option Bytes → ResolvedPath
with_query rp none = rp
with_query rp (some q) = record rp { query_string = bounded_copy q path_max }

unfoldable pub resolve_path : Host → Client → Request → ResolvedPath → World → Resolved
unfolding resolve_open
resolve_path h c req rp w =
    let parts = split_query req.path in
    let rp₁ = with_query rp parts.1 in
    elim (fopen h parts.0 w) [
      | stream f w₁ ↦ resolve_open h c parts.0 (record rp₁ { file_ptr = some f }) f w₁
      | not_opened e ↦ record {
        status = failure;
        client = record c { resp_val = open_error e };
        rp = record rp₁ { file_ptr = none };
        world = w;
      }
    ]

unfoldable pub close_resolve_path_ptr : ResolvedPath → World → ResolvedPath × World
close_resolve_path_ptr rp w = elim rp.file_ptr [
  | none ↦ (rp, w)
  | some f ↦ (record rp { file_ptr = none }, fclose f w)
]
