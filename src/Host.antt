-- ===== src/Host.antt =====
-- What the server asks of the operating system, of libmagic and of a CGI script: parameters of the
-- model, as functions of what is asked. And the state behind `FILE *`: which streams are open.
pub mod Streams
use simple_web_server.Base.{
  ℕ, suc, ◌+◌, Bool, true, false, ◌||◌, Option, none, some, List, [], ◌∷◌, ◌++◌, ◌==◌,
  if◌then◌else◌,
}
use simple_web_server.Client.{File}
use simple_web_server.CString.{Bytes}

-- The parts of `struct stat` that are read.
pub record Stat : Type 0 where
  pub is_dir : Bool
  pub st_size : ℕ
  pub st_mtime : ℕ

-- `fopen(path, "r")`: the file that the name leads to, or why there is none.
pub data Lookup : Type 0 where
  node : ℕ → Lookup
  eacces : Lookup
  other_error : Lookup

-- An entry that `readdir` returns.
pub record Dirent : Type 0 where
  pub d_name : Bytes
  pub is_dir : Bool

-- One `read` from the pipe of a CGI script: bytes, EINTR or another error. No more: end of file.
pub data PipeRead : Type 0 where
  bytes : Bytes → PipeRead
  interrupted : PipeRead
  broken : PipeRead

-- How a CGI script is asked for: its path and its environment.
pub record CgiCall : Type 0 where
  pub script_name : Bytes
  pub query_string : Bytes
  pub request_method : Bytes
  pub server_protocol : Bytes
  pub gateway_interface : Bytes
  pub remote_addr : Bytes
  pub server_software : Bytes

-- What comes of it.
pub record CgiRun : Type 0 where
  pub pipe_ok : Bool
  pub fork_ok : Bool
  pub malloc_ok : Bool
  pub reads : List PipeRead
  pub waitpid_ok : Bool
  pub exited_zero : Bool

pub record Host : Type 0 where
  pub app_flags : ℕ
  -- the clock, as `strftime` writes it
  pub now : Bytes
  pub lookup : Bytes → Lookup
  pub fstat : ℕ → Option Stat
  -- all that `fread` gives from the start of a file
  pub contents : ℕ → Bytes
  pub opendir : Bytes → Option (List Dirent)
  pub magic_descriptor : ℕ → Option Bytes
  -- `gmtime` and `strftime` of a time stamp
  pub time_text : ℕ → Option Bytes
  pub body_stream_ok : Bool
  pub out_stream_ok : Bool
  pub error_stream_ok : Bool
  -- whether an allocation of that many bytes, or slots, is granted
  pub malloc_ok : ℕ → Bool
  pub cgi_run : CgiCall → CgiRun

-- What the outside sees, in order.
pub data Effect : Type 0 where
  accepted : ℕ → Effect
  closed : ℕ → Effect
  sent : ℕ → Bytes → Effect
  shut_down : ℕ → Effect
  logged : Bytes → Effect

-- Streams are numbered as they are opened. `bad_closes` counts the calls of `fclose` on a stream
-- that is not open, which is undefined behaviour.
pub record World : Type 0 where
  pub next_handle : ℕ
  pub open_files : List ℕ
  pub bad_closes : ℕ
  pub effects : List Effect

abbrev pub emit : Effect → World → World
emit e w = record w { effects = w.effects ++ e ∷ [] }

unfoldable pub is_open : ℕ → List ℕ → Bool
is_open n [] = false
is_open n (m ∷ ms) = n == m || is_open n ms

pub remove : ℕ → List ℕ → List ℕ
remove n [] = []
remove n (m ∷ ms) = if n == m then ms else m ∷ remove n ms

pub data Opened : Type 0 where
  stream : File → World → Opened
  not_opened : Lookup → Opened

unfoldable pub fopen : Host → Bytes → World → Opened
fopen h path w = elim (h.lookup path) [
  | node n ↦
      stream (record { handle = w.next_handle; node = n })
        (record w { next_handle = suc w.next_handle; open_files = w.next_handle ∷ w.open_files })
  | eacces ↦ not_opened eacces
  | other_error ↦ not_opened other_error
]

unfoldable pub fclose : File → World → World
unfolding is_open remove
fclose f w =
    if is_open f.handle w.open_files
    then record w { open_files = remove f.handle w.open_files }
    else record w { bad_closes = w.bad_closes + 1 }
