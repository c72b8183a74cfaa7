-- ===== src/Tests/Fixtures.antt =====
-- A host with one file and one CGI script, and what is asked of it.
use simple_web_server.Base.{
  ℕ, zero, suc, get_or, ◌≤◌, ◌<◌, ◌^◌, ◌≡◌, refl, ap, ◌∙◌, sym, subst, true, false, none, some, [],
  ◌∷◌, Option, arith, length,
}
use simple_web_server.Client.{Client}
use simple_web_server.Connections.{Pollfd, Table, blank_client, blank_pollfd}
use simple_web_server.Connections.Entries.{IsSized}
use simple_web_server.CString.{Bytes, codes}
use simple_web_server.Host.{Host, World, Stat, node, bytes, CgiRun, CgiCall}
use simple_web_server.Read.Append.{IsBuffered}
use simple_web_server.Read.Answers.{IsReliable}
use simple_web_server.Response.Script.{output, read_cgi}
use simple_web_server.Server.Invariant.{IsTable}

abbrev script_run : CgiRun
script_run = record {
  pipe_ok = true;
  fork_ok = true;
  malloc_ok = true;
  reads = bytes (codes "ok") ∷ [];
  waitpid_ok = true;
  exited_zero = true;
}

abbrev pub stat_of_a : Stat
stat_of_a = record { is_dir = false; st_size = 2; st_mtime = 0 }

abbrev pub host : Host
host = record {
  app_flags = 1;
  now = codes "Thu";
  lookup = λ p. node 1;
  fstat = λ n. some stat_of_a;
  contents = λ n. codes "hi";
  opendir = λ p. none;
  magic_descriptor = λ n. none;
  time_text = λ t. some (codes "Fri");
  body_stream_ok = true;
  out_stream_ok = true;
  error_stream_ok = true;
  malloc_ok = λ n. true;
  cgi_run = λ call. script_run;
}

abbrev pub client : Client
client = record (blank_client) { fd = 5; client_addr = codes "::1" }

abbrev pub slot : Pollfd
slot = record { fd = 5; events = 1; revents = 1 }

abbrev pub world : World
world = record { next_handle = 1; open_files = []; bad_closes = 0; effects = [] }

abbrev pub message : Bytes
message = codes "GET /a.txt HTTP/1.0\r\n\r\n"

some-injective {ℓ} : {A : Type ℓ} {a b : A} → ◌≡◌ {A = Option A} (some a) (some b) → a ≡ b
some-injective e = cc

output-injective : {a b : Bytes} → output a ≡ output b → a ≡ b
output-injective e = cc

script_output :
    (call : CgiCall) → read_cgi host (host.cgi_run call).reads 8192 [] ≡ output (codes "ok")
unfolding read_cgi
script_output call = refl

pub host-IsReliable : IsReliable host
host-IsReliable = record {
  now_plain = omega arith;
  now_short = omega arith;
  time_plain = λ t m e. rw (sym (some-injective e)) (omega arith);
  magic_plain = λ n m e. absurd (no_text e);
  contents_size = λ n st e. ap (λ (s : Stat). s.st_size) (some-injective e);
  cgi_size = λ call out e.
      subst (λ s. length s < 10 ^ 20) (output-injective (sym (script_output call) ∙ e))
        (omega arith);
  pages = refl;
}
  where
    no_text : {m : Bytes} → ◌≡◌ {A = Option Bytes} none (some m) → ⊥
    no_text e = cc

pub client-IsBuffered : IsBuffered client
client-IsBuffered = record {
  counted = refl;
  fits = omega arith;
  allowed = omega arith;
  bounded = omega arith;
}

-- A listener and two connections, in arrays of four slots.
abbrev pub slot_of : ℕ → Pollfd
slot_of n = record { fd = n; events = 1; revents = 0 }

abbrev pub client_of : ℕ → Client
client_of n = record (blank_client) { fd = n }

abbrev pub table : Table
table = record {
  pfds = slot_of 3 ∷ slot_of 5 ∷ slot_of 6 ∷ blank_pollfd ∷ [];
  clients = blank_client ∷ client_of 5 ∷ client_of 6 ∷ blank_client ∷ [];
  fd_count = 3;
  fd_size = 4;
}

pub table-IsSized : IsSized table
table-IsSized = record { fits = omega arith; pfds_size = refl; clients_size = refl }

pub table-IsTable : IsTable 1 table
table-IsTable = record {
  sized = table-IsSized;
  some_listener = omega arith;
  listeners = omega arith;
  paired = λ j nj l. paired_at j nj l;
}
  where
    paired_at :
        (j : ℕ)
        → 1 ≤ j
        → j < 3
        → (get_or table.pfds j blank_pollfd).fd ≡ (get_or table.clients j blank_client).fd
    paired_at zero nj l = absurd (omega arith)
    paired_at (suc zero) nj l = refl
    paired_at (suc (suc zero)) nj l = refl
    paired_at (suc (suc (suc j))) nj l = absurd (omega arith)
