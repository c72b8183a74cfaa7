-- ===== src/Tests/Flags.antt =====
-- The theorems on the command line.
use simple_web_server.Base.{◌≡◌, refl, true, false, some, [], ◌∷◌, List, arith}
use simple_web_server.Connections.{running}
use simple_web_server.CString.{Bytes, codes, decimal, strcmp_zero}
use simple_web_server.Flags.{log_file, Env, Config, initial, set_flags, with_flag, without_flag}
use simple_web_server.Flags.Configured.{IsConfigured}
use simple_web_server.Flags.Sound.{set_flags-IsConfigured}
use simple_web_server.Flags.Port.{set_flags-port}

abbrev pub env : Env
env = record {
  is_directory = λ d. true;
  is_ipv4 = λ a. false;
  is_ipv6 = λ a. false;
  opens_for_append = λ f. true;
  is_root = false;
  overflown = λ s. 0;
}

abbrev args : List Bytes
args = codes "-v" ∷ codes "-c" ∷ codes "cgi-bin" ∷ codes "-l" ∷ codes "log" ∷ []

abbrev config : Config
config = record initial {
  app_flags = 33;
  cgi_addr = some (codes "cgi-bin");
  log_addr = some (codes "log");
  log_ptr = log_file (codes "log");
}

args_run : set_flags env args initial ≡ running config
unfolding set_flags strcmp_zero with_flag without_flag
args_run = refl

set_flags-IsConfigured_example : IsConfigured env config
set_flags-IsConfigured_example = set_flags-IsConfigured env args args_run

set_flags-port_example :
    set_flags env (codes "-p" ∷ decimal 8081 ∷ []) initial
    ≡ set_flags env [] (record initial { port_addr = 8081 })
set_flags-port_example = set_flags-port env 8081 [] initial (omega arith) (omega arith)
