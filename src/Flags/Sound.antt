-- ===== src/Flags/Sound.antt =====
-- What holds of a configuration that setFlags lets through.
use simple_web_server.Base.{◌≡◌, refl, subst, true, false, none, some, List, [], ◌∷◌}
use simple_web_server.Connections.{Outcome, running, exited}
use simple_web_server.CString.{Bytes}
use simple_web_server.Flags.{
  Env, Config, initial, Round, next, skip, fails, is_low, round, set_flags,
}
use simple_web_server.Flags.Configured.{IsConfigured, nowhere, AfterRound, round-AfterRound}

initial-IsConfigured : (env : Env) → IsConfigured env initial
initial-IsConfigured env = record {
  cgi = false;
  verbose = false;
  bind4 = false;
  bind6 = false;
  logs = false;
  flags = refl;
  cgi_dir = tt;
  address4 = tt;
  address6 = tt;
  log = nowhere;
  port = λ low. absurd (high low);
}
  where
    high : is_low 8080 ≡ true → ⊥
    high e = unfold is_low in cc

abbrev LetThrough : Env → Outcome Config → Type 0
LetThrough env exited = Unit {0}
LetThrough env (running c) = IsConfigured env c

set_flags-from :
    (env : Env) (args : List Bytes) (c : Config)
    → IsConfigured env c
    → LetThrough env (set_flags env args c)
unfolding set_flags
set_flags-from env [] c s = s
set_flags-from env (arg ∷ []) c s = last (round env arg none c) (round-AfterRound env arg none c s)
  where
    last :
        (r : Round)
        → AfterRound env r
        → LetThrough env (elim r [ next d ↦ running d | skip d ↦ running d | fails ↦ exited ])
    last (next d) k = k
    last (skip d) k = k
    last fails k = tt
set_flags-from env (arg ∷ v ∷ rest) c s =
    more (set_flags-from env (v ∷ rest)) (set_flags-from env rest) (round env arg (some v) c)
      (round-AfterRound env arg (some v) c s)
  where
    more :
        ((d : Config) → IsConfigured env d → LetThrough env (set_flags env (v ∷ rest) d))
        → ((d : Config) → IsConfigured env d → LetThrough env (set_flags env rest d))
        → (r : Round) → AfterRound env r
        → LetThrough env (elim r [
          | next d ↦ set_flags env (v ∷ rest) d
          | skip d ↦ set_flags env rest d
          | fails ↦ exited
        ])
    more one two (next d) k = one d k
    more one two (skip d) k = two d k
    more one two fails k = tt

-- Whatever the command line, setFlags exits or lets a configuration through that was checked: the
-- word of the flags has no bits but theirs, each flag with a value has one that is a directory, an
-- IPv4 or an IPv6 address, the log goes to the file or to the standard output exactly as the two
-- flags say, of which one is set at the most, and a port up to 1024 is root's.
pub set_flags-IsConfigured :
    (env : Env) (args : List Bytes) {c : Config}
    → set_flags env args initial ≡ running c
    → IsConfigured env c
set_flags-IsConfigured env args e =
    subst (LetThrough env) e (set_flags-from env args initial (initial-IsConfigured env))
