-- ===== src/Flags/Configured.antt =====
-- What a configuration has that was checked, and that each round of setFlags keeps it so.
use simple_web_server.Base.{
  ℕ, ◌≡◌, refl, ap, ◌∙◌, inl, inr, Bool, true, false, not, ◌&&◌, ◌||◌, Bool-cases, Option, some,
  ◌==◌, if◌then◌else◌, get_or, arith,
}
use simple_web_server.CString.{Bytes, codes, strcmp_zero}
use simple_web_server.Flags.{
  Env, Config, LogPtr, no_log, standard_out, log_file, Round, next, skip, fails, no_value,
  check_port_number, atoi, is_low, with_flag, without_flag, round, or_none, is_last, close_log,
}
use simple_web_server.Flags.Words.{word, set_c, set_x, set_y, set_v, set_l}

-- Where the log goes: to a file that could be opened, to the standard output, or nowhere, as the two
-- flags say, which exclude each other.
pub data LogsTo (env : Env) : Bool → Bool → LogPtr → Type 0 where
  nowhere : LogsTo env false false no_log
  to_output : LogsTo env true false standard_out
  to_file : (f : Bytes) → env.opens_for_append f ≡ true → LogsTo env false true (log_file f)

-- The value of a flag that is set was checked.
abbrev pub Valued : (Bytes → Bool) → Bool → Option Bytes → Type 0
Valued is_valid false o = Unit {0}
Valued is_valid true o = (v : Bytes) × (o ≡ some v) × (is_valid v ≡ true)

pub record IsConfigured (env : Env) (c : Config) : Type 0 where
  pub cgi : Bool
  pub verbose : Bool
  pub bind4 : Bool
  pub bind6 : Bool
  pub logs : Bool
  pub flags : c.app_flags ≡ word cgi verbose bind4 bind6 logs
  pub cgi_dir : Valued env.is_directory cgi c.cgi_addr
  pub address4 : Valued env.is_ipv4 bind4 c.bind_addr4
  pub address6 : Valued env.is_ipv6 bind6 c.bind_addr6
  pub log : LogsTo env verbose logs c.log_ptr
  pub port : is_low c.port_addr ≡ true → env.is_root ≡ true

abbrev pub AfterRound : Env → Round → Type 0
AfterRound env (next c) = IsConfigured env c
AfterRound env (skip c) = IsConfigured env c
AfterRound env fails = Unit {0}

module _ (env : Env) (arg : Bytes) (following : Option Bytes) (c : Config)
    (s : IsConfigured env c) where
  with_cgi :
      (d : Bytes)
      → env.is_directory d ≡ true
      → IsConfigured env (record c { cgi_addr = some d; app_flags = with_flag c.app_flags 1 })
  with_cgi d h = record {
    cgi = true;
    verbose = s.verbose;
    bind4 = s.bind4;
    bind6 = s.bind6;
    logs = s.logs;
    flags = ap (λ n. with_flag n 1) s.flags ∙ set_c s.cgi s.verbose s.bind4 s.bind6 s.logs;
    cgi_dir = (d, refl, h);
    address4 = s.address4;
    address6 = s.address6;
    log = s.log;
    port = s.port;
  }

  verbosely : IsConfigured env (record c {
    log_ptr = standard_out;
    closed_logs = close_log c.log_ptr c.closed_logs;
    app_flags = with_flag (without_flag c.app_flags 32) 2;
  })
  verbosely = record {
    cgi = s.cgi;
    verbose = true;
    bind4 = s.bind4;
    bind6 = s.bind6;
    logs = false;
    flags =
        ap (λ n. with_flag (without_flag n 32) 2) s.flags
        ∙ set_v s.cgi s.verbose s.bind4 s.bind6 s.logs;
    cgi_dir = s.cgi_dir;
    address4 = s.address4;
    address6 = s.address6;
    log = to_output;
    port = s.port;
  }

  with_bind4 :
      (a : Bytes)
      → env.is_ipv4 a ≡ true
      → IsConfigured env (record c { bind_addr4 = some a; app_flags = with_flag c.app_flags 8 })
  with_bind4 a h = record {
    cgi = s.cgi;
    verbose = s.verbose;
    bind4 = true;
    bind6 = s.bind6;
    logs = s.logs;
    flags = ap (λ n. with_flag n 8) s.flags ∙ set_x s.cgi s.verbose s.bind4 s.bind6 s.logs;
    cgi_dir = s.cgi_dir;
    address4 = (a, refl, h);
    address6 = s.address6;
    log = s.log;
    port = s.port;
  }

  with_bind6 :
      (a : Bytes)
      → env.is_ipv6 a ≡ true
      → IsConfigured env (record c { bind_addr6 = some a; app_flags = with_flag c.app_flags 16 })
  with_bind6 a h = record {
    cgi = s.cgi;
    verbose = s.verbose;
    bind4 = s.bind4;
    bind6 = true;
    logs = s.logs;
    flags = ap (λ n. with_flag n 16) s.flags ∙ set_y s.cgi s.verbose s.bind4 s.bind6 s.logs;
    cgi_dir = s.cgi_dir;
    address4 = s.address4;
    address6 = (a, refl, h);
    log = s.log;
    port = s.port;
  }

  with_log :
      (f : Bytes)
      → env.opens_for_append f ≡ true
      → IsConfigured env (record c {
        log_addr = some f;
        log_ptr = log_file f;
        closed_logs = close_log c.log_ptr c.closed_logs;
        app_flags = without_flag (with_flag c.app_flags 32) 2;
      })
  with_log f h = record {
    cgi = s.cgi;
    verbose = false;
    bind4 = s.bind4;
    bind6 = s.bind6;
    logs = true;
    flags =
        ap (λ n. without_flag (with_flag n 32) 2) s.flags
        ∙ set_l s.cgi s.verbose s.bind4 s.bind6 s.logs;
    cgi_dir = s.cgi_dir;
    address4 = s.address4;
    address6 = s.address6;
    log = to_file f h;
    port = s.port;
  }

  with_port :
      (p : ℕ)
      → (is_low p && not env.is_root) ≡ false
      → IsConfigured env (record c { port_addr = p })
  with_port p h = record {
    cgi = s.cgi;
    verbose = s.verbose;
    bind4 = s.bind4;
    bind6 = s.bind6;
    logs = s.logs;
    flags = s.flags;
    cgi_dir = s.cgi_dir;
    address4 = s.address4;
    address6 = s.address6;
    log = s.log;
    port = λ low. ground arith;
  }

  abbrev value : Bytes
  value = or_none following

  -- A flag with a value that is checked.
  valued :
      (missing : Bool) (is_valid : Bytes → Bool) (d : Config)
      → (is_valid value ≡ true → IsConfigured env d)
      → AfterRound env (if missing then fails else if not (is_valid value) then fails else skip d)
  valued true is_valid d ok = tt
  valued false is_valid d ok = elim (Bool-cases (is_valid value)) [
    | inl e ↦ rw e (ok e)
    | inr e ↦ rw e tt
  ]

  ported :
      (missing : Bool) (p : ℕ)
      → AfterRound env (
          if missing
          then fails
          else if is_low p && not env.is_root
          then fails
          else skip (record c { port_addr = p }))
  ported true p = tt
  ported false p = elim (Bool-cases (is_low p && not env.is_root)) [
    | inl e ↦ rw e tt
    | inr e ↦ rw e (with_port p e)
  ]

  branch :
      (b : Bool) (x y : Round)
      → AfterRound env x
      → AfterRound env y
      → AfterRound env (if b then x else y)
  branch true x y h k = h
  branch false x y h k = k

  pub round-AfterRound : AfterRound env (round env arg following c)
  unfolding round
  round-AfterRound = branch (not (get_or arg 0 0 == b'-')) _ _ s (
      branch (strcmp_zero arg (codes "-c")) _ _
        (valued (is_last following) env.is_directory _ (with_cgi value))
        (branch (strcmp_zero arg (codes "-v")) _ _ verbosely (
          branch (strcmp_zero arg (codes "-bind4")) _ _
            (valued (no_value following) env.is_ipv4 _ (with_bind4 value))
            (branch (strcmp_zero arg (codes "-bind6")) _ _
              (valued (no_value following) env.is_ipv6 _ (with_bind6 value))
              (branch (strcmp_zero arg (codes "-l")) _ _
                (valued (no_value following) env.opens_for_append _ (with_log value))
                (branch (strcmp_zero arg (codes "-p")) _ _
                  (ported (is_last following || not (check_port_number value)) (atoi env value))
                  tt))))))
