-- ===== src/Flags.antt =====
-- flags/flags.h and flags/setFlags.c: the command line, and the configuration it sets.
pub mod Words
pub mod Configured
pub mod Sound
pub mod Port
use Prim.Native.Nat.{bit_and, bit_or}
use simple_web_server.Base.{
  ℕ, ◌+◌, ◌-◌, ◌^◌, Bool, true, false, not, ◌&&◌, ◌||◌, Option, none, some, List, [], ◌∷◌, ltb, leb,
  ◌==◌, if◌then◌else◌, get_or,
}
use simple_web_server.Client.{c_flag, v_flag, b4_flag, b6_flag, l_flag}
use simple_web_server.Connections.{Outcome, running, exited}
use simple_web_server.CString.{Bytes, codes, strcmp_zero, is_digit, read_digits}

-- What the arguments are checked against. `atoi` of a number that is no `int` is undefined; the
-- pattern of 32 bits that it gives is a parameter.
pub record Env : Type 0 where
  pub is_directory : Bytes → Bool
  pub is_ipv4 : Bytes → Bool
  pub is_ipv6 : Bytes → Bool
  pub opens_for_append : Bytes → Bool
  pub is_root : Bool
  pub overflown : Bytes → ℕ

-- `log_ptr`: NULL, `stdout` or a file.
pub data LogPtr : Type 0 where
  no_log : LogPtr
  standard_out : LogPtr
  log_file : Bytes → LogPtr

-- The global variables.
pub record Config : Type 0 where
  pub app_flags : ℕ
  pub port_addr : ℕ
  pub bind_addr4 : Option Bytes
  pub bind_addr6 : Option Bytes
  pub cgi_addr : Option Bytes
  pub log_addr : Option Bytes
  pub log_ptr : LogPtr
  -- the log files that were opened and closed again
  pub closed_logs : List Bytes

abbrev pub initial : Config
initial = record {
  app_flags = 0;
  port_addr = 8080;
  bind_addr4 = none;
  bind_addr6 = none;
  cgi_addr = none;
  log_addr = none;
  log_ptr = no_log;
  closed_logs = [];
}

-- `if (log_ptr != NULL && log_ptr != stdout) fclose(log_ptr);`
abbrev pub close_log : LogPtr → List Bytes → List Bytes
close_log no_log logs = logs
close_log standard_out logs = logs
close_log (log_file f) logs = f ∷ logs

-- `app_flags |= flag` and `app_flags &= ~flag`, on 32 bits.
unfoldable pub with_flag : ℕ → ℕ → ℕ
with_flag app_flags flag = bit_or app_flags flag

unfoldable pub without_flag : ℕ → ℕ → ℕ
without_flag app_flags flag = bit_and app_flags (2 ^ 32 - 1 - flag)

pub check_port_number : Bytes → Bool
check_port_number [] = true
check_port_number (c ∷ port) = is_digit c && check_port_number port

-- `atoi` of digits, as 32 bits
pub atoi : Env → Bytes → ℕ
atoi env s = let n = read_digits 0 s in if ltb n (2 ^ 31) then n else env.overflown s

-- `port <= 1024` on an `int`
pub is_low : ℕ → Bool
is_low port = leb port 1024 || leb (2 ^ 31) port

-- What one round of the loop comes to: the next argument is read, or the one behind it.
pub data Round : Type 0 where
  next : Config → Round
  skip : Config → Round
  fails : Round

-- `i == argc - 1 || argv[i + 1][0] == '-'`
abbrev pub no_value : Option Bytes → Bool
no_value none = true
no_value (some v) = get_or v 0 0 == b'-'

abbrev pub or_none : Option Bytes → Bytes
or_none none = []
or_none (some v) = v

abbrev is_last : Option Bytes → Bool
is_last none = true
is_last (some v) = false

-- `argv[i]` with what is behind it.
pub round : Env → Bytes → Option Bytes → Config → Round
unfolding with_flag without_flag check_port_number atoi is_low
round env arg following c =
    let v = or_none following in
    let port = atoi env v in
    if not (get_or arg 0 0 == b'-')
    then next c
    else if strcmp_zero arg (codes "-c")
    then (if is_last following
        then fails
        else if not (env.is_directory v)
        then fails
        else skip (record c { cgi_addr = some v; app_flags = with_flag c.app_flags c_flag }))
    else if strcmp_zero arg (codes "-v")
    then next (record c {
      log_ptr = standard_out;
      closed_logs = close_log c.log_ptr c.closed_logs;
      app_flags = with_flag (without_flag c.app_flags l_flag) v_flag;
    })
    else if strcmp_zero arg (codes "-bind4")
    then (if no_value following
        then fails
        else if not (env.is_ipv4 v)
        then fails
        else skip (record c { bind_addr4 = some v; app_flags = with_flag c.app_flags b4_flag }))
    else if strcmp_zero arg (codes "-bind6")
    then (if no_value following
        then fails
        else if not (env.is_ipv6 v)
        then fails
        else skip (record c { bind_addr6 = some v; app_flags = with_flag c.app_flags b6_flag }))
    else if strcmp_zero arg (codes "-l")
    then (if no_value following
        then fails
        else if not (env.opens_for_append v)
        then fails
        else skip (record c {
          log_addr = some v;
          log_ptr = log_file v;
          closed_logs = close_log c.log_ptr c.closed_logs;
          app_flags = without_flag (with_flag c.app_flags l_flag) v_flag;
        }))
    else if strcmp_zero arg (codes "-p")
    then (if is_last following || not (check_port_number v)
        then fails
        else if is_low port && not env.is_root
        then fails
        else skip (record c { port_addr = port }))
    else fails

-- The arguments behind the name of the program.
unfoldable pub set_flags : Env → List Bytes → Config → Outcome Config
unfolding round
set_flags env [] c = running c
set_flags env (arg ∷ []) c = elim (round env arg none c) [
  | next c' ↦ running c'
  | skip c' ↦ running c'
  | fails ↦ exited
]
set_flags env (arg ∷ v ∷ rest) c = elim (round env arg (some v) c) [
  | next c' ↦ set_flags env (v ∷ rest) c'
  | skip c' ↦ set_flags env rest c'
  | fails ↦ exited
]
