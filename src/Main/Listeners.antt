-- ===== src/Main/Listeners.antt =====
-- The listeners of a configuration that setFlags let through.
use simple_web_server.Base.{
  none-some, ℕ, ◌≡◌, refl, sym, subst, ap, ◌∙◌, ◌⊎◌, inl, inr, arith, Bool, true, false, Option,
  none, some,
}
use simple_web_server.Client.{has_flag, b4_flag, b6_flag}
use simple_web_server.Connections.{running, exited}
use simple_web_server.CString.{Bytes}
use simple_web_server.Flags.{Env, Config, or_none}
use simple_web_server.Flags.Configured.{IsConfigured, Valued}
use simple_web_server.Flags.Words.{has_x, has_y}
use simple_web_server.Main.{get_if}
use simple_web_server.Server.{use_v4, use_v6}
use simple_web_server.Sockets.{Calls, Socket, Made, exits, returns_error, listener}
use simple_web_server.Sockets.Listens.{Failed, IsListener, Results}

-- `inet_pton` answers as it did when the command line was checked.
abbrev pub Agrees : (Bytes → Bool) → Calls → Type 0
Agrees is_valid k =
    (a : Bytes) → is_valid a ≡ true → (address : Bytes) × (k.inet_pton a ≡ some address)

-- A listener, or none where none is wanted.
pub data Opens (is_wanted : Bool) (P : Socket → Type 0) : Option ℕ → Type 0 where
  opens : (s : Socket) → is_wanted ≡ true → P s → Opens is_wanted P (some s.fd)
  not_wanted : is_wanted ≡ false → Opens is_wanted P none

-- With a valid address, the function does not return -1.
not_refused :
    (k : Calls) (is_valid : Bytes → Bool) (is_given : Bool) (bind_addr : Option Bytes)
    → Agrees is_valid k
    → Valued is_valid is_given bind_addr
    → is_given ≡ true
    → k.inet_pton (or_none bind_addr) ≡ none
    → ⊥
not_refused k is_valid false bind_addr agrees v g e = cc
not_refused k is_valid true bind_addr agrees (a, at, valid) g e =
    let (address, read) = agrees a valid in
    none-some (sym e ∙ ap (λ o. k.inet_pton (or_none o)) at ∙ read)

module _ (k : Calls) (is_valid : Bytes → Bool) (is_given : Bool) (bind_addr : Option Bytes)
    (any : Bytes) (v6_only : Bool) (port : ℕ) (agrees : Agrees is_valid k)
    (valued : Valued is_valid is_given bind_addr) where
  abbrev IsOurs : Socket → Type 0
  IsOurs s = IsListener k is_given bind_addr any v6_only port s

  pub get_if-Opens :
      (is_wanted : Bool) (m : Made)
      → Results k is_given bind_addr any v6_only port m
      → ((get_if is_wanted m ≡ exited) × (is_wanted ≡ true) × Failed k is_given bind_addr any)
        ⊎ ((l : Option ℕ) × (get_if is_wanted m ≡ running l) × Opens is_wanted IsOurs l)
  unfolding get_if
  get_if-Opens false m r = inr (none, refl, not_wanted refl)
  get_if-Opens true exits r = inl (refl, refl, r)
  get_if-Opens true (returns_error s) (g, e, _, _) =
      absurd (not_refused k is_valid is_given bind_addr agrees valued g e)
  get_if-Opens true (listener s note) r = inr (some s.fd, refl, opens s refl r)

module _ (env : Env) (c : Config) (s : IsConfigured env c) where
  pub given4 : has_flag c.app_flags b4_flag ≡ s.bind4
  given4 = ap (λ n. has_flag n b4_flag) s.flags ∙ has_x s.cgi s.verbose s.bind4 s.bind6 s.logs

  pub given6 : has_flag c.app_flags b6_flag ≡ s.bind6
  given6 = ap (λ n. has_flag n b6_flag) s.flags ∙ has_y s.cgi s.verbose s.bind4 s.bind6 s.logs

  pub valued4 : Valued env.is_ipv4 (has_flag c.app_flags b4_flag) c.bind_addr4
  valued4 = subst (λ b. Valued env.is_ipv4 b c.bind_addr4) (sym given4) s.address4

  pub valued6 : Valued env.is_ipv6 (has_flag c.app_flags b6_flag) c.bind_addr6
  valued6 = subst (λ b. Valued env.is_ipv6 b c.bind_addr6) (sym given6) s.address6

-- One of the two listeners is always wanted.
pub some-Opens :
    (app_flags : ℕ) {P Q : Socket → Type 0} {v4 v6 : Option ℕ}
    → Opens (use_v4 app_flags) P v4
    → Opens (use_v6 app_flags) Q v6
    → v4 ≡ none
    → v6 ≡ none
    → ⊥
some-Opens app_flags (opens s w p) o e f = none-some (sym e)
some-Opens app_flags (not_wanted w) (opens s w' q) e f = none-some (sym f)
some-Opens app_flags (not_wanted w) (not_wanted w') e f = ground arith
