-- ===== src/Connections/Fresh.antt =====
-- A slot that was just filled, and what a table has grown by.
use simple_web_server.Base.{
  lt-cases, ℕ, suc, ◌+◌, ◌<◌, ◌≤◌, ◌≡◌, refl, ap, ◌∙◌, arith, length-set, set, get_or-set_self,
  get_or-set_ne, inl, inr, Option, none,
}
use simple_web_server.Client.{Client, reading, num_client_resp}
use simple_web_server.CString.{Bytes}
use simple_web_server.Connections.{
  Pollfd, Table, pollfd_at, client_at, blank_pollfd, blank_client, fill_slot, new_pollfd,
  new_client, pollin, set_address, address_text,
}
use simple_web_server.Connections.Entries.{IsSized}
use simple_web_server.Connections.Room.{HasRoom}

-- A connection that has just been accepted: nothing read, nothing staged, waiting for input.
pub record IsFresh (p : Pollfd) (c : Client) : Type 0 where
  pub paired : p.fd ≡ c.fd
  pub events : p.events ≡ pollin
  pub quiet : p.revents ≡ 0
  pub state : c.state ≡ reading
  pub no_input : c.in_buf ≡ none
  pub input_length : c.input_length ≡ 0
  pub input_capacity : c.input_capacity ≡ 0
  pub no_output : c.out_buf ≡ none
  pub output_length : c.output_length ≡ 0
  pub output_sent : c.output_sent ≡ 0
  pub header_len : c.header_len ≡ 0
  pub no_body : c.body_len ≡ 0
  pub body_sent : c.body_sent ≡ 0
  pub no_size : c.file_size ≡ 0
  pub no_file : c.file_ptr ≡ none
  pub no_code : c.resp_val ≡ num_client_resp

-- A slot that is filled is fresh, whatever its address.
pub new_client-IsFresh :
    (newfd : ℕ) (old : Client) (addr : Bytes)
    → IsFresh (new_pollfd newfd) (record (new_client old newfd) { client_addr = addr })
new_client-IsFresh newfd old addr = record {
  paired = refl;
  events = refl;
  quiet = refl;
  state = refl;
  no_input = refl;
  input_length = refl;
  input_capacity = refl;
  no_output = refl;
  output_length = refl;
  output_sent = refl;
  header_len = refl;
  no_body = refl;
  body_sent = refl;
  no_size = refl;
  no_file = refl;
  no_code = refl;
}

-- What is behind `n` more connections: the old slots as they were, and fresh ones.
pub record Grew (t u : Table) (n : ℕ) : Type 0 where
  pub sized : IsSized u
  pub positive : 0 < u.fd_size
  pub count : u.fd_count ≡ t.fd_count + n
  pub kept_pollfd : (j : ℕ) → j < t.fd_count → pollfd_at u j ≡ pollfd_at t j
  pub kept_client : (j : ℕ) → j < t.fd_count → client_at u j ≡ client_at t j
  pub fresh : (j : ℕ) → t.fd_count ≤ j → j < u.fd_count → IsFresh (pollfd_at u j) (client_at u j)

abbrev pub with_socket : ℕ → Option Bytes → Table → Table
with_socket newfd a g = set_address (fill_slot newfd g).0 (fill_slot newfd g).1 a

module _ (newfd : ℕ) (a : Option Bytes) (t g : Table) (r : HasRoom t g) where
  abbrev pub slot : ℕ
  slot = g.fd_count

  abbrev pub filled_client : Client
  filled_client = new_client (client_at g slot) newfd

  client_set : client_at (fill_slot newfd g).0 slot ≡ filled_client
  unfolding fill_slot
  client_set =
      get_or-set_self g.clients slot filled_client blank_client
        (omega (arith, r.room, r.sized.clients_size))

  slot_pollfd : pollfd_at (with_socket newfd a g) slot ≡ new_pollfd newfd
  unfolding set_address fill_slot
  slot_pollfd =
      get_or-set_self g.pfds slot (new_pollfd newfd) blank_pollfd
        (omega (arith, r.room, r.sized.pfds_size))

  pub slot_client :
      client_at (with_socket newfd a g) slot
      ≡ record (filled_client) { client_addr = address_text a }
  unfolding set_address fill_slot
  slot_client =
      get_or-set_self (set g.clients slot filled_client) slot _ blank_client
        (omega (arith, r.room, r.sized.clients_size, length-set g.clients slot filled_client))
      ∙ ap (λ (c : Client). record c { client_addr = address_text a }) client_set

  pub with_socket-Grew : 0 < t.fd_size → Grew t (with_socket newfd a g) 1
  unfolding set_address fill_slot
  with_socket-Grew p = record {
    sized = record {
      fits = omega (arith, r.room);
      pfds_size = length-set g.pfds slot _ ∙ r.sized.pfds_size;
      clients_size =
          length-set (set g.clients slot filled_client) slot _
          ∙ length-set g.clients slot filled_client
          ∙ r.sized.clients_size;
    };
    positive = omega (arith, r.room);
    count = omega (arith, r.same_count);
    kept_pollfd = λ j h.
        get_or-set_ne g.pfds slot j _ blank_pollfd (λ e. omega (arith, r.same_count))
        ∙ r.same_pollfd j h;
    kept_client = λ j h.
        get_or-set_ne (set g.clients slot filled_client) slot j _ blank_client
          (λ e. omega (arith, r.same_count))
        ∙ get_or-set_ne g.clients slot j _ blank_client (λ e. omega (arith, r.same_count))
        ∙ r.same_client j h;
    fresh = λ j lo hi. fresh_slot j (omega (arith, r.same_count));
  }
    where
      fresh_slot :
          (j : ℕ)
          → j ≡ slot
          → IsFresh (pollfd_at (with_socket newfd a g) j) (client_at (with_socket newfd a g) j)
      fresh_slot j e =
          rw (e, slot_pollfd, slot_client)
            (new_client-IsFresh newfd (client_at g slot) (address_text a))

pub Grew-refl : (t : Table) → IsSized t → 0 < t.fd_size → Grew t t 0
Grew-refl t s p = record {
  sized = s;
  positive = p;
  count = omega arith;
  kept_pollfd = λ j h. refl;
  kept_client = λ j h. refl;
  fresh = λ j lo hi. absurd (omega arith);
}

pub Grew-trans : {t u v : Table} (n : ℕ) → Grew t u 1 → Grew u v n → Grew t v (suc n)
Grew-trans {t} {u} {v} n a b = record {
  sized = b.sized;
  positive = b.positive;
  count = omega (arith, a.count, b.count);
  kept_pollfd = λ j h. b.kept_pollfd j (omega (arith, a.count)) ∙ a.kept_pollfd j h;
  kept_client = λ j h. b.kept_client j (omega (arith, a.count)) ∙ a.kept_client j h;
  fresh = λ j lo hi. elim (lt-cases j u.fd_count) [
    | inl old ↦ rw (b.kept_pollfd j old, b.kept_client j old) (a.fresh j lo old)
    | inr new ↦ b.fresh j new hi
  ];
}
