-- ===== src/Read/Loop.antt =====
-- The `recv` loop of client_conn/do_read.c: what is gathered, and what makes it stop.
use simple_web_server.Base.{
  ℕ, ◌+◌, ◌<◌, ◌≤◌, ◌≡◌, refl, sym, ap, ◌∙◌, ◌⊎◌, inl, inr, Bool, true, false, Bool-cases, List, [],
  ◌∷◌, ◌++◌, append_assoc, append-nil, if◌then◌else◌, arith, length, length-append, take,
}
use simple_web_server.Client.{Client, ClientState, reading, processing, closing, resp_414}
use simple_web_server.CString.{Bytes}
use simple_web_server.Host.{Host}
use simple_web_server.Logging.{max_request_size}
use simple_web_server.Read.{
  Recv, received, recv_interrupted, recv_error, append, is_reading, recv_loop, temp_buffer,
}
use simple_web_server.Read.Append.{IsBuffered, append-Appended}
use simple_web_server.Resolve.{or_empty}
use simple_web_server.Response.Common.{is_empty}

-- The bytes that the calls of `recv` put into the scratch buffer, up to the end of the stream or an
-- error.
unfoldable pub gathered : List Recv → Bytes
gathered [] = []
gathered (recv_error ∷ rest) = []
gathered (recv_interrupted ∷ rest) = gathered rest
gathered (received s ∷ rest) =
    if is_empty (take temp_buffer s) then [] else take temp_buffer s ++ gathered rest

-- What the loop stops at.
pub data Stop : Type 0 where
  no_input end_of_stream failed : Stop

unfoldable pub stop : List Recv → Stop
stop [] = no_input
stop (recv_error ∷ rest) = failed
stop (recv_interrupted ∷ rest) = stop rest
stop (received s ∷ rest) = if is_empty (take temp_buffer s) then end_of_stream else stop rest

-- The state behind the loop, and whether do_read goes on.
abbrev pub state_at : Stop → ClientState × Bool
state_at no_input = (reading, true)
state_at end_of_stream = (closing, false)
state_at failed = (closing, true)

abbrev ended : Client × Bool → ClientState × Bool
ended r = (r.0.state, r.1)

-- An allocation that the host refuses.
abbrev pub Refused : Host → Type 0
Refused h = (n : ℕ) × (h.malloc_ok n ≡ false)

-- It is too much for a request; or all that is gathered is in the buffer; or memory was refused.
abbrev pub Looped : Host → List Recv → Client → Client × Bool → Type 0
Looped h answers c r =
    ((max_request_size < c.input_length + length (gathered answers))
      × (ended r ≡ (processing, false))
      × (r.0.resp_val ≡ resp_414))
    ⊎ (((c.input_length + length (gathered answers) ≤ max_request_size)
          × (ended r ≡ state_at (stop answers))
          × (r.0.resp_val ≡ c.resp_val)
          × (or_empty r.0.in_buf ≡ or_empty c.in_buf ++ gathered answers))
        ⊎ (Refused h × (ended r ≡ (closing, false)) × (r.0.resp_val ≡ c.resp_val)))

module _ (h : Host) where
  -- On a connection that is READING with its buffer within its bounds, the loop of do_read keeps the
  -- buffer within them, and ends in one of three ways. If what `recv` gives before the stream ends or fails makes the request longer than
  -- 8192 bytes, the client is left PROCESSING with 414, and do_read returns. If it does not, all of
  -- it is behind the bytes that were there, and the client is left READING, or CLOSING at the end of
  -- the stream and at an error; do_read returns at the end of the stream only. The third way is open
  -- only where the host refuses memory: the client is left CLOSING, and do_read returns.
  pub recv_loop-Looped :
      (answers : List Recv) (c : Client)
      → c.state ≡ reading
      → IsBuffered c
      → IsBuffered (recv_loop h answers c).0 × Looped h answers c (recv_loop h answers c)
  unfolding recv_loop gathered stop
  recv_loop-Looped [] c st s = (
    s,
    inr (
        inl (
          omega (arith, s.allowed),
          ap (λ x. (x, true)) st,
          refl,
          sym (append-nil (or_empty c.in_buf)),
        )),
  )
  recv_loop-Looped (recv_error ∷ rest) c st s = (
    record { counted = s.counted; fits = s.fits; allowed = s.allowed; bounded = s.bounded },
    inr (inl (omega (arith, s.allowed), refl, refl, sym (append-nil (or_empty c.in_buf)))),
  )
  recv_loop-Looped (recv_interrupted ∷ rest) c st s = recv_loop-Looped rest c st s
  recv_loop-Looped (received text ∷ rest) c st s =
      elim (Bool-cases (is_empty (take temp_buffer text))) [
        | inl e ↦ rw e (
          record { counted = s.counted; fits = s.fits; allowed = s.allowed; bounded = s.bounded },
          inr (inl (omega (arith, s.allowed), refl, refl, sym (append-nil (or_empty c.in_buf)))),
        )
        | inr e ↦
            let chunk = take temp_buffer text in
            let (b, appended) = append-Appended h c chunk s in
            let longer = length-append chunk (gathered rest) in
            elim appended [
              | inl (long, d) ↦
                  let stopped : is_reading (append h c chunk).state ≡ false =
                    ap (λ (x : Client). is_reading x.state) d in
                  rw (e, stopped)
                    (
                      b,
                      inl (
                        omega arith,
                        ap (λ (x : Client). (x.state, false)) d,
                        ap (λ (x : Client). x.resp_val) d,
                      ),
                    )
              | inr (fits, inl (refused, d)) ↦
                  let stopped : is_reading (append h c chunk).state ≡ false =
                    ap (λ (x : Client). is_reading x.state) d in
                  rw (e, stopped)
                    (
                      b,
                      inr (
                          inr (
                            (_, refused),
                            ap (λ (x : Client). (x.state, false)) d,
                            ap (λ (x : Client). x.resp_val) d,
                          )),
                    )
              | inr (fits, inr stored) ↦
                  let on : is_reading (append h c chunk).state ≡ true =
                    ap is_reading (stored.same_state ∙ st) in
                  let len : (append h c chunk).input_length ≡ c.input_length + length chunk =
                    sym b.counted
                    ∙ ap (λ o. length (or_empty o)) stored.stored
                    ∙ length-append (or_empty c.in_buf) chunk
                    ∙ ap (λ n. n + length chunk) s.counted in
                  let (b', looped) =
                    recv_loop-Looped rest (append h c chunk) (stored.same_state ∙ st) b in
                  rw (e, on)
                    (
                      b',
                      elim looped [
                        | inl (long, e', code) ↦ inl (omega arith, e', code)
                        | inr (inl (short, e', code, text')) ↦ inr (
                            inl (
                              omega arith,
                              e',
                              code ∙ stored.same_resp,
                              text'
                                  ∙ ap (λ o. or_empty o ++ gathered rest) stored.stored
                                  ∙ append_assoc (or_empty c.in_buf) chunk (gathered rest),
                            ))
                        | inr (inr (refused, e', code)) ↦
                            inr (inr (refused, e', code ∙ stored.same_resp))
                      ],
                    )
            ]
      ]
