-- ===== src/Read/Append.antt =====
-- The input buffer of client_conn/do_read.c: its size, and what each branch of `append` does.
use simple_web_server.Base.{
  ℕ, zero, suc, ◌+◌, ◌*◌, ◌<◌, ◌≤◌, ◌≡◌, refl, ap, ◌∙◌, ◌⊎◌, inl, inr, false, Bool-cases, some,
  ◌++◌, ltb, ◌==◌, arith, length, length-append, take, take_all,
}
use simple_web_server.Client.{Client, processing, closing, resp_414}
use simple_web_server.CString.{Bytes}
use simple_web_server.Host.{Host}
use simple_web_server.Logging.{max_request_size}
use simple_web_server.Read.{double_until, new_capacity, write_input, append}
use simple_web_server.Resolve.{or_empty}

double_until-ge :
    (fuel needed new_cap : ℕ)
    → 0 < new_cap
    → needed ≤ fuel + new_cap
    → needed ≤ double_until fuel needed new_cap
unfolding double_until
double_until-ge zero needed new_cap p h = omega arith
double_until-ge (suc fuel) needed new_cap p h = elim (Bool-cases (ltb new_cap needed)) [
  | inl e ↦
      let small : new_cap < needed = ground arith in
      rw (e, double_until) (double_until-ge fuel needed (new_cap * 2) (omega arith) (omega arith))
  | inr e ↦ rw (e, double_until) (ground arith)
]

double_until-le :
    (fuel needed new_cap bound : ℕ)
    → new_cap ≤ bound
    → needed * 2 ≤ bound
    → double_until fuel needed new_cap ≤ bound
unfolding double_until
double_until-le zero needed new_cap bound h k = h
double_until-le (suc fuel) needed new_cap bound h k = elim (Bool-cases (ltb new_cap needed)) [
  | inl e ↦
      let small : new_cap < needed = ground arith in
      rw (e, double_until) (double_until-le fuel needed (new_cap * 2) bound (omega arith) k)
  | inr e ↦ rw (e, double_until) h
]

-- The doubling of `append` reaches what is needed, from any capacity, and where the capacity was
-- too small for a request of the allowed size it stays within 16384 bytes.
pub new_capacity-Fits :
    (input_capacity needed : ℕ)
    → input_capacity < needed
    → needed ≤ max_request_size
    → (needed ≤ new_capacity input_capacity needed)
      × (new_capacity input_capacity needed ≤ max_request_size * 2)
unfolding new_capacity
new_capacity-Fits input_capacity needed small allowed = elim (Bool-cases (input_capacity == 0)) [
  | inl e ↦ rw e (
    double_until-ge needed needed 1024 (omega arith) (omega arith),
    double_until-le needed needed 1024 16384 (omega arith) (omega arith),
  )
  | inr e ↦
      let positive : 0 < input_capacity = ground arith in
      rw e (
        double_until-ge needed needed (input_capacity * 2) (omega arith) (omega arith),
        double_until-le needed needed (input_capacity * 2) 16384 (omega arith) (omega arith),
      )
]

-- The bytes of the buffer are those that `input_length` counts, within the capacity, which is what
-- was allocated, and within the size of a request.
pub record IsBuffered (c : Client) : Type 0 where
  pub counted : length (or_empty c.in_buf) ≡ c.input_length
  pub fits : c.input_length ≤ c.input_capacity
  pub allowed : c.input_length ≤ max_request_size
  pub bounded : c.input_capacity ≤ max_request_size * 2

-- The bytes stand behind those that were there, and the client still has its state.
pub record IsStored (c : Client) (text : Bytes) (d : Client) : Type 0 where
  pub stored : d.in_buf ≡ some (or_empty c.in_buf ++ text)
  pub same_state : d.state ≡ c.state
  pub same_resp : d.resp_val ≡ c.resp_val

-- What `append` does.
abbrev pub Appended : Host → Client → Bytes → Client → Type 0
Appended h c text d =
    ((max_request_size < c.input_length + length text)
      × (d ≡ record c { resp_val = resp_414; state = processing }))
    ⊎ ((c.input_length + length text ≤ max_request_size)
        × (((h.malloc_ok (new_capacity c.input_capacity (c.input_length + length text)) ≡ false)
              × (d ≡ record c { state = closing }))
            ⊎ IsStored c text d))

module _ (h : Host) (c : Client) (text : Bytes) (s : IsBuffered c) where
  abbrev needed : ℕ
  needed = c.input_length + length text

  abbrev new_cap : ℕ
  new_cap = new_capacity c.input_capacity needed

  whole : take c.input_length (or_empty c.in_buf) ++ text ≡ or_empty c.in_buf ++ text
  whole =
      ap (λ s. s ++ text) (take_all c.input_length (or_empty c.in_buf) (omega (arith, s.counted)))

  abbrev written : ℕ → Client
  written cap = write_input (record c { input_capacity = cap }) text

  written-IsBuffered :
      (cap : ℕ)
      → needed ≤ cap
      → needed ≤ max_request_size
      → cap ≤ max_request_size * 2
      → IsBuffered (written cap)
  unfolding write_input
  written-IsBuffered cap h k b = record {
    counted =
        ap length whole
        ∙ length-append (or_empty c.in_buf) text
        ∙ ap (λ n. n + length text) s.counted;
    fits = h;
    allowed = k;
    bounded = b;
  }

  written-IsStored : (cap : ℕ) → IsStored c text (written cap)
  unfolding write_input
  written-IsStored cap = record { stored = ap some whole; same_state = refl; same_resp = refl }

  -- From a buffer within its bounds, `append` keeps it so, and does one of three things: a request
  -- of more than 8192 bytes is marked with 414 and PROCESSING, and none of its new bytes is kept;
  -- where no memory is granted the connection is to be closed; and otherwise the bytes stand behind
  -- those that were there.
  pub append-Appended : IsBuffered (append h c text) × Appended h c text (append h c text)
  unfolding append
  append-Appended = elim (Bool-cases (ltb max_request_size needed)) [
    | inl long ↦ rw long (
      record { counted = s.counted; fits = s.fits; allowed = s.allowed; bounded = s.bounded },
      inl (ground arith, refl),
    )
    | inr e ↦
        let allowed : needed ≤ max_request_size = ground arith in
        elim (Bool-cases (ltb c.input_capacity needed)) [
          | inl small ↦
              let (enough, bounded) =
                new_capacity-Fits c.input_capacity needed (ground arith) allowed in
              elim (Bool-cases (h.malloc_ok new_cap)) [
                | inl ok ↦
                    rw (e, small, ok)
                      (
                        written-IsBuffered new_cap enough allowed bounded,
                        inr (allowed, inr (written-IsStored new_cap)),
                      )
                | inr refused ↦
                    rw (e, small, refused)
                      (
                        record {
                          counted = s.counted;
                          fits = s.fits;
                          allowed = s.allowed;
                          bounded = s.bounded;
                        },
                        inr (allowed, inl (refl, refl)),
                      )
              ]
          | inr f ↦
              rw (e, f)
                (
                  written-IsBuffered c.input_capacity (ground arith) allowed s.bounded,
                  inr (allowed, inr (written-IsStored c.input_capacity)),
                )
        ]
  ]
