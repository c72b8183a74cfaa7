-- ===== src/Response/Okay/Cgi.antt =====
-- The output of a CGI script: the read loop, the header buffer, and the message.
use simple_web_server.Base.{
  ℕ, ◌+◌, ◌-◌, ◌*◌, ◌<◌, ◌≤◌, ◌^◌, ◌≡◌, refl, sym, ap, inl, inr, true, false, some, List, [], ◌∷◌,
  ◌++◌, ◌∙◌, append_assoc, append-nil, arith, length, length-append, take, take_all, ltb,
}
use simple_web_server.Client.{Client, success, resp_200, has_flag, c_flag}
use simple_web_server.CString.{Bytes, bounded_copy}
use simple_web_server.CString.Search.{Free}
use simple_web_server.CString.Decimal.{length-decimal-le}
use simple_web_server.Host.{Host, PipeRead, bytes, interrupted, broken, CgiRun}
use simple_web_server.Request.{Request, path_max}
use simple_web_server.Resolve.{ResolvedPath}
use simple_web_server.Response.Message.{IsFramed, served, served-IsFramed}
use simple_web_server.Response.Common.{is_empty}
use simple_web_server.Response.Script.{
  output, grown, refused, read_cgi, cgi_header, max_header_buf, finish_cgi, cgi_call,
  build_response_cgi,
}
use simple_web_server.Response.Okay.CgiLines.{cgi_fields, cgi_header-render, cgi_lines}

-- The reads as the kernel gives them, from a buffer with this many bytes in it: some bytes, no more
-- than the buffer has room for, or, where it is full, than a buffer of twice the size has.
pub data Fits : ℕ → ℕ → List PipeRead → Type 0 where
  at_end : {capacity n : ℕ} → n ≤ capacity → Fits capacity n []
  in_room :
      {capacity n : ℕ} {s : Bytes} {reads : List PipeRead}
      → 0 < length s
      → n + length s ≤ capacity
      → Fits capacity (n + length s) reads
      → Fits capacity n (bytes s ∷ reads)
  when_full :
      {capacity : ℕ} {s : Bytes} {reads : List PipeRead}
      → 0 < length s
      → length s ≤ capacity
      → Fits (capacity * 2) (capacity + length s) reads
      → Fits capacity capacity (bytes s ∷ reads)
  again :
      {capacity n : ℕ} {reads : List PipeRead}
      → n < capacity
      → Fits capacity n reads
      → Fits capacity n (interrupted ∷ reads)
  again_when_full :
      {capacity : ℕ} {reads : List PipeRead}
      → Fits (capacity * 2) capacity reads
      → Fits capacity capacity (interrupted ∷ reads)

abbrev all_bytes : List PipeRead → Bytes
all_bytes [] = []
all_bytes (bytes s ∷ reads) = s ++ all_bytes reads
all_bytes (interrupted ∷ reads) = all_bytes reads
all_bytes (broken ∷ reads) = all_bytes reads

granted :
    (h : Host) (capacity : ℕ) (resp : Bytes)
    → ((n : ℕ) → h.malloc_ok n ≡ true)
    → refused h capacity resp ≡ false
granted h capacity resp ok = ground (arith, ok (capacity * 2))

-- How `grown` answers.
grown_room : (capacity : ℕ) (resp : Bytes) → length resp < capacity → grown capacity resp ≡ capacity
grown_room capacity resp l = ground arith

grown_full :
    (capacity : ℕ) (resp : Bytes) → length resp ≡ capacity → grown capacity resp ≡ capacity * 2
grown_full capacity resp e = ground arith

-- One `read` into a buffer that has room behind it.
read_cgi-bytes :
    (h : Host) (s : Bytes) (reads : List PipeRead) (capacity bigger : ℕ) (resp : Bytes)
    → ((n : ℕ) → h.malloc_ok n ≡ true)
    → grown capacity resp ≡ bigger
    → 0 < length s
    → length resp + length s ≤ bigger
    → read_cgi h (bytes s ∷ reads) capacity resp ≡ read_cgi h reads bigger (resp ++ s)
unfolding read_cgi
read_cgi-bytes h s reads capacity bigger resp ok g some_left room =
    let whole : take (bigger - length resp) s ≡ s = take_all _ s (omega arith) in
    rw (granted h capacity resp ok, g, whole, some_bytes s some_left)
  where
    some_bytes : (s : Bytes) → 0 < length s → is_empty s ≡ false
    some_bytes [] l = absurd (omega arith)
    some_bytes (c ∷ s) l = refl

read_cgi-interrupted :
    (h : Host) (reads : List PipeRead) (capacity bigger : ℕ) (resp : Bytes)
    → ((n : ℕ) → h.malloc_ok n ≡ true)
    → grown capacity resp ≡ bigger
    → read_cgi h (interrupted ∷ reads) capacity resp ≡ read_cgi h reads bigger resp
unfolding read_cgi
read_cgi-interrupted h reads capacity bigger resp ok g = rw (granted h capacity resp ok, g)

-- The loop gathers all that the script writes, whatever the sizes of the reads and however often it
-- is interrupted: nothing is lost where the buffer is full and has to be doubled.
pub read_cgi-all_bytes :
    (h : Host) (reads : List PipeRead) (capacity : ℕ) (resp : Bytes)
    → ((n : ℕ) → h.malloc_ok n ≡ true)
    → Fits capacity (length resp) reads
    → read_cgi h reads capacity resp ≡ output (resp ++ all_bytes reads)
read_cgi-all_bytes h reads capacity resp ok f = gathers f resp refl
  where
    gathers :
        {capacity n : ℕ} {reads : List PipeRead}
        → Fits capacity n reads
        → (resp : Bytes) → length resp ≡ n
        → read_cgi h reads capacity resp ≡ output (resp ++ all_bytes reads)
    gathers (at_end l) resp e =
        unfold read_cgi in rw (granted h _ resp ok) (ap output (sym (append-nil resp)))
    gathers (in_room {capacity} {n} {s} {reads} p l f) resp e =
        read_cgi-bytes h s reads capacity capacity resp ok (grown_room capacity resp (omega arith))
          p (omega arith)
        ∙ gathers f (resp ++ s) (length-append resp s ∙ ap (λ k. k + length s) e)
        ∙ ap output (append_assoc resp s (all_bytes reads))
    gathers (when_full {capacity} {s} {reads} p l f) resp e =
        read_cgi-bytes h s reads capacity (capacity * 2) resp ok (grown_full capacity resp e) p
          (omega arith)
        ∙ gathers f (resp ++ s) (length-append resp s ∙ ap (λ k. k + length s) e)
        ∙ ap output (append_assoc resp s (all_bytes reads))
    gathers (again {capacity} {n} {reads} l f) resp e =
        read_cgi-interrupted h reads capacity capacity resp ok
          (grown_room capacity resp (omega arith))
        ∙ gathers f resp e
    gathers (again_when_full {capacity} {reads} f) resp e =
        read_cgi-interrupted h reads capacity (capacity * 2) resp ok (grown_full capacity resp e)
        ∙ gathers f resp e

-- The header never fills its buffer of 750 bytes.
pub length-cgi_header-lt :
    (time : Bytes) (n : ℕ)
    → length time ≤ 31
    → n < 10 ^ 20
    → length (cgi_header time n) < max_header_buf
unfolding cgi_header
length-cgi_header-lt time n ht hn = simp length-append (omega (arith, length-decimal-le 20 n hn))

module _ (h : Host) (c : Client) (rp : ResolvedPath) (req : Request) (code : c.resp_val ≡ resp_200)
    (plain : Free b'\r' req.time_received) (short : length req.time_received ≤ 31) where
  abbrev pub header_of : Bytes → Bytes
  header_of resp = cgi_header req.time_received (length resp)

  -- What finish_cgi copies is the whole header.
  whole_header :
      (resp : Bytes)
      → length resp < 10 ^ 20
      → take (length (header_of resp)) (bounded_copy (header_of resp) max_header_buf)
        ≡ header_of resp
  unfolding bounded_copy
  whole_header resp n =
      let fits = length-cgi_header-lt req.time_received (length resp) short n in
      ap (take (length (header_of resp))) (take_all 749 (header_of resp) (omega arith))
      ∙ take_all (length (header_of resp)) (header_of resp) (omega arith)

  pub finish_cgi_lem :
      (run : CgiRun) (resp : Bytes)
      → length resp < 10 ^ 20
      → run.waitpid_ok ≡ true
      → run.exited_zero ≡ true
      → h.malloc_ok (length (header_of resp) + length resp) ≡ true
      → finish_cgi h c req run resp ≡ (success, served c (header_of resp) resp (length resp))
  unfolding finish_cgi
  finish_cgi_lem run resp n e₁ e₂ e₃ =
      rw (e₁, e₂, e₃)
        (λ i. (
          success,
          record c {
            out_buf = some (whole_header resp n i ++ resp);
            output_length = sym (length-append (header_of resp) resp) i;
            header_len = length (header_of resp);
            body_len = length resp;
          },
        ))

  pub cgi_served :
      (resp : Bytes) → IsFramed (served c (header_of resp) resp (length resp)) resp resp
  cgi_served resp =
      served-IsFramed c (header_of resp) resp resp (length resp)
        (cgi_fields req.time_received (length resp))
        (rw code (cgi_header-render req.time_received (length resp) resp))
        (rw code (cgi_lines req.time_received (length resp) plain)) (inr (inr (inr (inl refl))))
        (inr (inr (inr (inr (inl refl)))))

  -- A script that runs to its end and exits with 0 has its whole output staged in a well-formed
  -- message for the code 200 that announces its length, whatever the method is.
  pub build_response_cgi-IsFramed :
      let run = h.cgi_run (cgi_call c rp req) in
      has_flag h.app_flags c_flag ≡ true
      → run.pipe_ok ≡ true
      → length rp.query_string ≤ path_max
      → run.fork_ok ≡ true
      → run.malloc_ok ≡ true
      → run.waitpid_ok ≡ true
      → run.exited_zero ≡ true
      → ((n : ℕ) → h.malloc_ok n ≡ true)
      → Fits 8192 0 run.reads
      → length (all_bytes run.reads) < 10 ^ 20
      → let r = build_response_cgi h c rp req in
        (r.0 ≡ success)
        × (r.1.resp_val ≡ resp_200)
        × IsFramed r.1 (all_bytes run.reads) (all_bytes run.reads)
  build_response_cgi-IsFramed flag pipe query fork buffer wait exit ok fits size =
      let run = h.cgi_run (cgi_call c rp req) in
      let gathered = read_cgi-all_bytes h run.reads 8192 [] ok fits in
      let staged = finish_cgi_lem run (all_bytes run.reads) size wait exit (ok _) in
      let short_query : ltb path_max (length rp.query_string) ≡ false = ground arith in
      let whole : build_response_cgi h c rp req ≡ (
        success,
        served c (header_of (all_bytes run.reads)) (all_bytes run.reads)
            (length (all_bytes run.reads)),
      ) =
        (unfold build_response_cgi in
          rw (flag, pipe, short_query, fork, buffer, gathered, build_response_cgi) staged) in
      rw whole (refl, code, cgi_served (all_bytes run.reads))
