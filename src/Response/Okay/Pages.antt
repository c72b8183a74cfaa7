-- ===== src/Response/Okay/Pages.antt =====
-- Files and directory listings are staged as well-formed messages.
use simple_web_server.Base.{
  ℕ, ◌-◌, ◌≡◌, refl, ap, inl, inr, Bool, true, false, some, List, ◌++◌, arith, length, Bool-cases,
  Option-cases, drop,
}
use simple_web_server.Client.{Client, resp_200, resp_500, success, failure}
use simple_web_server.CString.{Bytes, codes}
use simple_web_server.Host.{Host, Dirent}
use simple_web_server.Request.{Request}
use simple_web_server.Resolve.{ResolvedPath}
use simple_web_server.Response.Error.{is_head}
use simple_web_server.Response.Error.Framing.{body_unless}
use simple_web_server.Response.Message.{served, served-nil}
use simple_web_server.Response.Common.{okay_header, shown}
use simple_web_server.Response.Listing.{
  build_response_dir, list_dir, dir_items, dir_body, local_body_len, is_dir_type,
}
use simple_web_server.Response.Okay.{file_body, build_response_file}
use simple_web_server.Response.Okay.Listed.{length-dir_body}
use simple_web_server.Response.Okay.Built.{
  IsPlain, FileEntity, DirEntity, Built, Built-served, Built-failure,
}

module _ (h : Host) (c : Client) (rp : ResolvedPath) (req : Request) (plain : IsPlain h rp req)
    (code : c.resp_val ≡ resp_200) where
  file_lem :
      (head : Bool) (m : Bytes)
      → h.time_text rp.last_mod ≡ some m
      → h.out_stream_ok ≡ true
      → is_head req.method ≡ head
      → (n : ℕ) × (build_response_file h c rp req ≡ (
        success,
        served c
            (okay_header req.time_received m (shown rp.mime_type) rp.file_size)
            (body_unless head (file_body h rp.file_ptr))
            n,
      ))
  unfolding build_response_file
  file_lem true m e ok hd = (
    c.file_size,
    rw (e, build_response_file, ok, hd) (ap (λ d. (success, d)) (served-nil c _ c.file_size)),
  )
  file_lem false m e ok hd =
      let header = okay_header req.time_received m (shown rp.mime_type) rp.file_size in
      (
        length (header ++ file_body h rp.file_ptr) - length header,
        rw (e, build_response_file, ok, hd),
      )

  pub build_response_file-Built :
      length (file_body h rp.file_ptr) ≡ rp.file_size
      → Built (FileEntity h rp) false (is_head req.method) (build_response_file h c rp req)
  build_response_file-Built size = elim (Option-cases (h.time_text rp.last_mod)) [
    | inl e ↦
        Built-failure h c rp req plain code (FileEntity h rp) false (is_head req.method)
          (build_response_file h c rp req) resp_500 refl
          (unfold build_response_file in rw (e, build_response_file))
    | inr (m, e) ↦ elim (Bool-cases h.out_stream_ok) [
      | inl ok ↦
          let (n, staged) = file_lem (is_head req.method) m e ok refl in
          Built-served h c rp req plain code (FileEntity h rp) (is_head req.method)
            (build_response_file h c rp req) m (shown rp.mime_type) (file_body h rp.file_ptr)
            rp.file_size n refl (plain.mod_time _ m e) plain.mime size staged
      | inr bad ↦
          Built-failure h c rp req plain code (FileEntity h rp) false (is_head req.method)
            (build_response_file h c rp req) resp_200 refl
            (unfold build_response_file in
              rw (e, build_response_file, bad)
                (ap (λ r. (failure, record c { resp_val = r })) code))
    ]
  ]

  dir_lem :
      (head : Bool) (entries : List Dirent) (m dir_path : Bytes)
      → h.time_text rp.last_mod ≡ some m
      → h.body_stream_ok ≡ true
      → h.out_stream_ok ≡ true
      → is_head req.method ≡ head
      → (n : ℕ) × (list_dir h c rp req dir_path entries ≡ (
        success,
        served c
            (okay_header req.time_received m
              (codes "text/html")
              (local_body_len (dir_items dir_path entries)))
            (body_unless head (dir_body (dir_items dir_path entries)))
            n,
      ))
  dir_lem true entries m dir_path e ok₁ ok₂ hd = (
    c.body_len,
    unfold list_dir in
        rw (e, list_dir, ok₁, ok₂, hd) (ap (λ d. (success, d)) (served-nil c _ c.body_len)),
  )
  dir_lem false entries m dir_path e ok₁ ok₂ hd =
      let items = dir_items dir_path entries in
      let header = okay_header req.time_received m (codes "text/html") (local_body_len items) in
      (
        length (header ++ dir_body items) - length header,
        unfold list_dir in rw (e, list_dir, ok₁, ok₂, hd),
      )

  list_dir-Built :
      (entries : List Dirent) (dir_path : Bytes)
      → h.opendir dir_path ≡ some entries
      → Built
          (DirEntity h dir_path)
          false
          (is_head req.method)
          (list_dir h c rp req dir_path entries)
  list_dir-Built entries dir_path opened = elim (Bool-cases h.body_stream_ok) [
    | inl ok₁ ↦ elim (Option-cases (h.time_text rp.last_mod)) [
      | inl e ↦ failed (unfold list_dir in rw (e, list_dir, ok₁))
      | inr (m, e) ↦ elim (Bool-cases h.out_stream_ok) [
        | inl ok₂ ↦
            let items = dir_items dir_path entries in
            let (n, staged) = dir_lem (is_head req.method) entries m dir_path e ok₁ ok₂ refl in
            Built-served h c rp req plain code (DirEntity h dir_path) (is_head req.method)
              (list_dir h c rp req dir_path entries) m (codes "text/html") (dir_body items)
              (local_body_len items) n (entries, opened, refl) (plain.mod_time _ m e) (omega arith)
              (length-dir_body items) staged
        | inr bad ↦ failed (unfold list_dir in rw (e, list_dir, ok₁, bad))
      ]
    ]
    | inr bad ↦ failed (unfold list_dir in rw bad)
  ]
    where
      failed :
          list_dir h c rp req dir_path entries ≡ (failure, record c { resp_val = resp_500 })
          → Built
              (DirEntity h dir_path)
              false
              (is_head req.method)
              (list_dir h c rp req dir_path entries)
      failed e =
          Built-failure h c rp req plain code (DirEntity h dir_path) false (is_head req.method)
            (list_dir h c rp req dir_path entries) resp_500 refl e

  pub build_response_dir-Built :
      Built
        (DirEntity h (drop 1 req.path))
        false
        (is_head req.method)
        (build_response_dir h c rp req)
  build_response_dir-Built = elim (Bool-cases (is_dir_type rp.path_type)) [
    | inl dir ↦ elim (Option-cases (h.opendir (drop 1 req.path))) [
      | inl e ↦ failed (unfold build_response_dir in rw (e, build_response_dir, dir))
      | inr (entries, e) ↦
          let listed : build_response_dir h c rp req
              ≡ list_dir h c rp req (drop 1 req.path) entries =
            (unfold build_response_dir in rw (e, build_response_dir, dir)) in
          rw listed (list_dir-Built entries (drop 1 req.path) e)
    ]
    | inr other ↦ failed (unfold build_response_dir in rw other)
  ]
    where
      failed :
          build_response_dir h c rp req ≡ (failure, record c { resp_val = resp_500 })
          → Built
              (DirEntity h (drop 1 req.path))
              false
              (is_head req.method)
              (build_response_dir h c rp req)
      failed e =
          Built-failure h c rp req plain code (DirEntity h (drop 1 req.path)) false
            (is_head req.method) (build_response_dir h c rp req) resp_500 refl e
