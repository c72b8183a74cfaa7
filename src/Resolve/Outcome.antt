-- ===== src/Resolve/Outcome.antt =====
-- How resolve_path ends, and which streams are open then.
use simple_web_server.Base.{
  ℕ, ◌≡◌, refl, ap, ◌∙◌, ◌⊎◌, inl, inr, Bool-cases, Option-cases, Option, none, some,
}
use simple_web_server.Client.{
  Client, resp_403, resp_404, resp_500, resp_501, File, has_flag, c_flag,
}
use simple_web_server.CString.{Bytes}
use simple_web_server.Host.{Host, Lookup, eacces, node, other_error, World}
use simple_web_server.Host.Streams.{stream_of, with_stream, fopen-cases, fclose-first}
use simple_web_server.Request.{Request}
use simple_web_server.Resolve.{
  ResolvedPath, Resolved, PathType, is_file, is_cgi, path_includes_cgi, resolve_open, open_error,
  split_query, with_query, resolve_path,
}
use simple_web_server.Resolve.Ends.{not_found, no_stat, no_cgi, Ends}
use simple_web_server.Resolve.Kinds.{resolve_kind-Ends}

module _ (h : Host) (c : Client) (w : World) where
  resolve_open-Ends :
      (local_path : Bytes) (rp : ResolvedPath) (n : ℕ)
      → rp.file_ptr ≡ some (stream_of n w)
      → Ends h c rp w (resolve_open h c local_path rp (stream_of n w) (with_stream w))
  unfolding resolve_open
  resolve_open-Ends local_path rp n f = elim (Option-cases (h.fstat n)) [
    | inl e ↦
        rw (e, resolve_open)
          (inr (
            inr (record {
              code = resp_500;
              refused = refl;
              marked = refl;
              leftover = no_stat (stream_of n w) f (
                  ap (λ (x : World). x.open_files)
                    (fclose-first (stream_of n w) (with_stream w) w.open_files refl));
            })))
    | inr (st, e) ↦ elim (Bool-cases (path_includes_cgi local_path)) [
      | inl cgi ↦ elim (Bool-cases (has_flag h.app_flags c_flag)) [
        | inl on ↦
            rw (e, resolve_open, cgi, on)
              (weaken _ (
                resolve_kind-Ends h c w local_path (record rp { path_type = is_cgi }) n st e
                  (inr refl) f))
        | inr off ↦
            rw (e, resolve_open, cgi, off)
              (inr (
                inr (record {
                  code = resp_501;
                  refused = refl;
                  marked = refl;
                  leftover = no_cgi (stream_of n w) refl refl;
                })))
      ]
      | inr plain ↦
          rw (e, resolve_open, plain)
            (weaken _ (
              resolve_kind-Ends h c w local_path (record rp { path_type = is_file }) n st e
                (inl refl) f))
    ]
  ]
    where
      weaken :
          {t : PathType} (r : Resolved)
          → Ends h c (record rp { path_type = t }) w r
          → Ends h c rp w r
      weaken r (inl s) = inl s
      weaken r (inr (inl l)) = inr (
          inl (record {
            done = l.done;
            listed = l.listed;
            rp_file = l.rp_file;
            staged = l.staged;
            mime = l.mime;
            opened = l.opened;
            balanced = l.balanced;
          }))
      weaken r (inr (inr x)) = inr (inr x)

  -- resolve_path, started with no stream, ends in one of three ways. Something is served: its
  -- stream is open, the client and the resolved path both refer to it, with the size that `fstat`
  -- gave, and the path type is a file or a CGI script. Or a directory is listed, and every stream is
  -- closed again. Or it fails: with 403 or 404, where nothing was opened; with 500, where the
  -- stream that was opened is closed but still referred to; or with 501, where it is open and
  -- nothing refers to it.
  pub resolve_path-Ends :
      (req : Request) (rp : ResolvedPath) → Ends h c rp w (resolve_path h c req rp w)
  unfolding resolve_path
  resolve_path-Ends req rp = elim (fopen-cases h (split_query req.path).0 w) [
    | inl (n, e) ↦
        rw (e, resolve_path)
          (as_zero _ (
            resolve_open-Ends (split_query req.path).0
              (record (with_query rp (split_query req.path).1) { file_ptr = some (stream_of n w) })
              n refl))
    | inr (x, e) ↦
        rw (e, resolve_path)
          (inr (
            inr (record {
              code = open_error x;
              refused = refl;
              marked = refl;
              leftover = not_found (open_error-cases x) refl refl;
            })))
  ]
    where
      open_error-cases : (x : Lookup) → (open_error x ≡ resp_403) ⊎ (open_error x ≡ resp_404)
      open_error-cases (node n) = inr refl
      open_error-cases eacces = inl refl
      open_error-cases other_error = inr refl

      mime-with_query : (q : Option Bytes) → (with_query rp q).mime_type ≡ rp.mime_type
      mime-with_query none = refl
      mime-with_query (some q) = refl

      as_zero :
          {o : Option File} (r : Resolved)
          → Ends h c (record (with_query rp (split_query req.path).1) { file_ptr = o }) w r
          → Ends h c rp w r
      as_zero r (inl s) = inl s
      as_zero r (inr (inl l)) = inr (
          inl (record {
            done = l.done;
            listed = l.listed;
            rp_file = l.rp_file;
            staged = l.staged;
            mime = l.mime ∙ mime-with_query (split_query req.path).1;
            opened = l.opened;
            balanced = l.balanced;
          }))
      as_zero r (inr (inr x)) = inr (inr x)
