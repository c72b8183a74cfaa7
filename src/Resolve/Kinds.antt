-- ===== src/Resolve/Kinds.antt =====
-- resolve_path behind the test of the file mode: the index of a directory, or what was opened.
use simple_web_server.Base.{
  ℕ, suc, ◌≤◌, ◌≡◌, refl, ap, ◌⊎◌, inl, inr, Bool-cases, Option-cases, some, ◌∷◌, arith,
}
use simple_web_server.Client.{Client, resp_500, File}
use simple_web_server.CString.{Bytes, codes}
use simple_web_server.Host.{Host, Stat, World, fclose}
use simple_web_server.Host.Streams.{
  stream_of, with_stream, fopen-cases, fclose-first, fclose-second,
}
use simple_web_server.Resolve.{
  ResolvedPath, is_file, is_cgi, index_path, get_last_char, handle_dir_index, resolve_dir,
  resolve_kind,
}
use simple_web_server.Resolve.Ends.{no_stat, Ends}

module _ (h : Host) (c : Client) (w : World) where
  -- Behind HANDLE_DIR_INDEX, where the index is the only stream that was opened since.
  handle_dir_index-Ends :
      (rp : ResolvedPath) (index : File) (v : World)
      → v.open_files ≡ index.handle ∷ w.open_files
      → v.bad_closes ≡ w.bad_closes
      → w.next_handle ≤ index.handle
      → Ends h c rp w (handle_dir_index h c rp index v)
  unfolding handle_dir_index
  handle_dir_index-Ends rp index v o b n = elim (Option-cases (h.fstat index.node)) [
    | inl e ↦
        rw (e, handle_dir_index)
          (inr (
            inr (record {
              code = resp_500;
              refused = refl;
              marked = refl;
              leftover =
                  no_stat index refl
                    (ap (λ (x : World). x.open_files) (fclose-first index v w.open_files o));
            })))
    | inr (st, e) ↦
        rw (e, handle_dir_index)
          (inl (record {
            file = index;
            stat = st;
            found_stat = e;
            done = refl;
            known = inl refl;
            rp_file = refl;
            staged = refl;
            size = refl;
            mime = inl refl;
            opened = o;
            fresh = n;
            balanced = b;
          }))
  ]

  abbrev with_index : World
  with_index = record w {
    next_handle = suc (suc w.next_handle);
    open_files = suc w.next_handle ∷ w.open_files;
  }

  index_opened : (n : ℕ) → fclose (stream_of n w) (with_stream (with_stream w)) ≡ with_index
  index_opened n =
      fclose-second (stream_of n w) (with_stream (with_stream w)) (suc w.next_handle) w.open_files
        refl (λ e. omega arith)

  resolve_dir-Ends :
      (local_path : Bytes) (rp : ResolvedPath) (n : ℕ) (st : Stat)
      → Ends h c rp w (resolve_dir h c local_path rp (stream_of n w) st (with_stream w))
  unfolding resolve_dir
  resolve_dir-Ends local_path rp n st =
      elim (fopen-cases h (index_path (get_last_char local_path) local_path (codes "index.htm"))
        (with_stream w)) [
          | inl (m, e) ↦
              rw (e, resolve_dir, index_opened n)
                (handle_dir_index-Ends rp (stream_of m (with_stream w)) with_index refl refl
                  (omega arith))
          | inr (x, e) ↦
              elim (fopen-cases h
                (index_path (get_last_char local_path) local_path (codes "index.html"))
                (with_stream w)) [
                  | inl (m, f) ↦
                      rw (e, resolve_dir, f, index_opened n)
                        (handle_dir_index-Ends rp (stream_of m (with_stream w)) with_index refl refl
                          (omega arith))
                  | inr (y, f) ↦
                      rw
                        (
                          e,
                          resolve_dir,
                          f,
                          fclose-first (stream_of n w) (with_stream w) w.open_files refl,
                        )
                        (inr (
                          inl (record {
                            done = refl;
                            listed = refl;
                            rp_file = refl;
                            staged = refl;
                            mime = refl;
                            opened = refl;
                            balanced = refl;
                          })))
                ]
        ]

  pub resolve_kind-Ends :
      (local_path : Bytes) (rp : ResolvedPath) (n : ℕ) (st : Stat)
      → h.fstat n ≡ some st
      → (rp.path_type ≡ is_file) ⊎ (rp.path_type ≡ is_cgi)
      → rp.file_ptr ≡ some (stream_of n w)
      → Ends h c rp w (resolve_kind h c local_path rp (stream_of n w) st (with_stream w))
  unfolding resolve_kind
  resolve_kind-Ends local_path rp n st found t f = elim (Bool-cases st.is_dir) [
    | inl e ↦ rw e (resolve_dir-Ends local_path rp n st)
    | inr e ↦ rw e (
        inl (record {
          file = stream_of n w;
          stat = st;
          found_stat = found;
          done = refl;
          known = t;
          rp_file = f;
          staged = refl;
          size = refl;
          mime = inr (local_path, refl);
          opened = refl;
          fresh = omega arith;
          balanced = refl;
        }))
  ]
