-- ===== src/Resolve/Effects.antt =====
-- Resolving a path is not seen from outside.
use simple_web_server.Base.{◌≡◌, refl, ◌∙◌, inl, inr, Bool-cases, Option-cases}
use simple_web_server.Client.{Client, File, has_flag, c_flag}
use simple_web_server.CString.{Bytes, codes}
use simple_web_server.Host.{Host, Stat, World, fclose}
use simple_web_server.Host.Streams.{fopen-cases, stream_of, with_stream, fclose-effects}
use simple_web_server.Request.{Request}
use simple_web_server.Resolve.{
  ResolvedPath, handle_dir_index, resolve_dir, resolve_kind, resolve_open, resolve_path,
  close_resolve_path_ptr, path_includes_cgi, index_path, get_last_char, split_query,
}

pub close_resolve_path_ptr-effects :
    (rp : ResolvedPath) (w : World) → (close_resolve_path_ptr rp w).1.effects ≡ w.effects
close_resolve_path_ptr-effects rp w = elim (Option-cases rp.file_ptr) [
  | inl e ↦ unfold close_resolve_path_ptr in rw (e, close_resolve_path_ptr) refl
  | inr (f, e) ↦
      unfold close_resolve_path_ptr in rw (e, close_resolve_path_ptr) (fclose-effects f w)
]

module _ (h : Host) where
  handle_dir_index-effects :
      (c : Client) (rp : ResolvedPath) (f : File) (w : World)
      → (handle_dir_index h c rp f w).world.effects ≡ w.effects
  handle_dir_index-effects c rp f w = elim (Option-cases (h.fstat f.node)) [
    | inl e ↦ unfold handle_dir_index in rw (e, handle_dir_index) (fclose-effects f w)
    | inr (st, e) ↦ unfold handle_dir_index in rw (e, handle_dir_index) refl
  ]

  resolve_dir-effects :
      (c : Client) (path : Bytes) (rp : ResolvedPath) (f : File) (st : Stat) (w : World)
      → (resolve_dir h c path rp f st w).world.effects ≡ w.effects
  resolve_dir-effects c path rp f st w =
      elim (fopen-cases h (index_path (get_last_char path) path (codes "index.htm")) w) [
        | inl (n, e) ↦
            unfold resolve_dir in
            rw (e, resolve_dir)
              (handle_dir_index-effects c rp (stream_of n w) (fclose f (with_stream w))
                ∙ fclose-effects f (with_stream w))
        | inr (x, e) ↦
            elim (fopen-cases h (index_path (get_last_char path) path (codes "index.html")) w) [
              | inl (n, e') ↦
                  unfold resolve_dir in
                  rw (e, e', resolve_dir)
                    (handle_dir_index-effects c rp (stream_of n w) (fclose f (with_stream w))
                      ∙ fclose-effects f (with_stream w))
              | inr (x', e') ↦ unfold resolve_dir in rw (e, e', resolve_dir) (fclose-effects f w)
            ]
      ]

  resolve_kind-effects :
      (c : Client) (path : Bytes) (rp : ResolvedPath) (f : File) (st : Stat) (w : World)
      → (resolve_kind h c path rp f st w).world.effects ≡ w.effects
  resolve_kind-effects c path rp f st w = elim (Bool-cases st.is_dir) [
    | inl e ↦ unfold resolve_kind in rw e (resolve_dir-effects c path rp f st w)
    | inr e ↦ unfold resolve_kind in rw e refl
  ]

  resolve_open-effects :
      (c : Client) (path : Bytes) (rp : ResolvedPath) (f : File) (w : World)
      → (resolve_open h c path rp f w).world.effects ≡ w.effects
  resolve_open-effects c path rp f w = elim (Option-cases (h.fstat f.node)) [
    | inl e ↦ unfold resolve_open in rw (e, resolve_open) (fclose-effects f w)
    | inr (st, e) ↦ elim (Bool-cases (path_includes_cgi path)) [
      | inl i ↦ elim (Bool-cases (has_flag h.app_flags c_flag)) [
        | inl k ↦
            unfold resolve_open in rw (e, i, k, resolve_open) (resolve_kind-effects c path _ f st w)
        | inr k ↦ unfold resolve_open in rw (e, i, k, resolve_open) refl
      ]
      | inr i ↦
          unfold resolve_open in rw (e, i, resolve_open) (resolve_kind-effects c path _ f st w)
    ]
  ]

  pub resolve_path-effects :
      (c : Client) (req : Request) (rp : ResolvedPath) (w : World)
      → (resolve_path h c req rp w).world.effects ≡ w.effects
  resolve_path-effects c req rp w = elim (fopen-cases h (split_query req.path).0 w) [
    | inl (n, e) ↦
        unfold resolve_path in
        rw (e, resolve_path)
          (resolve_open-effects c (split_query req.path).0 _ (stream_of n w) (with_stream w))
    | inr (x, e) ↦ unfold resolve_path in rw (e, resolve_path) refl
  ]
