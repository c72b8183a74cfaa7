-- ===== src/Response/Okay/Listed.antt =====
-- What the listing of a directory says.
use simple_web_server.Base.{
  ◌-◌, ◌≡◌, refl, ap, sym, ◌∙◌, inl, inr, true, false, Bool-cases, some, List, [], ◌∷◌, ◌++◌, ◌==◌,
  if◌then◌else◌, arith, length, length-append, drop, get_or,
}
use simple_web_server.Client.{Client, success}
use simple_web_server.CString.{Bytes, codes}
use simple_web_server.Host.{Host, Dirent}
use simple_web_server.Request.{Request}
use simple_web_server.Resolve.{ResolvedPath, is_dir}
use simple_web_server.Response.Common.{okay_header}
use simple_web_server.Response.Error.{is_head}
use simple_web_server.Response.Listing.{
  start_html_string, end_html_string, empty_dir_html, dir_item, dir_items, dir_body, local_body_len,
  list_dir, is_dir_type, build_response_dir,
}
use simple_web_server.Response.Message.{served}

-- The entries that are shown: those whose name does not begin with a dot.
pub visible : List Dirent → List Dirent
visible [] = []
visible (d ∷ ds) = if get_or d.d_name 0 0 == b'.' then visible ds else d ∷ visible ds

abbrev items_of : Bytes → List Dirent → Bytes
items_of dir_path [] = []
items_of dir_path (d ∷ ds) = dir_item dir_path d ++ items_of dir_path ds

-- The page for these entries.
abbrev pub page_of : Bytes → List Dirent → Bytes
page_of dir_path [] = start_html_string ++ (empty_dir_html ++ end_html_string)
page_of dir_path (d ∷ ds) = start_html_string ++ (items_of dir_path (d ∷ ds) ++ end_html_string)

dir_items-visible :
    (dir_path : Bytes) (ds : List Dirent) → dir_items dir_path ds ≡ items_of dir_path (visible ds)
unfolding dir_items visible
dir_items-visible dir_path [] = refl
dir_items-visible dir_path (d ∷ ds) = elim (Bool-cases (get_or d.d_name 0 0 == b'.')) [
  | inl e ↦ rw e (dir_items-visible dir_path ds)
  | inr e ↦ rw e (ap (λ s. dir_item dir_path d ++ s) (dir_items-visible dir_path ds))
]

-- An item is not empty, so the page is that of an empty directory exactly where nothing is shown.
dir_body-page_of :
    (dir_path : Bytes) (ds : List Dirent) → dir_body (items_of dir_path ds) ≡ page_of dir_path ds
unfolding dir_body dir_item
dir_body-page_of dir_path [] = refl
dir_body-page_of dir_path (d ∷ ds) = refl

-- The length that is announced is that of the listing, empty or not.
pub length-dir_body : (items : Bytes) → length (dir_body items) ≡ local_body_len items
unfolding local_body_len dir_body
length-dir_body [] = refl
length-dir_body (x ∷ items) = omega (arith, length-append items end_html_string)

module _ (h : Host) (c : Client) (rp : ResolvedPath) (req : Request) (entries : List Dirent)
    (mod_time : Bytes) (kind : rp.path_type ≡ is_dir)
    (opened : h.opendir (drop 1 req.path) ≡ some entries)
    (stamp : h.time_text rp.last_mod ≡ some mod_time) (body_ok : h.body_stream_ok ≡ true)
    (out_ok : h.out_stream_ok ≡ true) (with_body : is_head req.method ≡ false) where
  abbrev page : Bytes
  page = page_of (drop 1 req.path) (visible entries)

  abbrev header : Bytes
  header = okay_header req.time_received mod_time (codes "text/html") (length page)

  abbrev header_for : Bytes → Bytes
  header_for items =
      okay_header req.time_received mod_time (codes "text/html") (local_body_len items)

  abbrev staged : Bytes → Client
  staged items =
      served c (header_for items) (dir_body items)
        (length (header_for items ++ dir_body items) - length (header_for items))

  listed : build_response_dir h c rp req ≡ (success, staged (dir_items (drop 1 req.path) entries))
  listed =
      let is_directory : is_dir_type rp.path_type ≡ true = ap is_dir_type kind in
      let opens : build_response_dir h c rp req ≡ list_dir h c rp req (drop 1 req.path) entries =
        (unfold build_response_dir in rw (opened, build_response_dir, is_directory)) in
      opens ∙ (unfold list_dir in rw (stamp, list_dir, body_ok, out_ok, with_body))

  -- Where the directory can be read, its time stamp written and the streams opened, the response to
  -- any method but HEAD is a page with one item for each entry whose name does not begin with a
  -- dot, in the order in which `readdir` gives them, or with the words for an empty directory where
  -- there is none; the header announces the length of that page, and the counts of the client are
  -- those of the message.
  pub build_response_dir-page :
      build_response_dir h c rp req ≡ (success, served c header page (length page))
  build_response_dir-page =
      let items = items_of (drop 1 req.path) (visible entries) in
      let body = dir_body-page_of (drop 1 req.path) (visible entries) in
      let count = sym (length-dir_body items) ∙ ap length body in
      let rest : length (header_for items ++ dir_body items) - length (header_for items)
          ≡ length page =
        omega (arith, length-append (header_for items) (dir_body items), ap length body) in
      listed ∙ ap (λ s. (success, staged s)) (dir_items-visible (drop 1 req.path) entries) ∙ (λ i. (
        success,
        served c (okay_header req.time_received mod_time (codes "text/html") (count i)) (body i)
            (rest i),
      ))
