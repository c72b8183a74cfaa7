-- ===== src/Response/Listing.antt =====
-- response/build_okay_response.c: the listing of a directory.
use simple_web_server.Base.{
  ℕ, ◌+◌, ◌-◌, Bool, true, false, not, none, some, List, [], ◌∷◌, ◌++◌, ◌==◌, if◌then◌else◌, length,
  get_or, drop,
}
use simple_web_server.Client.{Client, resp_500, Status, success}
use simple_web_server.CString.{Bytes, codes}
use simple_web_server.Host.{Host, Dirent}
use simple_web_server.Request.{Request}
use simple_web_server.Resolve.{ResolvedPath, PathType, is_dir}
use simple_web_server.Response.Error.{is_head}
use simple_web_server.Response.Common.{okay_header, fail_with, is_empty}

abbrev pub start_html_string : Bytes
start_html_string = codes "<html><body><h1>Directory:</h1><ul>"

abbrev pub end_html_string : Bytes
end_html_string = codes "</ul></body></html>"

abbrev pub empty_dir_html : Bytes
empty_dir_html = codes "<h2>Empty directory</h2>"

abbrev dir_icon : Bytes
dir_icon =
    codes "<svg xmlns=\"http://www.w3.org/2000/svg\" width=\"16\" height=\"16"
    ++ (codes "\" fill=\"currentColor\" class=\"bi bi-folder\" viewBox=\"0 0 16 1"
        ++ (codes "6\">"
            ++ (codes "<path d=\"M.54 3.87.5 3a2 2 0 0 1 2-2h3.672a2 2 0 0 1 1.414.586l.8"
                ++ (codes "28.828A2 2 0 0 0 9.828 3h3.982a2 2 0 0 1 1.992 2.181l-.637 7A2 2 0"
                    ++ (codes " 0 1 13.174 14H2.826a2 2 0 0 1-1.991-1.819l-.637-7a2 2 0 0 1 .342-"
                        ++ (codes
                              "1.31zM2.19 4a1 1 0 0 0-.996 1.09l.637 7a1 1 0 0 0 .995.91h10.348a1"
                            ++ (codes
                                  " 1 0 0 0 .995-.91l.637-7A1 1 0 0 0 13.81 4zm4.69-1.707A1 1 0 0 0 6"
                                ++ (codes
                                      ".172 2H2.5a1 1 0 0 0-1 .981l.006.139q.323-.119.684-.12h5.396z\"/><"
                                    ++ (codes "/svg>")))))))))

abbrev file_icon : Bytes
file_icon =
    codes "<svg xmlns=\"http://www.w3.org/2000/svg\" width=\"16\" height=\"16"
    ++ (codes "\" fill=\"currentColor\" class=\"bi bi-file-earmark\" viewBox=\"0 "
        ++ (codes "0 16 16\">"
            ++ (codes "<path d=\"M14 4.5V14a2 2 0 0 1-2 2H4a2 2 0 0 1-2-2V2a2 2 0 0 1 2-2"
                ++ (codes "h5.5zm-3 0A1.5 1.5 0 0 1 9.5 3V1H4a1 1 0 0 0-1 1v12a1 1 0 0 0 1 1h"
                    ++ (codes "8a1 1 0 0 0 1-1V4.5z\"/>" ++ (codes "</svg>"))))))

-- `"<li>%s <a href=\"/%s/%s\">%s</a></li>"`
unfoldable pub dir_item : Bytes → Dirent → Bytes
dir_item dir_path d =
    codes "<li>"
    ++ ((if d.is_dir then dir_icon else file_icon)
        ++ (codes " <a href=\"/"
            ++ (dir_path
                ++ (b'/' ∷ (d.d_name ++ (codes "\">" ++ (d.d_name ++ codes "</a></li>")))))))

-- The `readdir` loop; hidden entries are passed over.
unfoldable pub dir_items : Bytes → List Dirent → Bytes
unfolding dir_item
dir_items dir_path [] = []
dir_items dir_path (d ∷ ds) =
    let rest = dir_items dir_path ds in
    if get_or d.d_name 0 0 == b'.' then rest else dir_item dir_path d ++ rest

-- What `local_body_len` counts, and what is written behind the header.
unfoldable pub local_body_len : Bytes → ℕ
local_body_len dir_list =
    if not (is_empty dir_list)
    then length dir_list + (length start_html_string + length end_html_string)
    else length start_html_string + length end_html_string + length empty_dir_html

unfoldable pub dir_body : Bytes → Bytes
dir_body dir_list =
    start_html_string
    ++ ((if is_empty dir_list then empty_dir_html else dir_list) ++ end_html_string)

-- Behind `opendir`, with the entries of the directory.
unfoldable pub list_dir :
    Host → Client → ResolvedPath → Request → Bytes → List Dirent → Status × Client
unfolding local_body_len dir_body
list_dir h c rp req dir_path entries =
    let dir_list = dir_items dir_path entries in
    if not h.body_stream_ok then fail_with resp_500 c else elim (h.time_text rp.last_mod) [
      | none ↦ fail_with resp_500 c
      | some mod_time ↦
          let header =
            okay_header req.time_received mod_time (codes "text/html") (local_body_len dir_list) in
          let whole = header ++ dir_body dir_list in
          if not h.out_stream_ok
          then fail_with resp_500 c
          else if is_head req.method
          then (
            success,
            record c {
              out_buf = some header;
              output_length = length header;
              header_len = length header;
            },
          )
          else (
            success,
            record c {
              out_buf = some whole;
              output_length = length whole;
              header_len = length header;
              body_len = length whole - length header;
            },
          )
    ]

abbrev pub is_dir_type : PathType → Bool
is_dir_type is_dir = true
is_dir_type _ = false

unfoldable pub build_response_dir : Host → Client → ResolvedPath → Request → Status × Client
unfolding list_dir
build_response_dir h c rp req =
    let dir_path = drop 1 req.path in
    if not (is_dir_type rp.path_type) then fail_with resp_500 c else elim (h.opendir dir_path) [
      | none ↦ fail_with resp_500 c
      | some entries ↦ list_dir h c rp req dir_path entries
    ]
