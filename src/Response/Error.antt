-- ===== src/Response/Error.antt =====
-- response/build_error_response.c: the error pages and build_error_response.
pub mod Framing
use simple_web_server.Base.{
  ℕ, ◌-◌, Bool, true, false, ◌||◌, not, some, [], ◌++◌, if◌then◌else◌, length,
}
use simple_web_server.Client.{
  Client, ClientResponse, resp_200, resp_400, resp_403, resp_404, resp_414, resp_500, resp_501,
  resp_505, num_client_resp, Status, success, failure,
}
use simple_web_server.CString.{Bytes, codes, decimal}
use simple_web_server.Host.{Host}
use simple_web_server.Request.{HttpMethod, http_head, Request}

abbrev pub server_version : Bytes
server_version = codes "Simple_Server V2"

-- `struct Response`
pub record Response : Type 0 where
  pub status_line : Bytes
  pub mime_type : Bytes
  pub body : Bytes

abbrev plain : Bytes → Response
plain status_line = record { status_line = status_line; mime_type = codes "text/plain"; body = [] }

abbrev html : Bytes → Bytes → Response
html status_line body = record {
  status_line = status_line;
  mime_type = codes "text/html";
  body = body;
}

-- The entries of `error_responses`; the two codes that have none are refused before it is read.
pub error_responses : ClientResponse → Response
error_responses resp_400 = plain (codes "400 Bad Request")
error_responses resp_403 = plain (codes "403 Forbidden")
error_responses resp_404 = html (codes "404 Not Found") (
    codes "<html><body><h1>404 Not Found</h1>"
    ++ (codes "<h3>Sorry, the file you are looking for doesn't exist</h3>"
        ++ (codes "<br><br><p>Or does it?!?!</p><br><br><br><br>"
            ++ codes "<p>No... it doesn't</p></body></html>")))
error_responses resp_414 = plain (codes "414 URI Too Long")
error_responses resp_500 = plain (codes "500 Internal Server Error")
error_responses resp_501 = html (codes "501 Not Implemented") (
    codes "<html><body><h1>501 CGI Not Enabled on Server</h1>"
    ++ (codes "<h3>CGI application requires the server to be run with the CGI flag</h3>"
        ++ (codes "<p>Please restart the simple_server application with the -c flag "
            ++ (codes "and the location of the cgi-bin directory</p>"
                ++ codes "<p><b>Eg:<br/></b> ./simple_server -c ./cgi-bin</p></body></html>"))))
error_responses resp_505 = plain (codes "505 HTTP Version Not Supported")
error_responses _ = record { status_line = []; mime_type = []; body = [] }

-- `resp_val < RESP_400 || resp_val >= NUM_CLIENT_RESP`
abbrev pub has_no_page : ClientResponse → Bool
has_no_page resp_200 = true
has_no_page num_client_resp = true
has_no_page _ = false

abbrev pub is_head : HttpMethod → Bool
is_head http_head = true
is_head _ = false

-- The text of the `fprintf`; `length` is the number that `%zu` prints.
pub error_header : Response → Bytes → Bytes
error_header page time =
    codes "HTTP/1.0 "
    ++ (page.status_line
        ++ (codes "\r\nDate: "
            ++ (time
                ++ (codes "\r\nServer: "
                    ++ (server_version
                        ++ (codes "\r\nContent-Type: "
                            ++ (page.mime_type
                                ++ (codes "\r\nContent-Length: "
                                    ++ (decimal (length page.body)
                                        ++ codes "\r\nConnection: close\r\n\r\n")))))))))

-- The status and the client. Neither pointer is NULL where the server calls it.
unfoldable pub build_error_response : Host → Client → Request → Status × Client
build_error_response h c req =
    let page = error_responses c.resp_val in
    let header = error_header page req.time_received in
    if has_no_page c.resp_val
    then (failure, c)
    else if not h.error_stream_ok
    then (failure, c)
    else if is_head req.method
    then (
      success,
      record c {
        out_buf = some header;
        output_length = length header;
        header_len = length header;
        body_len = length page.body;
      },
    )
    else (
      success,
      record c {
        out_buf = some (header ++ page.body);
        output_length = length (header ++ page.body);
        header_len = length header;
        body_len = length (header ++ page.body) - length header;
      },
    )
