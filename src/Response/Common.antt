-- ===== src/Response/Common.antt =====
-- response/build_okay_response.c: what its three builders share.
use simple_web_server.Base.{ℕ, Bool, true, false, Option, none, some, [], ◌∷◌, ◌++◌}
use simple_web_server.Client.{Client, ClientResponse, Status, failure}
use simple_web_server.CString.{Bytes, codes, decimal}
use simple_web_server.Response.Error.{server_version}

-- `%s` of a pointer that may be NULL.
abbrev pub shown : Option Bytes → Bytes
shown none = codes "(null)"
shown (some s) = s

-- The two `fprintf` formats of the file and the directory response are one.
unfoldable pub okay_header : Bytes → Bytes → Bytes → ℕ → Bytes
okay_header time mod_time mime content_length =
    codes "HTTP/1.0 200 OK\r\nDate: "
    ++ (time
        ++ (codes "\r\nServer: "
            ++ (server_version
                ++ (codes "\r\nLast-Modified: "
                    ++ (mod_time
                        ++ (codes "\r\nContent-Type: "
                            ++ (mime
                                ++ (codes "\r\nContent-Length: "
                                    ++ (decimal content_length
                                        ++ codes "\r\nConnection: close\r\n\r\n")))))))))

abbrev pub fail_with : ClientResponse → Client → Status × Client
fail_with resp c = (failure, record c { resp_val = resp })

abbrev pub is_empty : Bytes → Bool
is_empty [] = true
is_empty (c ∷ s) = false
