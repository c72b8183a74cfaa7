-- ===== src/Client.antt =====
-- The types of client_conn/connections.h: the states of a connection, the response codes, and the
-- per-connection record; and the flags of flags/flags.h.
use Prim.Native.Nat.{bit_and}
use simple_web_server.Base.{ℕ, Bool, not, Option, ◌==◌}
use simple_web_server.CString.{Bytes}

-- `enum client_state`
pub data ClientState : Type 0 where
  reading processing sending_header sending_body closing : ClientState

-- `enum client_response`; the last one says that no code is set yet.
pub data ClientResponse : Type 0 where
  resp_200 resp_400 resp_403 resp_404 resp_414 resp_500 resp_501 resp_505 : ClientResponse
  num_client_resp : ClientResponse

-- The 0 and -1 that the functions return.
pub data Status : Type 0 where
  success failure : Status

-- An open stream: the number tells one `fopen` from another, and the node is the file behind it.
pub record File : Type 0 where
  pub handle : ℕ
  pub node : ℕ

-- `Client`. A buffer is NULL or the bytes written to it so far; a C string is its bytes.
pub record Client : Type 0 where
  pub in_buf : Option Bytes
  pub out_buf : Option Bytes
  pub file_ptr : Option File
  pub file_size : ℕ
  pub body_sent : ℕ
  pub input_length : ℕ
  pub input_capacity : ℕ
  pub output_length : ℕ
  pub output_capacity : ℕ
  pub output_sent : ℕ
  pub header_len : ℕ
  pub body_len : ℕ
  pub fd : ℕ
  pub state : ClientState
  pub resp_val : ClientResponse
  pub client_addr : Bytes

-- The bits of `app_flags`.
abbrev pub c_flag : ℕ
c_flag = 1

abbrev pub v_flag : ℕ
v_flag = 2

abbrev pub b4_flag : ℕ
b4_flag = 8

abbrev pub b6_flag : ℕ
b6_flag = 16

abbrev pub l_flag : ℕ
l_flag = 32

-- `app_flags & flag`, as a test.
unfoldable pub has_flag : ℕ → ℕ → Bool
has_flag app_flags flag = not (bit_and app_flags flag == 0)
