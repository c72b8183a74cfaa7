-- ===== src/Logging.antt =====
-- logging/logging.h and logging/logging.c: one log line is gathered in a fixed buffer.
use simple_web_server.Base.{ℕ, ◌+◌, ◌-◌, ◌%◌, ◌^◌, [], ◌++◌, length, take}
use simple_web_server.Client.{
  ClientResponse, resp_200, resp_400, resp_403, resp_404, resp_414, resp_500, resp_501, resp_505,
  num_client_resp,
}
use simple_web_server.CString.{Bytes, codes}

abbrev pub max_request_size : ℕ
max_request_size = 8192

abbrev pub log_buf_size : ℕ
log_buf_size = max_request_size + 128

-- `buf` holds the bytes written so far, before the NUL that the last write put behind them.
pub record LogEntry : Type 0 where
  pub buf : Bytes
  pub offset : ℕ

abbrev pub empty_entry : LogEntry
empty_entry = record { buf = []; offset = 0 }

unfoldable pub resp_val_to_status_string : ClientResponse → Bytes
resp_val_to_status_string resp_200 = codes "200"
resp_val_to_status_string resp_400 = codes "400"
resp_val_to_status_string resp_403 = codes "403"
resp_val_to_status_string resp_404 = codes "404"
resp_val_to_status_string resp_414 = codes "414"
resp_val_to_status_string resp_500 = codes "500"
resp_val_to_status_string resp_501 = codes "501"
resp_val_to_status_string resp_505 = codes "505"
resp_val_to_status_string num_client_resp = codes "000"

-- `LOG_BUF_SIZE - le->offset`, in `size_t`
unfoldable pub room : LogEntry → ℕ
room le = (log_buf_size + 2 ^ 64 - le.offset) % 2 ^ 64

-- `vsnprintf` writes at most `room - 1` bytes of the formatted text; the offset grows by all of it.
unfoldable pub log_append : LogEntry → Bytes → LogEntry
unfolding room
log_append le text = record {
  buf = take le.offset le.buf ++ take (room le - 1) text;
  offset = le.offset + length text;
}
