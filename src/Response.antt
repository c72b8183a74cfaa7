-- ===== src/Response.antt =====
-- response/build_error_response.c, response/build_okay_response.c and response/version_info.h: the
-- whole response is put into the output buffer of the client.
pub mod Error
pub mod Common
pub mod Script
pub mod Listing
pub mod Okay
pub mod Message
