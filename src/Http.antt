-- ===== src/Http.antt =====
-- The serializer fossil__http_build_request and the parser fossil__http_parse_response of
-- code/logic/request.c, and fossil_net_request_send, which joins them over a socket.
pub mod Build
pub mod Parse
pub mod Send
mod Tests
