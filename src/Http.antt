-- ===== src/Http.antt =====
-- src/simple_socket/http/SimpleHttpFetcher.cpp: the HTTP client, over any connection.
pub mod Url
pub mod Headers
pub mod Chunks
pub mod Fetch
