-- ===== src/Util.antt =====
-- include/simple_socket/util and src/simple_socket/util: conversions of bytes, and the search for a
-- port.
pub mod Bytes
pub mod Ports
pub mod Uuid
