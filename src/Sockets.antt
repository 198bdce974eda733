-- ===== src/Sockets.antt =====
-- src/simple_socket/TCPSocket.cpp, UDPSocket.cpp, SocketConnection.hpp and tls/TLSConnection.hpp,
-- with the calls of the operating
-- system and of OpenSSL as parameters.
pub mod Descriptors
pub mod Servers
pub mod Tcp
pub mod Udp
pub mod Stream
pub mod Tls
