-- ===== src/Lib.antt =====
-- SimpleSocket: the protocol code of a cross-platform communication library for C++.
--
-- The program. Its transports (TCP, UDP, Unix sockets, TLS, shared memory) have one interface,
-- `SimpleConnection` (include/simple_socket/SimpleConnection.hpp), with `read`, `write` and the loop
-- `readExact`. On it stand Modbus/TCP (a bank of registers, a server, a client), MQTT 3.1.1 (a
-- broker, a client, and a wrapper that carries MQTT over WebSocket messages), WebSockets and HTTP.
--
-- The files, each with the code it models:
--   Prelude and its children: Boolean tests, lists by native numbers, outcomes of C++ calls (a
--   value, an exception, or undefined behaviour), laws of the bit operations.
--   Connection: SimpleConnection.hpp. `read` is a parameter; `IsStream` states what a byte stream
--   promises, and `read_exact` is `readExact`. Connection/Segments is a stream that meets it.
--   Modbus/Words: include/simple_socket/modbus/modbus_helper.hpp. Modbus/Registers:
--   src/simple_socket/modbus/HoldingRegister.cpp. Modbus/Server: `processRequest` and `sendException`
--   of src/simple_socket/modbus/ModbusServer.cpp, with `clientThread` in Modbus/Server/Framing.
--   Modbus/Client: src/simple_socket/modbus/ModbusClient.cpp.
--   Mqtt/Codec: src/simple_socket/mqtt/mqtt_common.hpp. Mqtt/Broker: MQTTBroker.cpp, one definition
--   per handler (`handle_publish` is `handlePublish`, and so on). Mqtt/Broker/Events: its critical
--   sections as the steps of all threads; Events/Abstract has the numbers of
--   subscriptions that they change. Mqtt/Client: MQTTClient.cpp. Mqtt/WsWrapper:
--   WsMqttWrapper.hpp. Mqtt/Topics: the standard containers by topic.
--   Ws/Frames: `buildFrame` of src/simple_socket/ws/WebSocketConnection.hpp and the parser in its
--   `listen`. Ws/Listener: what `listen` does with the frames.
--   Ws/Handshake: WebSocketHandshakeCommon.hpp, `handshake` of WebSocket.cpp, `performHandshake`,
--   `base64Encode` and `parseWebSocketURL` of WebSocketClient.cpp. Ws/Server: a round of
--   `WebSocket::Impl::run` and `connect` of the client; its child Run: all of `run`. Ws/Lifetime: `send`
--   and `close` of a connection.
--   Ws/Client: the object `WebSocketClient`. Ws/Listener/Reads: all of `listen`, over any reads.
--   Mqtt/Broker/Bridge: `wsAcceptLoop`, its callbacks and the client threads. Mqtt/OverWebSocket: the
--   listener, the wrapper and the broker together. Modbus/Server/Lifecycle: the threads of the server.
--   Modbus/Server/Shared: the registers that they share.
--   Text: src/simple_socket/util/string_utils.hpp, and the searches and number conversions of the standard
--   library. Http: src/simple_socket/http/SimpleHttpFetcher.cpp, with `decodeChunked` in Http/Chunks and
--   `fetchBytes` in Http/Fetch; Http/Fetch/Whole has the response as a function of all its bytes.
--   Util: port_query.cpp, byte_conversion.hpp and uuid.hpp. Sockets: TCPSocket.cpp, UDPSocket.cpp,
--   SocketConnection.hpp (Sockets/Stream), UnixDomainSocket.cpp (Sockets/Servers and its child Files, with
--   the other constructors) and tls/TLSConnection.hpp, with the calls of the system and of OpenSSL as
--   parameters.
--   SharedMemory: `read` and `write` of src/simple_socket/SharedMemoryConnection.cpp, one direction,
--   with the semaphores between two processes; SharedMemory/Layout and Closing: the constructor and `close`.
--   Tests: runs at concrete inputs.
--
-- How state is modelled. A connection is a state of any type with a `Reader` over it, so theorems
-- hold for all transports and all ways to cut the bytes into reads. Objects under a mutex are values
-- that the operations hand on; a critical section is one step. The broker names a client by a
-- number, its address; what it writes is logged, and an arbitrary function of the log says which
-- write succeeds.
--
-- Bounds and loops. Integers are natural numbers with the wrap-around written out where the type
-- of the source can wrap. `read_loop` has as much fuel as bytes are asked for, since each round
-- brings one at least. The loops that end when `stop_` is set are given the number of rounds before
-- that. `encode_loop` ends because the quotient falls. The remaining length is exact below 2^28, the
-- most that four bytes carry. `drain` has more fuel than bytes have arrived, and a frame takes one
-- at least. The loops of HTTP and TLS are given a number of rounds: for HTTP more rounds than
-- bytes are enough, and those of TLS go on as long as OpenSSL asks to be called again.
-- `readHttpHeaderBlock` ends within as many rounds as bytes are allowed, and one more. A `long` has 64
-- bits.
--
-- Not modelled: sockets and threads themselves (calls of the operating system), OpenSSL, the SHA-1 of the
-- handshake (WebSocketHandshakeKeyGen.hpp is of another project, and a parameter here), `start` and `stop`
-- of the broker and `stop` of the WebSocket server, the branches for Windows, and the texts of exceptions.
pub mod Prelude
pub mod Connection
pub mod Modbus
pub mod Mqtt
pub mod Ws
pub mod SharedMemory
pub mod Text
pub mod Http
pub mod Util
pub mod Sockets
mod Tests
