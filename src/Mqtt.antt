-- ===== src/Mqtt.antt =====
-- src/simple_socket/mqtt: the MQTT 3.1.1 client and broker.
pub mod Codec
pub mod Topics
pub mod Broker
pub mod Client
pub mod WsWrapper
pub mod OverWebSocket
