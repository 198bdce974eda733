-- ===== src/Tests.antt =====
-- Runs at concrete inputs, and the theorems applied to such inputs.
mod Registers
mod ModbusServer
mod ModbusClient
mod Streams
mod Mqtt
mod Ws
mod Http
mod Handshake
mod Util
mod Tls
mod Bridge
mod Lifetimes
mod Servers
mod SharedMemory
