-- ===== src/Modbus.antt =====
-- The Modbus part: the word encodings, the holding registers, the server and the client.
pub mod Words
pub mod Registers
pub mod Server
pub mod Client
