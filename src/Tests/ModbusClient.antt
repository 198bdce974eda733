-- ===== src/Tests/ModbusClient.antt =====
-- src/simple_socket/modbus/ModbusClient.cpp against the server.
use simple_socket.Prelude.{[], ◌∷◌, replicate, arith}
use simple_socket.Modbus.Registers.{HoldingRegister}
use simple_socket.Modbus.Server.Safety.{IsBank}
use simple_socket.Modbus.Client.{Client}
use simple_socket.Modbus.Client.Exchange.{Loop}

abbrev client_of : HoldingRegister → Client Loop
client_of reg = record { conn = record { reg = reg; answer = [] }; next_transaction_id = 1 }

abbrev bank : HoldingRegister
bank = record { registers = 11 ∷ 12 ∷ 13 ∷ [] }

abbrev large : HoldingRegister
large = record { registers = replicate 124 0 }

large-IsBank : IsBank large
large-IsBank = omega arith
