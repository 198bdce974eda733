-- ===== src/Tests/Registers.antt =====
-- include/simple_socket/modbus/modbus_helper.hpp and src/simple_socket/modbus/HoldingRegister.cpp.
use simple_socket.Prelude.{◌≡◌, refl, [], ◌∷◌, ok}
use simple_socket.Modbus.Words.{decode_text, encode_text}
use simple_socket.Modbus.Words.Integers.{words32, words64}
use simple_socket.Modbus.Registers.{HoldingRegister, get_uint16}
use simple_socket.Modbus.Registers.Access.{with_run}

-- The bank of the repository's own test: ten registers.
abbrev ten : HoldingRegister
ten = record { registers = 0 ∷ 0 ∷ 0 ∷ 0 ∷ 0 ∷ 0 ∷ 0 ∷ 0 ∷ 0 ∷ 0 ∷ [] }

high_part : get_uint16 (with_run ten 1 (words32 0x12345678)) 1 ≡ ok 0x1234
unfolding get_uint16
high_part = refl

lowest_part : get_uint16 (with_run ten 1 (words64 0x123456789ABCDEF0)) 4 ≡ ok 0xDEF0
unfolding get_uint16
lowest_part = refl

padded_text :
    decode_text (encode_text (b'a' ∷ b'b' ∷ b'c' ∷ [])) 2 0 ≡ ok (b'a' ∷ b'b' ∷ b'c' ∷ 0 ∷ [])
unfolding decode_text encode_text
padded_text = refl
