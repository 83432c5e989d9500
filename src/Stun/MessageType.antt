-- ===== src/Stun/MessageType.antt =====
-- rtc-stun/src/message.rs: the type field of a message, a method of twelve bits with the two bits of
-- the class between them.
pub mod Bijection
use ortc.Common.{ℕ, ◌+◌, ◌*◌, ◌/◌, ◌%◌, ◌^◌, bit_and}

pub record MessageType : Type 0 where
  pub method : ℕ
  pub class : ℕ

abbrev method_abits : ℕ
method_abits = 0xf

abbrev method_bbits : ℕ
method_bbits = 0x70

abbrev method_dbits : ℕ
method_dbits = 0xf80

unfoldable pub value : MessageType → ℕ
value t =
    let a = bit_and t.method method_abits in
    let b = bit_and t.method method_bbits in
    let d = bit_and t.method method_dbits in
    let method = a + b * 2 ^ 1 % 2 ^ 16 + d * 2 ^ 2 % 2 ^ 16 in
    let c0 = bit_and t.class 1 * 2 ^ 4 in
    let c1 = bit_and t.class 2 * 2 ^ 7 in (method + (c0 + c1)) % 2 ^ 16

unfoldable pub read_value : ℕ → MessageType
read_value v =
    let c0 = bit_and (v / 2 ^ 4) 1 in
    let c1 = bit_and (v / 2 ^ 7) 2 in
    let a = bit_and v method_abits in
    let b = bit_and (v / 2 ^ 1) method_bbits in
    let d = bit_and (v / 2 ^ 2) method_dbits in record { method = a + b + d; class = c0 + c1 }
