-- ===== src/Encoding.antt =====
-- breUtils/encoding: hexadecimal text and Base64.
pub mod Hex
pub mod Base64
