-- ===== src/Numbers.antt =====
-- Numbers and bytes as text, as the packages strconv, encoding/base64 and encoding/hex of the Go
-- library write and read them.
pub mod Decimal
pub mod Base64
pub mod Hex
