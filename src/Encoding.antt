-- ===== src/Encoding.antt =====
-- Python's `struct` and `base64`, as far as the code uses them.
pub mod Struct
pub mod Base64
