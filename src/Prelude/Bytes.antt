-- ===== src/Prelude/Bytes.antt =====
-- Byte buffers: `buf[i..i + src.len()].copy_from_slice(src)`, `buf[i..i + n]`, and the big-endian
-- conversions of Rust's unsigned integers.
mod Laws
mod Word
unfoldable pub use Laws.{overwrite, write_at, set_byte, slice, byte_at, bytes_eq}
unfoldable pub use Word.{to_be_bytes, from_be_bytes, be_loop, IsByte}
pub use Laws.*
pub use Word.*
