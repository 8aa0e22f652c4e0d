-- ===== src/Golang.antt =====
-- What the program uses of Go's standard library: `encoding/binary`, `time`, `crypto/ed25519`,
-- `crypto/sha256`, `net/url` and `fmt`.
pub mod Binary
pub mod Time
pub mod Ed25519
pub mod Slice
pub mod Url
pub mod Decimal
