-- ===== src/FastCdc.antt =====
-- dag/fastcdc.go: content-defined chunking. `data[i:]` is the list of the bytes from `i` on.
pub mod Gear
pub mod Defs
pub mod Boundary
pub mod Cut
pub mod Reader
pub mod Filled
pub mod Stream
