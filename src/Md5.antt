-- ===== src/Md5.antt =====
-- md5.c and md5.h: the message digest that `make.md5` and `make.file.md5` compute.
pub mod Word
pub mod Transform
pub mod Context
pub mod Reference
pub mod Compression
pub mod Decode
pub mod Absorb
pub mod Holds
pub mod Updates
pub mod Final
