-- ===== src/Libc.antt =====
-- kernel/libc_shim.c, one module for each section of the file.
pub mod Bytes
pub mod Convert
pub mod Format
pub mod Sort
pub mod Ctype
pub mod Strings
pub mod Alloc
