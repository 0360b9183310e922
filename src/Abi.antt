-- ===== src/Abi.antt =====
-- The kernel's ABI: the constants and interfaces of include/ukernel_abi.h, and their implementation in
-- kernel/abi.zig and the sockets of kernel/net.zig.
pub mod Codes
pub mod Caps
pub mod Handles
pub mod Net
pub mod Mem
pub mod Io
pub mod Poll
