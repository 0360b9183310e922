-- ===== src/Ukernel.antt =====
-- kernel/mp_port/modukernel.c: the Python module `ukernel`, over the kernel's ABI and the Python runtime.
pub mod Address
pub mod Runtime
pub mod Net
pub mod Console
pub mod Globals
pub mod Tests
