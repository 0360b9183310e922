-- ===== src/Lib.antt =====
-- Zigu, a unikernel that runs a MicroPython script: its C code, as functions over byte memory, and the
-- part of the kernel that a script reaches.
--
-- The parts. The kernel is written in Zig (kernel/*.zig). It starts MicroPython (a submodule), which
-- is compiled against a small C library, kernel/libc_shim.c: all that the interpreter allocates,
-- copies, compares and formats goes through it. A script reaches the kernel through the Python module
-- `ukernel`, kernel/mp_port/modukernel.c, which converts the objects of Python, parses addresses and
-- calls the functions that kernel/abi.zig exports.
--
-- The files.
--   Base          names of the libraries that all files share; Base/Tests the Boolean tests, Base/Lists
--                 lists measured by native numbers, Base/Int signed integers, Base/Outcome the
--                 result of C code: `done`, `fault` (undefined behaviour), `out_of_fuel`.
--   Memory        bytes at addresses; Memory/Word the 64-bit words that eight of them make up.
--   Libc/Bytes    `memcpy`, `memmove`, `memset`, `memcmp` (libc_shim.c, lines 104 to 136).
--   Libc/Strings  `strlen` to `strcat` (lines 138 to 210).
--   Libc/Alloc    `malloc`, `free`, `realloc`, `calloc` (lines 9 to 102). Alloc/State has the words of a
--                 block header and the two static variables, Alloc/Layout the list of blocks that
--                 tile the heap, Alloc/Chain the free list, Alloc/Invariant the two together,
--                 Alloc/History and Alloc/Held any history of `malloc` and `free`; the other files follow
--                 one operation each.
--   Libc/Format   `put_char` to `snprintf` (lines 212 to 342). Format/Digits and Format/Numbers have the digits of a number,
--                 Format/Output the contents of the buffer, Format/Directive the directives
--                 and the loop over the format, Format/Print `printf` (lines 344 to 354).
--   Libc/Sort     `qsort` (lines 425 to 439): Sort/Insertion is the sort on lists, Sort/Elements the array
--                 as a list of elements, Sort/Sorting the two together.
--   Libc/Ctype    the character classes of kernel/mp_port/include/ctype.h.
--   Libc/Convert  `strtol` and the functions that call it (lines 375 to 422).
--   Ukernel       modukernel.c: Ukernel/Runtime is what it calls (the record `Kernel` has the
--                 functions of the kernel, over a state of the kernel; the record `Python` has the
--                 conversions of the MicroPython runtime, where `none` is a raised exception),
--                 Ukernel/Address `parse_ip` and `build_addr`, Ukernel/Net the networking
--                 functions, Ukernel/Console `log`, `time_ms` and `sleep_ms`.
--                 Ukernel/Globals is the table of its globals.
--   Port          kernel/mp_port/mp_main.c and mphalport.c, and `abort` and `exit` of libc_shim.c (lines 358
--                 to 371), with the interpreter and the serial port as parameters; Port/Stop follows a
--                 failed assertion.
--   Abi           the kernel's interface. Abi/Codes has the enumerations of include/ukernel_abi.h, Abi/Caps
--                 the capabilities (kernel/abi.zig, lines 83 to 160 and 218 to 317), Abi/Handles the tables of
--                 handles (lines 88 to 91 and 162 to 208), Abi/Net the network calls (lines 680 to 765),
--                 Abi/Mem `mem_alloc` and `mem_free` (lines 406 to 456), Abi/Io `io_open` to `io_close` (lines
--                 473 to 563), Abi/Io/Ipc the calls of ipc (lines 651 to 678), Abi/Poll `io_poll` (lines 565 to
--                 649).
--                 Caps/History and Handles/Revoked run sequences of calls; Net/Agreement does so for
--                 the network and the capabilities together. Net/Python fills the record `Kernel` with
--                 these calls, so that the functions of Ukernel run over them.
--   Net           kernel/net.zig but for UDP: Ethernet, ARP, IPv4 and `processIncoming`. The record `Device`
--                 has the driver, kernel/virtio_net.zig, over a state of its own. Net/Frames reads what these
--                 layers build, Net/Sending follows a packet down to the driver, whose bytes Net/Written has, Net/Incoming one up to the
--                 sockets, Net/Resolve and Net/Resolve/Answers the addresses of ARP.
--   Disk          `readBytes` of kernel/virtio_blk.zig (lines 116 to 144), over the sectors of the disk.
--   Tar           kernel/tar.zig, the search for the script in the disk image: Tar/Header has a header as an
--                 archiver writes it, Tar/Octal and Tar/Names its size and its name, Tar/Finding the search.
--   Udp           the sockets of kernel/net.zig, lines 291 to 414, between the network calls and Net.
--
-- How the code is read. A pointer is an address and `NULL` is 0. Unsigned 64-bit arithmetic is written
-- with `% 2 ^ 64`. A function that writes through a pointer returns the new memory. Functions keep the
-- names and the order of the arguments of the source; a loop is a function of its own, named after its
-- function, with the rounds that are left as its first argument. Reading past the arguments of a
-- variadic call, a width beyond `int`, a write past a local buffer and the negation of the least
-- value are faults.
--
-- Fuel. A loop without a bound in its source runs on fuel. A string function needs more than the length
-- of the string, `malloc` more than the number of free blocks, `vsnprintf` more than the number of
-- pieces of the format, `sleep_ms` more than the number of reads of the clock. The theorems have
-- these bounds as hypotheses and show that there is a result, so that with enough fuel the loops end.
-- `processIncoming` polls until the driver has no frame. The record `Device` assumes of the driver that it hands
-- out finitely many frames in a row, as a bound that falls with each: `processIncoming` has one poll more than
-- the bound, so that it ends by the lack of a frame; a network that feeds frames faster than they are
-- processed, over which the loop of the source does not end, is left out. `arpResolve` has the bounds of its source.
-- `io_poll` needs as many rounds as its timeout has ticks, since the counter advances with each.
-- `readBytes` has a round for each byte and one more, `findFile` needs more rounds than there are files and
-- empty blocks at the end.
-- The loop over the digits of a number has 25 rounds: the 24 bytes of its buffer are full before.
--
-- Not modelled. The interpreter is not in the repository, and appears only as the records `Python` and
-- `Interpreter`. Of abi.zig, the tasks, the clock, logging and tracing are missing; so are the device
-- drivers but for `readBytes`, the other parts of the kernel, and the script tooling. Of libc_shim.c the floating-point stubs are
-- missing, which the configuration does not use.
-- Addresses do not wrap at the end of the address space within a loop.
pub mod Abi
pub mod Base
pub mod Disk
pub mod Libc
pub mod Memory
pub mod Net
pub mod Port
pub mod Tar
pub mod Udp
pub mod Ukernel
