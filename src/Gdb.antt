-- ===== src/Gdb.antt =====
-- The GDB remote stub, src/gdbstub.cpp and src/gdbstub.h.
pub mod State
pub mod Packet
pub mod Threads
pub mod Access
pub mod Execution
pub mod Xml
pub mod Query
pub mod Serve
pub mod Values
