-- ===== src/Backend.antt =====
-- The debugger's backend, src/backend.cpp and src/backend.h: its state and its access to the debug
-- module's registers. The target is a parameter; logging and delays are left out.
pub mod State
pub mod Dmreg
pub mod Warps
pub mod Control
pub mod Registers
pub mod Memory
pub mod Breakpoints
pub mod Init
pub mod Params
pub mod Connection
pub mod Describe
pub mod Remote
