-- ===== src/Tests.antt =====
-- Tests on concrete inputs, and the theorems at inputs that meet their hypotheses.
mod Dm
mod Hart
mod Main
mod Session
mod Server
mod Gdb
mod Riscv
mod Wire
mod Cli
mod Util
mod Polling
mod Windows
