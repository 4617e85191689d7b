-- ===== src/Lib.antt =====
-- Verification library for vxdebug, the debugger of the Vortex GPGPU.
--
-- The program talks to a debug module (DM) of the hardware through a text protocol. `Backend`
-- (src/backend.cpp) selects, halts, steps and inspects warps by reading and writing the module's
-- registers (src/dmdefs.h), and reads and writes a thread's registers and memory by injecting
-- assembled instructions.
--
-- Base, Bits      numbers, lists, and `&` and `|` as arithmetic; Count has consecutive numbers
-- Text            strings as bytes; Text/Number has `%d`, `%x` and `strtoul`; Text/Digits, Text/Pairs
--                 and Text/Hex are about both
-- Run             return codes (src/util.h), exceptions, and commands over a state
-- Target          what lies outside: the virtual calls of `Transport` and the assembler
-- Util            text helpers and byte order (src/util.cpp, src/util.h), with Util/Swap on the order,
--                 Util/Split on tokens, Util/Parse for numbers and addresses with
--                 Util/Reading on them, Util/Dump for dumps,
--                 Util/Pad for columns
-- Riscv           register names and numbers (src/riscv.h, src/riscv.cpp), Riscv/Names on both,
--                 Riscv/Isa (MISA), Riscv/Asm (`rv_asm`) and Riscv/Caching on its cache
-- Tcp             the sockets of lib/tcputils.cpp over the system calls, the parameter `Sockets`;
--                 Tcp/Server is the server, Tcp/State is about the client's state
-- Wire            src/transport.cpp: the messages of `Transport` over the parameter `Line`; Wire/Link
--                 is `TCPTransport`. In Wire/Peer the server at the other end is a parameter, assumed
--                 to keep to the formats in the source's comments, whatever its registers do;
--                 Wire/Batch and Wire/Access have what accesses to it do, Wire/Delivery the way of
--                 lines over a stream of bytes
-- Dm              register map and field access (src/dmdefs.h); Dm/Window, Dm/Fields and Dm/Table
--                 hold its laws
-- Backend         src/backend.cpp: State, Dmreg (register and field access, polling), Warps
--                 (selection and status), Control (halt, resume, step, inject), Registers, Memory,
--                 Breakpoints and Init; Params (the debugger's parameters) and Connection (making
--                 and connecting the transport, which makes it a `Target`); Describe is the platform's
--                 text, Remote the register access over TCP, Dmreg/Polling is on polling
-- Gdb             src/gdbstub.cpp: State (members, sending), Packet (receiving), Access, Execution,
--                 Threads and Query (the handlers), Xml (the target description), Serve (the table,
--                 its dispatch, the loop), Serve/Forever (the server around it); Values and the other
--                 children hold the theorems, Threads/Listing on a client that lists the threads,
--                 Serve/Session on packets as commands, Serve/Memory and Serve/Client on a client
--                 that writes and reads memory
-- Logger          lib/logger.h and lib/logger.cpp; Logger/Colors is on colored messages
-- Main            `main` of src/main.cpp; Main/Exit is on the code with which it ends
-- Cli             src/vxdebug.cpp: Warps, Inspect and Session (the handlers), Table (names and
--                 aliases), Execute (commands, lines, scripts, the interactive loop), Help and Status
--                 (what `help` and `info` show); Selection, Masks and Scripts hold theorems
-- Hart            the hardware as hypotheses: `Hart` states how the debug module serves an injection
--                 and what the injected instructions do; its children prove what the backend then
--                 achieves; Hart/Windows states that of the warp masks and what selecting warps
--                 leaves in them
-- Sim, Tests      a concrete target on which the hypotheses hold, tests, and the theorems at
--                 concrete inputs
--
-- A C++ call that returns a code is a command `Cmd`: from a state to a `Run`, which is `ok` with the
-- out-parameters, `err` with a code, `throws`, or `waits` for a polling loop that is not done.
-- `CHECK_ERR` is the bind of a do block. A command's name is the method's; overloads are told apart
-- by a longer name (`select_all_warps`, `halt_all_warps`, `inject_word`).
--
-- Loops recur on the attempts or words left. `write_words` takes fuel, one more than there are bytes,
-- and each round writes four. `until_breakpoint` polls without bound, and takes the rounds it may
-- make.
--
-- A client's connection is the parameter `Socket`; `serve_client` takes the packets it may serve, and
-- ends in `waits` with the client still there.
--
-- `send_loop` and `recv_loop` take rounds, one for each call of `send` or `recv`; a round for each
-- byte is enough. Commands within commands (`source`, `help`) take a depth.
--
-- `rv_asm` takes the toolchain, with the files between its steps, as a function from lines to bytes.
--
-- Parameters of the interpreter, in the record `Outside`: the argument parser (a submodule), files,
-- the transport's making and connecting, and the GDB server. The user's input is a list of lines.
--
-- Parameters beside these: the interpreter of monitor commands, and the values of variables without
-- initializer, in the record `Surroundings`.
--
-- `serve_forever` takes the clients it may serve and the packets of each; its server is `TCPServer`.
--
-- Not modelled: the messages that the components log, delays, printing but for the values that
-- commands show, and the readline history.
pub mod Base
pub mod Count
pub mod Bits
pub mod Text
pub mod Run
pub mod Target
pub mod Util
pub mod Logger
pub mod Riscv
pub mod Dm
pub mod Tcp
pub mod Wire
pub mod Backend
pub mod Hart
pub mod Gdb
pub mod Sim
pub mod Cli
pub mod Main
pub mod Tests
