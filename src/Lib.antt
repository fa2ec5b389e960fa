-- ===== src/Lib.antt =====
-- A verification library for the C code of lua-kcp-skynet: the Lua bindings of the KCP protocol
-- library for clients and for skynet servers, and the helpers for time and bytes that go with them.
--
-- The program. lua-kcp/lkcp.c gives Lua scripts connection objects: userdata that hold a pointer
-- to a control block of the KCP library (lua-kcp/ikcp.c, a copy of skywind3000/kcp), whose `user`
-- field points to a `struct Callback` that the binding allocates. When the library has a packet to
-- send, during an update or a flush, it calls back `kcp_output_callback`, which calls the Lua
-- function that the script gave on creation. lua-kcp/lkcpsn.c does the same for skynet services, but
-- its callback packs the packet with a Lua state that the whole process shares and sends it over
-- skynet's UDP socket to an address that the connection keeps in a heap block; every send or input
-- can set that address anew. lua-kcp/lutil.c has the clock, a pause, and the
-- conversion between numbers and bytes in network order that scripts use with it.
--
-- The files.
--   Prelude and its children: numbers, lists, signed integers, C's integer conversions (Word), and
--   the law by which `|` of shifted bytes is a sum (Bits).
--   Heap, Heap/Laws: `malloc` and `free`, one kind of block at a time. Addresses are not reused, so
--   every use of a freed block is seen as a fault.
--   Outcome and its children: how a C function ends (a return, a Lua error by `longjmp`, undefined
--   behaviour), the rules by which an invariant goes through a sequence of steps (Rules), and the
--   states that a sequence of calls can reach (Trace).
--   Api/Lua, Api/Kcp: the libraries that the bindings call, as records of operations with the laws
--   that their manuals give. They are parameters of everything below.
--   Machine, Machine/Rules, Machine/Steps: the state of the process as the bindings see it, the
--   steps that the C functions are made of, and what each step returns and keeps. Machine/Open has
--   what luaopen_lkcp and luaopen_lkcpsn have in common, and Machine/Args what a method does with a
--   first argument that is no connection.
--   Registry: an array of `luaL_Reg` and the table that `luaL_newlib` fills from it.
--   Lkcp and its children: lua-kcp/lkcp.c. The functions keep their names; `lkcp_methods` is the
--   table of methods; a helper by clauses stands for each `if` of a function. The children are
--   Open (luaopen_lkcp and the tables of names), Safety, Receive and Output, whose children are Drive
--   and Leaves (a run of the library, packet by packet, with an output function and with another value
--   in its place) and Stack (the Lua stack around an update or a flush).
--   Safety has the heap invariant (Sound), the methods (Serves is what their proof asks of an
--   invariant, Methods and Isolation are two of them), the finalizer (Gc), creation (Create, Blocks),
--   calls with any arguments (Calls), and sequences of calls (Trace).
--   Addresses and its children: lua-kcp/lkcpsn.c, its data, and what it does to address blocks
--   (`set_address` is what `lkcp_send` and `lkcp_input` have in common). Fill and Laws have what such a
--   block holds afterwards, Print when `print_address` stays within it.
--   Sender: the output callback of lua-kcp/lkcpsn.c, which packs and sends a packet, and what it
--   relies on of the shared Lua state (`Packing`).
--   Lkcpsn and its children: the other functions of lua-kcp/lkcpsn.c, named as there. The children
--   are Open (luaopen_lkcpsn and the tables of names), Live (the invariant of a connection), Safety
--   (the methods on one connection; Serves is what their proof asks of an invariant), Sound, Whole,
--   Readdress, Blocks and Collect (the same for any number of connections), Isolation (what a method
--   leaves alone), Sessions (the connections as a table, without the blocks that hold them: Steps has
--   what may happen to the table, Spec an abstract machine with no other steps, Create what a creation
--   does to the table), Running, Calls and Trace (calls with any arguments, and sequences of calls),
--   Refine (those sequences and the abstract machine), Output (the output callback),
--   Transmit and Update (an update or a flush as the datagrams that it sends), Peer (`lkcp_send`,
--   `lkcp_input`), Create and Gc.
--   Together and its children: two services that use the shared Lua state of lua-kcp/lkcpsn.c at the
--   same time, one call of the Lua API a step. The packed bytes are read by a pointer into a string
--   that was popped, and after a call of the other service on that state the pointer is taken to lead
--   nowhere. Race has schedules in which the two meet, with the lemmas of Steps and Turns; Schedules
--   has those in which one does not begin on the shared state before the other has sent, with the
--   steps of Exclusive, the stack of Places and the order of datagrams of Order. Progress brings two
--   that keep apart to their ends, with the counts of Finish and the lemmas of Walks.
--   Lutil and its children: lua-kcp/lutil.c, with luaopen_lutil in Open.
--   Examples and its children: a small Lua machine and a loopback that obey the interfaces' laws,
--   tests, and the results at concrete states.
--
-- Conventions. A `lua_State *` is the number of a thread of one virtual machine. Stack slots
-- count from 1. A message printed by `printf` is left out. The macros `lock_on` and `lock_off`
-- stand where the source has them and do nothing, since their bodies are comments. `malloc` is
-- taken to succeed, since the source does not check its result; `ikcp_create` may return NULL. A
-- Lua output function is taken not to call the bindings again. There is no fuel: the only loop in
-- a call is the library's own run of an update or a flush, which is a finite tree of calls of the output
-- function.
--
-- The shared Lua state of lkcpsn.c is a virtual machine of its own, whose main thread is number 0;
-- an error on it is not protected and ends the process, which counts as a fault.
-- `skynet_socket_udp_sendbuffer` is a parameter: a function of the calls so far. Outside Together one
-- service at a time works on that state; there, two do, but each call of the API is taken to be
-- atomic. A popped string is taken to stay until the next call on its state.
--
-- The model's Lua stacks have no limit, where Lua promises a C function twenty free slots. A
-- function of the bindings pushes a fixed number of values on the stack of its thread, with one
-- exception: if the output function of a connection of lua-kcp/lkcp.c is no function, each packet
-- takes a slot. The safety of an update or a flush of lua-kcp/lkcp.c is therefore stated for a
-- function, with the slots that it takes. The record of the receive buffer stands for the buffer in
-- the registry of the service that runs; those of other services, which nothing in lua-kcp/lkcpsn.c
-- can reach from there, are not in the state.
--
-- Not modelled: ikcp.c, which is another project's library; the Lua values of the tables that
-- luaopen_lkcp and luaopen_lkcpsn push, which are arguments of theirs (what a script finds in such
-- a table is Registry's `new_lib`); the Lua code under pvpBattle, which is application code on top
-- of the bindings.
pub mod Addresses
pub mod Api
pub mod Examples
pub mod Heap
pub mod Lkcp
pub mod Lkcpsn
pub mod Lutil
pub mod Machine
pub mod Outcome
pub mod Prelude
pub mod Registry
pub mod Sender
pub mod Together
