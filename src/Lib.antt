-- ===== src/Lib.antt =====
-- A verification library for Mirrorscope, a record and replay debugger: what the recorder writes,
-- how the replay engine re-executes it, how the debug adapter moves along it, and the tree of tasks
-- that the decoders build.
--
-- The parts, and the files that model them:
--
-- - Trace: the trace file of crates/recorder/src/trace. Format.antt has the constants, events and
--   errors of format.rs, Body.antt its record bodies, Cmdline.antt the command line of the header,
--   Writer.antt and Reader.antt the `TraceWriter` and `TraceReader` of writer.rs and reader.rs. A
--   stream is a list of bytes, a reader's or writer's method a function on its record, and
--   `crc32fast::hash` a parameter. File.antt puts both ends together.
-- - Capture: crates/recorder/src/capture. Payload.antt has the payloads of payload.rs, Syscall.antt
--   the events of syscall.rs and `injection_addr` of crates/replay/src/inject.rs, and Sched.antt the
--   scheduler of sched.rs. The syscall numbers of `libc` are the parameter `Sys`; what the kernel
--   answers is a `Kernel` for each step and a list of `Wait`s for `run`; the events appended to the
--   writer are the list `trace`.
-- - Replay: crates/replay/src. Schedule.antt and TidMap.antt model schedule.rs,
--   CheckpointSelect.antt checkpoint_select.rs, Watchpoint.antt the encodings of watchpoint.rs,
--   State.antt the records of session.rs, mt.rs, checkpoint.rs and error.rs, Session.antt and
--   Snapshots.antt the handlers and jumps of session.rs, Mt.antt and Mt/Handlers.antt mt.rs, and
--   Drive.antt `drive` with `run_to`, `step_to` and `run_to_end`. The kernel with its tracees is a
--   value of a type `K` that the operations of `Os` change (ptrace, waitpid, process memory, fork
--   snapshots, debug registers), and nothing is assumed of them but where a theorem says so. A
--   failed operation answers an error and no session.
-- - Dap: crates/dap/src. Backend.antt has the navigation of replay_backend.rs, on top of the replay
--   session; Transport.antt the frames of transport.rs, Protocol.antt the messages of protocol.rs,
--   Interface.antt the trait `DebugBackend` and Stub.antt the static target of backend.rs and
--   stub.rs, and Server.antt the handlers and the request loop of server.rs. `serde_json` is the
--   record of operations of Json.antt, the writer is the list of the messages written, and a
--   backend is a state that the methods of the interface change.
-- - Decoder: crates/decoder/src. TaskTree.antt has the task tree of model/tree.rs and task.rs,
--   Frame.antt the frames, wake causes and process view of model/frame.rs, wake.rs and
--   process_view.rs, Native.antt the decoder of native.rs; Go has the goroutine decoder of go:
--   Status.antt, Version.antt, Offsets.antt, the walk over `runtime.allgs` of gwalk.rs in Walk.antt
--   and decoder.rs in Goroutines.antt. AsyncRust has the decoder of async_rust: Layout.antt,
--   State.antt and Decode.antt for one coroutine (layout.rs, state.rs, decode.rs), Tasks.antt
--   decoder.rs, Owned.antt the walk of enumerate/walk.rs over the tasks of a runtime, Plan.antt the
--   roots that enumerate/mod.rs finds there, Elf.antt the program headers of enumerate/dwarf.rs,
--   and Versions.antt the versions of rustc and tokio (rustc_version.rs, enumerate/layout.rs). The
--   memory of the process is a function of the view.
-- - Unwind: Maps.antt is the parser of crates/unwind/src/maps.rs. Cli: crates/mirrorscope-cli, its
--   arguments in Args.antt, and the replay and the scan for a watchpoint (crates/replay/src/scan.rs,
--   in Replay/Scan.antt) that it starts in Commands.antt.
-- - Prelude: what they share. Results.antt has `?` as a bind, Bytes.antt little-endian words,
--   Ints.antt `i32` and `i64`, Utf8.antt the check of `String::from_utf8`, Maps.antt association
--   lists, Bits.antt shifts and fields, and Text.antt literals, printed numbers and their parsing.
--
-- The recorder's Sched writes the events that the replay's Session and Mt consume through the
-- payload codecs, Trace carries them in between, and Dap drives the Session along their numbers.
-- Both decoders hand their nodes to the task tree, and the server answers through the transport.
--
-- Numbers are native, and `u16`, `u32` and `u64` wrap or saturate where the code does. Fuel: the
-- reader's iteration gets one unit more than the input has bytes, since each record eats some; the
-- drive of one tracee takes a unit for each stop, for which the records left and the stops that are
-- not at syscalls are enough, and that of several threads a unit for each record and each stop of a
-- step; the walk over the task tree takes its depth and its breadth; the
-- request loop and the header loop take one unit more than the input has bytes; the walks over async
-- tasks take one or two units more than the tasks that the code allows.
-- Pids are positive, so that `as u32` keeps them.
--
-- Not modelled: I/O errors, the process launch and the pipes, the text of JSON, symbols and DWARF
-- (so the layouts of a Go or an async Rust program and the facts of its plan are given), unwinding,
-- the eBPF recorder, and what the command line prints.
pub mod Prelude
pub mod Trace
pub mod Capture
pub mod Replay
pub mod Dap
pub mod Decoder
pub mod Unwind
pub mod Cli
