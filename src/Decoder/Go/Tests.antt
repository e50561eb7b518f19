-- ===== src/Decoder/Go/Tests.antt =====
-- The theorems about goroutines at a process with a running main goroutine and its blocked child.
use mirrorscope.Prelude.{
  ℕ, ◌+◌, ◌≡◌, ◌≤◌, refl, arith, none, some, List, [], ◌∷◌, ok, err, take, length, All,
}
use mirrorscope.Prelude.Bytes.{Bytes, le_bytes}
use mirrorscope.Prelude.Ints.{pos}
use mirrorscope.Prelude.Maps.{Map, lookup}
use mirrorscope.Prelude.Text.{codes, decimal}
use mirrorscope.Decoder.TaskTree as Model
use mirrorscope.Decoder.TaskTree.{TaskTree, memory_read_failed, node, try_from_nodes}
use mirrorscope.Decoder.Frame.{ProcessView}
use mirrorscope.Decoder.Go.Status.{running, waiting, wait_reason_str}
use mirrorscope.Decoder.Go.Version.{GoVersion, parse, detect_in_bytes}
use mirrorscope.Decoder.Go.Version.RoundTrip.{version_text, parse-version_text}
use mirrorscope.Decoder.Go.Offsets.{GStructOffsets, GoLayout, vendored_for}
use mirrorscope.Decoder.Go.Walk.{GoroutineInfo, max_goroutines, walk_goroutines}
use mirrorscope.Decoder.Go.Walk.Bounds.{IsListed, walk_goroutines-IsListed}
use mirrorscope.Decoder.Go.Goroutines.{live_ids, decode_tasks, find_goroutine, task_wake_cause}
use mirrorscope.Decoder.Go.Goroutines.Index.{task_of}
use mirrorscope.Decoder.Go.Goroutines.Tree.{decode_tasks-task_of}
use mirrorscope.Decoder.Go.Goroutines.Wake.{cause_in, task_wake_cause-state}

abbrev offsets : GStructOffsets
offsets = record {
  goid = 160;
  atomicstatus = 152;
  waitreason = 184;
  stack_lo = 0;
  stack_hi = 8;
  sched_pc = 64;
  sched_sp = 56;
  gopc = 288;
  startpc = 304;
  m = 48;
  parent_goid = some 280;
}

abbrev go_1_24 : GoVersion
go_1_24 = record { major = 1; minor = 24; patch = 13 }

abbrev layout : GoLayout
layout = record {
  ptr_size = 8;
  allgs_addr = 0x1000;
  allglen_addr = none;
  load_bias = 0;
  g = offsets;
  m_procid = some 72;
  source = vendored_for go_1_24;
}

-- A goroutine's words, at `gp`.
abbrev g_memory : (gp goid status reason parent : ℕ) → Map Bytes → Map Bytes
g_memory gp goid status reason parent rest =
    (gp + 160, le_bytes 8 goid)
    ∷ (gp + 152, le_bytes 4 status)
    ∷ (gp + 184, reason ∷ [])
    ∷ (gp, le_bytes 8 0)
    ∷ (gp + 8, le_bytes 8 0)
    ∷ (gp + 64, le_bytes 8 0xc0de)
    ∷ (gp + 56, le_bytes 8 0)
    ∷ (gp + 288, le_bytes 8 0)
    ∷ (gp + 304, le_bytes 8 0)
    ∷ (gp + 48, le_bytes 8 0)
    ∷ (gp + 280, le_bytes 8 parent)
    ∷ rest

-- The slice has a null slot, the main goroutine and its child, which waits for a channel.
abbrev memory : Map Bytes
memory =
    (0x1000, le_bytes 8 0x2000)
    ∷ (0x1008, le_bytes 8 3)
    ∷ (0x2000, le_bytes 8 0)
    ∷ (0x2008, le_bytes 8 0x4000)
    ∷ (0x2010, le_bytes 8 0x5000)
    ∷ g_memory 0x4000 1 2 0 0 (g_memory 0x5000 2 4 14 1 [])

abbrev view : ProcessView
view = record {
  thread_ids = [];
  registers = λ thread. err (Model.register_read_failed thread);
  read_memory = λ addr len. elim (lookup addr memory) [
    | none ↦ err (memory_read_failed addr len)
    | some bytes ↦ ok (take len bytes)
  ];
  physical_frames = λ thread. err (Model.physical_frames_failed thread);
  thread_pointer = λ thread. ok none;
  executable_base = none;
}

abbrev main_goroutine : GoroutineInfo
main_goroutine = record {
  goid = pos 1;
  raw_status = 2;
  status = running;
  state = Model.running;
  wait_reason = 0;
  wait_reason_text = [];
  gopc = 0;
  startpc = 0;
  sched_pc = 0xc0de;
  sched_sp = 0;
  stack_lo = 0;
  stack_hi = 0;
  m_ptr = 0;
  parent_goid = some (pos 0);
  thread = none;
}

abbrev child_goroutine : GoroutineInfo
child_goroutine = record main_goroutine {
  goid = pos 2;
  raw_status = 4;
  status = waiting;
  state = Model.blocked (Model.channel (some (codes "chan receive")));
  wait_reason = 14;
  wait_reason_text = codes "chan receive";
  parent_goid = some (pos 1);
}

abbrev goroutines : List GoroutineInfo
goroutines = main_goroutine ∷ child_goroutine ∷ []

walked : walk_goroutines view layout ≡ ok goroutines
unfolding walk_goroutines lookup wait_reason_str
walked = refl

walk_goroutines-IsListed_example : (length goroutines ≤ max_goroutines) × All IsListed goroutines
walk_goroutines-IsListed_example = walk_goroutines-IsListed view layout goroutines walked

decode_tasks-task_of_example :
    (tree : TaskTree) × (decode_tasks view layout ≡ ok tree)
    × ((x : ℕ) → node tree x ≡ task_of (live_ids goroutines) goroutines x)
decode_tasks-task_of_example = decode_tasks-task_of view layout goroutines walked

found : find_goroutine view layout 2 ≡ ok child_goroutine
unfolding find_goroutine walk_goroutines lookup wait_reason_str
found = refl

task_wake_cause-state_example : task_wake_cause view layout 2 ≡ ok (cause_in child_goroutine.state)
task_wake_cause-state_example = task_wake_cause-state view layout 2 child_goroutine found

parse-version_text_example : parse (version_text go_1_24) ≡ some go_1_24
parse-version_text_example = parse-version_text go_1_24 (omega arith) (omega arith) (omega arith)

text_test : version_text go_1_24 ≡ codes "go1.24.13"
unfolding decimal
text_test = refl

detect_test : detect_in_bytes (codes "some data go1.x go1.24.13 padding") ≡ some go_1_24
unfolding detect_in_bytes
detect_test = refl
