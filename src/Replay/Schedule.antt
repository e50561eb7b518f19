-- ===== src/Replay/Schedule.antt =====
-- `trace_is_multithreaded` of crates/replay/src/schedule.rs.
use mirrorscope.Prelude.{Bool, true, false, ◌||◌, List, [], ◌∷◌}
use mirrorscope.Trace.Format.{EventKind, sched_switch, thread_spawn, thread_exit, Record}

-- The kinds that only a recording of several threads has.
unfoldable pub is_lifecycle : EventKind → Bool
is_lifecycle sched_switch = true
is_lifecycle thread_spawn = true
is_lifecycle thread_exit = true
is_lifecycle _ = false

unfoldable pub trace_is_multithreaded : List Record → Bool
unfolding is_lifecycle
trace_is_multithreaded [] = false
trace_is_multithreaded (r ∷ rs) = is_lifecycle r.event.kind || trace_is_multithreaded rs
