-- ===== src/Replay/Snapshots.antt =====
-- crates/replay/src/session.rs: when a checkpoint is taken, which one a jump starts from, how the
-- session is seated there, and the watchpoint that follows it.
pub mod Jumps
use mirrorscope.Prelude.{
  ℕ, ◌&&◌, ◌||◌, not, if◌then◌else◌, Bool, false, Option, none, some, List, [], ◌∷◌, ◌++◌,
  get_elem?, map, Result, ok, err, ◌>>=◌, ◌>>◌, ok_or,
}
use mirrorscope.Prelude.Maps.{keys}
use mirrorscope.Replay.CheckpointSelect.{is_checkpoint_due, nearest_at_or_before, should_restart}
use mirrorscope.Replay.Watchpoint.{WatchKind, validate}
use mirrorscope.Replay.State.{
  Session, Os, ReplayError, ptrace, watchpoint_request, CheckpointInfo, Watchpoint, WatchHit,
}
use mirrorscope.Replay.Session.{is_some, last_seq}

-- Where a jump starts: a checkpoint, or the process entry.
pub record StartPoint : Type 0 where
  pub index : Option ℕ
  pub seq : ℕ

abbrev seq_at : List CheckpointInfo → ℕ → ℕ
seq_at cps i = elim (get_elem? cps i) [ none ↦ 0 | some cp ↦ cp.seq ]

module _ {K : Type 0} where
  unfoldable pub plan_start : Session K → ℕ → StartPoint
  unfolding nearest_at_or_before
  plan_start s target = elim (nearest_at_or_before (map (λ cp. cp.seq) s.checkpoints) target) [
    | none ↦ record { index = none; seq = 0 }
    | some index ↦ record { index = some index; seq = seq_at s.checkpoints index }
  ]

  -- The whole followed thread set, or the leader alone.
  unfoldable pub live_threads : Session K → List ℕ
  live_threads s = elim s.mt [ none ↦ s.pid ∷ [] | some mt ↦ keys mt.threads ]

module _ {K : Type 0} (os : Os K) where
  unfoldable pub maybe_checkpoint : Session K → Result ReplayError (Session K)
  unfolding is_checkpoint_due
  maybe_checkpoint s = if s.multithreaded || is_some s.pending then ok s else elim s.current_seq [
    | none ↦ ok s
    | some seq ↦
        if is_checkpoint_due (last_seq s.checkpoints) seq s.checkpoint_interval
        then (do
          (snapshot, k) ← ok_or (os.fork_snapshot s.pid s.os) ptrace
          let cp : CheckpointInfo = record {
            seq = seq;
            cursor = s.cursor;
            current_seq = s.current_seq;
            last_regs = s.last_regs;
            snapshot = snapshot;
          } in
              ok (record s { os = k; checkpoints = s.checkpoints ++ cp ∷ [] }))
        else ok s
  ]

  unfoldable pub rearm_watchpoint : Session K → Result ReplayError (Session K)
  rearm_watchpoint s = elim s.watchpoint [
    | none ↦ ok s
    | some wp ↦ (do k ← ok_or (os.arm s.pid wp s.os) ptrace; ok (record s { os = k }))
  ]

  unfoldable pub kill_active : Session K → Session K
  kill_active s = if is_some s.finished then s else record s { os = os.kill s.pid s.os }

  -- An index out of range panics in the code; `plan_start` gives none.
  unfoldable pub restore_to_checkpoint : ℕ → Session K → Result ReplayError (Session K)
  unfolding kill_active rearm_watchpoint
  restore_to_checkpoint index s = do
    cp ← ok_or (get_elem? s.checkpoints index) ptrace
    (fresh, k) ← ok_or (os.fork_snapshot cp.snapshot s.os) ptrace
    let s1 = kill_active (record s { os = k }) in
        rearm_watchpoint (record s1 {
          pid = fresh;
          cursor = cp.cursor;
          current_seq = cp.current_seq;
          last_regs = cp.last_regs;
          pending = none;
          resume_signal = none;
          finished = none;
          mt = none;
        })

  unfoldable pub respawn : Session K → Result ReplayError (Session K)
  unfolding kill_active rearm_watchpoint
  respawn s =
      let s1 = kill_active s in
      (do
        (pid, k) ← ok_or (os.spawn_traced s1.os) ptrace
        rearm_watchpoint (record s1 {
          os = k;
          pid = pid;
          cursor = 0;
          current_seq = none;
          pending = none;
          resume_signal = none;
          last_regs = none;
          finished = none;
          mt = none;
        }))

  abbrev seat : Option ℕ → Session K → Result ReplayError (Session K)
  seat none s = respawn s
  seat (some index) s = restore_to_checkpoint index s

  unfoldable pub restore_to : ℕ → Session K → Result ReplayError (Session K)
  unfolding plan_start respawn restore_to_checkpoint
  restore_to seq s = seat (plan_start s seq).index s

  -- `run_to` up to `drive`.
  unfoldable pub jump_to : ℕ → Session K → Result ReplayError (Session K)
  unfolding plan_start respawn restore_to_checkpoint should_restart
  jump_to seq s =
      let start = plan_start s seq in
      if should_restart s.current_seq start.seq seq then seat start.index s else ok s

  -- The fallible loop over the live threads.
  abbrev pub each : (ℕ → K → Option K) → List ℕ → K → Option K
  each f [] k = some k
  each f (p ∷ ps) k = elim (f p k) [ none ↦ none | some k ↦ each f ps k ]

  unfoldable pub watch : ℕ → ℕ → WatchKind → Session K → Result ReplayError (Session K)
  unfolding validate live_threads
  watch addr len kind s = do
    elim (validate addr len) [ ok u ↦ ok u | err e ↦ err (watchpoint_request e) ]
    let wp : Watchpoint = record { addr = addr; len = len; kind = kind } in
        (do
          k ← ok_or (each (λ p. os.arm p wp) (live_threads s) s.os) ptrace
          value ← ok_or (os.read_memory s.pid addr len k) ptrace
          ok (record s { os = k; last_value = some value; watchpoint = some wp }))

  unfoldable pub clear_watch : Session K → Result ReplayError (Session K)
  unfolding live_threads
  clear_watch s =
      let s1 = record s { watchpoint = none; last_value = none } in
      if is_some s.watchpoint && not (is_some s.finished)
      then (do k ← ok_or (each os.disarm (live_threads s) s.os) ptrace; ok (record s1 { os = k }))
      else ok s1

  unfoldable pub is_watch_hit : ℕ → Session K → Result ReplayError Bool
  is_watch_hit pid s = if is_some s.watchpoint then ok_or (os.is_hit pid s.os) ptrace else ok false

  unfoldable pub on_watch_hit : ℕ → Session K → Result ReplayError (Session K)
  on_watch_hit pid s = elim s.watchpoint [
    | none ↦ ok s
    | some wp ↦ (do
      (pc, frames) ← ok_or (os.backtrace pid s.os) ptrace
      k ← ok_or (os.step_over pid s.os) ptrace
      new_value ← ok_or (os.read_memory pid wp.addr wp.len k) ptrace
      let hit : WatchHit = record {
        seq = s.current_seq;
        pc = pc;
        old_value = s.last_value;
        new_value = new_value;
        backtrace = frames;
      } in
          ok (record s {
            os = k;
            last_value = some new_value;
            watch_hits = s.watch_hits ++ hit ∷ [];
          }))
  ]
