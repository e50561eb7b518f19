-- ===== src/Decoder/Go/Status.antt =====
-- crates/decoder/src/go/status.rs: the status and wait reason of a goroutine, and what they are in
-- the model of tasks.
use mirrorscope.Prelude.{
  ℕ, ◌-◌, ◌==◌, if◌then◌else◌, Bool, true, false, ◌||◌, none, some, List, [], ◌∷◌, get_elem?,
}
use mirrorscope.Prelude.Bytes.{Bytes}
use mirrorscope.Prelude.Bits.{bit}
use mirrorscope.Prelude.Text.{codes}
use mirrorscope.Decoder.TaskTree as Model
use mirrorscope.Decoder.TaskTree.{BlockReason, TaskState}
use mirrorscope.Decoder.Frame
use mirrorscope.Decoder.Frame.{WakeCause}

pub data GoStatus : Type 0 where
  idle runnable running syscall waiting dead copystack preempted : GoStatus
  other : (raw : ℕ) → GoStatus

-- `raw & !G_SCAN`, with `G_SCAN` bit 12.
unfoldable pub clear_scan : ℕ → ℕ
clear_scan raw = if bit raw 12 then raw - 0x1000 else raw

unfoldable pub status_of : ℕ → GoStatus
status_of raw =
    if raw == 0
    then idle
    else if raw == 1
    then runnable
    else if raw == 2
    then running
    else if raw == 3
    then syscall
    else if raw == 4
    then waiting
    else if raw == 6
    then dead
    else if raw == 8
    then copystack
    else if raw == 9
    then preempted
    else other raw

unfoldable pub from_raw : ℕ → GoStatus
unfolding clear_scan status_of
from_raw raw = status_of (clear_scan raw)

unfoldable pub is_dead : GoStatus → Bool
is_dead dead = true
is_dead (other raw) = raw == 5 || raw == 7
is_dead _ = false

unfoldable pub wait_reason_strings : List Bytes
wait_reason_strings =
    []
    ∷ codes "GC assist marking"
    ∷ codes "IO wait"
    ∷ codes "chan receive (nil chan)"
    ∷ codes "chan send (nil chan)"
    ∷ codes "dumping heap"
    ∷ codes "garbage collection"
    ∷ codes "garbage collection scan"
    ∷ codes "panicwait"
    ∷ codes "select"
    ∷ codes "select (no cases)"
    ∷ codes "GC assist wait"
    ∷ codes "GC sweep wait"
    ∷ codes "GC scavenge wait"
    ∷ codes "chan receive"
    ∷ codes "chan send"
    ∷ codes "finalizer wait"
    ∷ codes "force gc (idle)"
    ∷ codes "semacquire"
    ∷ codes "sleep"
    ∷ codes "sync.Cond.Wait"
    ∷ codes "sync.Mutex.Lock"
    ∷ codes "sync.RWMutex.RLock"
    ∷ codes "sync.RWMutex.Lock"
    ∷ codes "sync.WaitGroup.Wait"
    ∷ codes "trace reader (blocked)"
    ∷ codes "wait for GC cycle"
    ∷ codes "GC worker (idle)"
    ∷ codes "GC worker (active)"
    ∷ codes "preempted"
    ∷ codes "debug call"
    ∷ codes "GC mark termination"
    ∷ codes "stopping the world"
    ∷ codes "flushing proc caches"
    ∷ codes "trace goroutine status"
    ∷ codes "trace proc status"
    ∷ codes "page trace flush"
    ∷ codes "coroutine"
    ∷ codes "GC weak to strong wait"
    ∷ codes "synctest.Run"
    ∷ codes "synctest.Wait"
    ∷ codes "chan receive (synctest)"
    ∷ codes "chan send (synctest)"
    ∷ codes "select (synctest)"
    ∷ []

unfoldable pub wait_reason_str : ℕ → Bytes
unfolding wait_reason_strings
wait_reason_str wait_reason = elim (get_elem? wait_reason_strings wait_reason) [
  | none ↦ codes "?"
  | some text ↦ text
]

abbrev pub one_of : List ℕ → ℕ → Bool
one_of [] w = false
one_of (k ∷ ks) w = let rest = one_of ks w in if w == k then true else rest

-- The pattern that both functions below have for a wait on a channel.
unfoldable pub on_channel : ℕ → Bool
on_channel w = one_of (3 ∷ 4 ∷ 9 ∷ 10 ∷ 14 ∷ 15 ∷ 41 ∷ 42 ∷ 43 ∷ []) w

unfoldable pub block_reason : ℕ → BlockReason
unfolding on_channel
block_reason w =
    let detail = some (wait_reason_str w) in
    if on_channel w
    then Model.channel detail
    else if w == 2
    then Model.io detail
    else if one_of (18 ∷ 20 ∷ 21 ∷ 22 ∷ 23 ∷ []) w
    then Model.lock detail
    else if w == 24
    then Model.join none
    else if w == 19
    then Model.timer
    else Model.unknown

unfoldable pub wake_cause : ℕ → WakeCause
unfolding on_channel
wake_cause w =
    if on_channel w
    then Frame.channel (some (wait_reason_str w))
    else if w == 2
    then Frame.io (record { fd = none; description = some (wait_reason_str w) })
    else if w == 19
    then Frame.timer
    else if one_of (18 ∷ 20 ∷ 21 ∷ 22 ∷ 23 ∷ 24 ∷ []) w
    then Frame.manual
    else Frame.unknown

unfoldable pub to_task_state : GoStatus → ℕ → TaskState
unfolding block_reason
to_task_state running w = Model.running
to_task_state syscall w = Model.running
to_task_state runnable w = Model.runnable
to_task_state copystack w = Model.runnable
to_task_state preempted w = Model.runnable
to_task_state idle w = Model.runnable
to_task_state waiting w = Model.blocked (block_reason w)
to_task_state dead w = Model.completed
to_task_state (other raw) w = Model.completed
