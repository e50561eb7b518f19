-- ===== src/Decoder/AsyncRust/State.antt =====
-- crates/decoder/src/async_rust/state.rs: the state of a task and what it waits for.
use mirrorscope.Prelude.{
  ℕ, ◌/◌, ◌^◌, if◌then◌else◌, Bool, true, false, ◌||◌, none, some, List, [], ◌∷◌,
}
use mirrorscope.Prelude.Bytes.{Bytes}
use mirrorscope.Prelude.Bits.{bit}
use mirrorscope.Prelude.Text.{codes, strip_prefix}
use mirrorscope.Decoder.TaskTree as Model
use mirrorscope.Decoder.TaskTree.{BlockReason, TaskState}
use mirrorscope.Decoder.Frame as Frame
use mirrorscope.Decoder.Frame.{SuspendKind, WakeCause}
use mirrorscope.Decoder.AsyncRust.Layout.{
  VariantKind, unresumed, returned, panicked, suspend, before, last_component,
}

-- Of the header word of tokio: bit 0 running, 1 complete, 2 notified, 5 cancelled, and from bit 6
-- on the count of references.
unfoldable pub classify_header_state : ℕ → TaskState
classify_header_state state =
    if bit state 1 || bit state 5
    then Model.completed
    else if bit state 0
    then Model.running
    else if bit state 2
    then Model.runnable
    else Model.blocked Model.unknown

unfoldable pub ref_count : ℕ → ℕ
ref_count state = state / 2 ^ 6

unfoldable pub state_from_variant : VariantKind → TaskState
state_from_variant unresumed = Model.runnable
state_from_variant returned = Model.completed
state_from_variant panicked = Model.completed
state_from_variant (suspend n) = Model.blocked Model.unknown

pub record LeafClass : Type 0 where
  pub suspend : SuspendKind
  pub wake : WakeCause
  pub block : BlockReason

-- `str::contains`
unfoldable pub contains_text : Bytes → Bytes → Bool
contains_text needle [] = elim (strip_prefix needle []) [ none ↦ false | some rest ↦ true ]
contains_text needle (c ∷ cs) =
    let later = contains_text needle cs in
    elim (strip_prefix needle (c ∷ cs)) [ none ↦ later | some rest ↦ true ]

unfoldable pub contains_any : Bytes → List Bytes → Bool
unfolding contains_text
contains_any haystack [] = false
contains_any haystack (n ∷ ns) =
    let rest = contains_any haystack ns in if contains_text n haystack then true else rest

-- The last component of a path, without generic arguments.
unfoldable pub short_type : Bytes → Bytes
unfolding before last_component
short_type type_name = last_component (before (codes "<") type_name)

abbrev timer_names : List Bytes
timer_names = codes "time::sleep::Sleep" ∷ codes "time::Sleep" ∷ codes "Timeout" ∷ []

abbrev channel_names : List Bytes
channel_names =
    codes "Recv"
    ∷ codes "channel"
    ∷ codes "mpsc"
    ∷ codes "oneshot"
    ∷ codes "broadcast"
    ∷ codes "watch"
    ∷ []

abbrev lock_names : List Bytes
lock_names = codes "Mutex" ∷ codes "RwLock" ∷ codes "Semaphore" ∷ codes "Barrier" ∷ []

abbrev io_names : List Bytes
io_names =
    codes "TcpStream" ∷ codes "net::" ∷ codes "io::" ∷ codes "AsyncFd" ∷ codes "poll_read" ∷ []

unfoldable pub classify_leaf : Bytes → LeafClass
unfolding contains_any short_type
classify_leaf type_name =
    let detail = some (short_type type_name) in
    if contains_any type_name timer_names
    then record { suspend = Frame.timer; wake = Frame.timer; block = Model.timer }
    else if contains_any type_name channel_names
    then record {
      suspend = Frame.channel_recv;
      wake = Frame.channel detail;
      block = Model.channel detail;
    }
    else if contains_any type_name lock_names
    then record { suspend = Frame.lock; wake = Frame.manual; block = Model.lock detail }
    else if contains_any type_name io_names
    then record {
      suspend = Frame.io;
      wake = Frame.io (record { fd = none; description = detail });
      block = Model.io detail;
    }
    else record { suspend = Frame.other; wake = Frame.unknown; block = Model.unknown }
