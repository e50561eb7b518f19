-- ===== src/Decoder/Frame.antt =====
-- crates/decoder/src/model/frame.rs and wake.rs, and the view of a stopped process that
-- crates/decoder/src/process_view.rs declares.
use mirrorscope.Prelude.{ℕ, ◌++◌, List, Option, none, some, Result}
use mirrorscope.Prelude.Ints.{ℤ}
use mirrorscope.Prelude.Bytes.{Bytes}
use mirrorscope.Prelude.Text.{codes, hex}
use mirrorscope.Decoder.TaskTree.{DecoderError}

pub record SourceLocation : Type 0 where
  pub path : Bytes
  pub line : ℕ
  pub column : ℕ

pub data SuspendKind : Type 0 where
  channel_recv channel_send timer io join select lock other : SuspendKind

pub record SuspendPoint : Type 0 where
  pub kind : SuspendKind
  pub detail : Option Bytes

pub data FrameOrigin : Type 0 where
  physical synthesized : FrameOrigin

pub record LogicalFrame : Type 0 where
  pub display_name : Bytes
  pub location : Option SourceLocation
  pub suspend : Option SuspendPoint
  pub origin : FrameOrigin

pub record PhysicalFrame : Type 0 where
  pub pc : ℕ
  pub sp : ℕ
  pub function_name : Option Bytes
  pub location : Option SourceLocation

pub record Registers : Type 0 where
  pub pc : ℕ
  pub sp : ℕ

-- The methods of the trait that the decoders call.
pub record ProcessView : Type 0 where
  pub thread_ids : List ℕ
  pub registers : (thread : ℕ) → Result DecoderError Registers
  pub read_memory : (addr len : ℕ) → Result DecoderError Bytes
  pub physical_frames : (thread : ℕ) → Result DecoderError (List PhysicalFrame)
  pub thread_pointer : (thread : ℕ) → Result DecoderError (Option ℕ)
  pub executable_base : Option ℕ

-- `LogicalFrame::from_physical`
unfoldable pub from_physical : PhysicalFrame → LogicalFrame
from_physical frame = record {
  display_name = elim frame.function_name [ none ↦ codes "0x" ++ hex frame.pc | some name ↦ name ];
  location = frame.location;
  suspend = none;
  origin = physical;
}

unfoldable pub suspend_phrase : SuspendKind → Bytes
suspend_phrase channel_recv = codes "recv on channel"
suspend_phrase channel_send = codes "send on channel"
suspend_phrase timer = codes "timer"
suspend_phrase io = codes "I/O"
suspend_phrase join = codes "join"
suspend_phrase select = codes "select"
suspend_phrase lock = codes "lock"
suspend_phrase other = codes "unknown suspend point"

unfoldable pub describe_suspend : LogicalFrame → Option Bytes
unfolding suspend_phrase
describe_suspend frame = elim frame.suspend [
  | none ↦ none
  | some suspend ↦ elim suspend.detail [
    | some detail ↦ some (codes "awaiting: " ++ suspend_phrase suspend.kind ++ codes " " ++ detail)
    | none ↦ some (codes "awaiting: " ++ suspend_phrase suspend.kind)
  ]
]

pub record IoWakeDetail : Type 0 where
  pub fd : Option ℤ
  pub description : Option Bytes

pub data WakeCause : Type 0 where
  timer manual unknown : WakeCause
  io : (detail : IoWakeDetail) → WakeCause
  channel : (detail : Option Bytes) → WakeCause

pub record Variable : Type 0 where
  pub name : Bytes
  pub value : Bytes
  pub type_hint : Option Bytes
