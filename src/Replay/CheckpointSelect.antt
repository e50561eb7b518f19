-- ===== src/Replay/CheckpointSelect.antt =====
-- crates/replay/src/checkpoint_select.rs: when a checkpoint is due, and which one to restore.
mod Nearest
unfoldable pub use Nearest.*
use mirrorscope.Prelude.{
  ℕ, ◌+◌, ◌-◌, ◌^◌, ◌==◌, ltb, leb, ◌||◌, if◌then◌else◌, Bool, false, Option, none, some, ◌≡◌, ◌≤◌,
  ◌<◌, arith, true,
}

-- `a.saturating_add(b)` on `u64`.
abbrev pub saturating_add : ℕ → ℕ → ℕ
saturating_add a b = if ltb (a + b) (2 ^ 64) then a + b else 2 ^ 64 - 1

unfoldable pub is_checkpoint_due : Option ℕ → ℕ → ℕ → Bool
is_checkpoint_due last current interval = if interval == 0 then false else elim last [
  | none ↦ leb interval current
  | some last ↦ leb (saturating_add last interval) current
]

unfoldable pub should_restart : Option ℕ → ℕ → ℕ → Bool
should_restart none start_seq target = ltb 0 start_seq
should_restart (some current) start_seq target = ltb target current || ltb current start_seq
