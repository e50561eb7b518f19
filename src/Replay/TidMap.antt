-- ===== src/Replay/TidMap.antt =====
-- `TidMap` of crates/replay/src/schedule.rs: recorded thread ids and live pids, both ways.
pub mod Laws
use mirrorscope.Prelude.{
  ℕ, ◌==◌, not, if◌then◌else◌, Bool, true, false, Option, none, some, List, [], ◌∷◌, Result, ok,
  err, ◌>>=◌, ◌>>◌, guard,
}
use mirrorscope.Prelude.Maps.{Map, lookup, insert, remove}

pub data TidMapError : Type 0 where
  recorded_rebound : (recorded existing attempted : ℕ) → TidMapError
  live_rebound : (live existing attempted : ℕ) → TidMapError

pub record TidMap : Type 0 where
  pub to_live : Map ℕ
  pub to_recorded : Map ℕ

abbrev pub new : TidMap
new = record { to_live = []; to_recorded = [] }

-- `if let Some(existing) = m.get(key) { if existing != value { return Err(…) } }`
abbrev check_bound : Option ℕ → ℕ → (ℕ → TidMapError) → Result TidMapError (Unit {0})
check_bound none value e = ok tt
check_bound (some existing) value e = if existing == value then ok tt else err (e existing)

unfoldable pub bind : TidMap → ℕ → ℕ → Result TidMapError TidMap
bind m recorded live = do
  check_bound (lookup recorded m.to_live) live (λ existing. recorded_rebound recorded existing live)
  check_bound (lookup live m.to_recorded) recorded (λ existing. live_rebound live existing recorded)
  ok (record {
    to_live = insert recorded live m.to_live;
    to_recorded = insert live recorded m.to_recorded;
  })

unfoldable pub live_of : TidMap → ℕ → Option ℕ
live_of m recorded = lookup recorded m.to_live

-- The new map, and the live pid that was bound.
unfoldable pub unbind_recorded : TidMap → ℕ → TidMap × Option ℕ
unbind_recorded m recorded = elim (lookup recorded m.to_live) [
  | none ↦ (record m { to_live = remove recorded m.to_live }, none)
  | some live ↦ (
    record { to_live = remove recorded m.to_live; to_recorded = remove live m.to_recorded },
    some live,
  )
]

unfoldable pub is_empty : TidMap → Bool
is_empty m = elim m.to_live [ [] ↦ true | _ ↦ false ]
