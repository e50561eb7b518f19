-- ===== src/Replay/TidMap/Laws.antt =====
-- The two directions of a `TidMap` (crates/replay/src/schedule.rs) under its operations.
use mirrorscope.Prelude.{
  ℕ, ==-refl, ==-ne, Bool-cases, Option-cases, inl, inr, ◌≡◌, ◌≢◌, refl, sym, arith, ◌==◌,
  if◌then◌else◌, none, some, Result, ok, err,
}
use mirrorscope.Prelude.Maps.{lookup, insert, remove, lookup-insert, lookup-remove}
use mirrorscope.Replay.TidMap.{
  TidMap, TidMapError, new, recorded_rebound, live_rebound, bind, live_of, unbind_recorded,
}

-- Each direction undoes the other.
pub record IsBijective (m : TidMap) : Type 0 where
  pub forth : (r l : ℕ) → lookup r m.to_live ≡ some l → lookup l m.to_recorded ≡ some r
  pub back : (l r : ℕ) → lookup l m.to_recorded ≡ some r → lookup r m.to_live ≡ some l

-- What `bind` answers in each case, and what it changes.
abbrev pub BindResult : TidMap → ℕ → ℕ → Result TidMapError TidMap → Type 0
BindResult m recorded live (ok m') =
    IsBijective m' × ((r : ℕ) → live_of m' r ≡ (if recorded == r then some live else live_of m r))
BindResult m recorded live (err (recorded_rebound r existing attempted)) =
    (live_of m recorded ≡ some existing) × (existing ≢ live) × (r ≡ recorded) × (attempted ≡ live)
BindResult m recorded live (err (live_rebound l existing attempted)) =
    (live_of m existing ≡ some live) × (existing ≢ recorded) × (l ≡ live) × (attempted ≡ recorded)

-- Binding a pair that conflicts with no binding.
bind_compatible :
    (m : TidMap) (recorded live : ℕ)
    → IsBijective m
    → ((l : ℕ) → lookup recorded m.to_live ≡ some l → l ≡ live)
    → ((r : ℕ) → lookup live m.to_recorded ≡ some r → r ≡ recorded)
    → IsBijective (record {
      to_live = insert recorded live m.to_live;
      to_recorded = insert live recorded m.to_recorded;
    })
bind_compatible m recorded live b same_live same_recorded = record {
  forth = λ r l h. ground (
    arith,
    lookup-insert recorded r live m.to_live,
    lookup-insert live l recorded m.to_recorded,
    b.forth r l,
    same_recorded r,
  );
  back = λ l r h. ground (
    arith,
    lookup-insert recorded r live m.to_live,
    lookup-insert live l recorded m.to_recorded,
    b.back l r,
    same_live l,
  );
}

-- `bind` on a map whose directions are inverse: it adds the pair and keeps them inverse, every
-- other thread's binding included; it refuses a recorded id that is bound to another live pid, and
-- a live pid that is bound to another recorded id, and names the binding in the way.
pub bind_result :
    (m : TidMap) (recorded live : ℕ)
    → IsBijective m
    → BindResult m recorded live (bind m recorded live)
unfolding bind live_of
bind_result m recorded live b = elim (Option-cases (lookup recorded m.to_live)) [
  | inl free ↦ elim (Option-cases (lookup live m.to_recorded)) [
    | inl idle ↦
        rw (free, idle)
          (
            bind_compatible m recorded live b (λ l h. ground arith) (λ r h. ground arith),
            λ r. lookup-insert recorded r live m.to_live,
          )
    | inr (r, taken) ↦
        let other : r ≢ recorded = λ p. ground (arith, b.back live r taken) in
        rw (free, taken, ==-ne r recorded other) (b.back live r taken, other, refl, refl)
  ]
  | inr (l, bound) ↦ elim (Bool-cases (l == live)) [
    | inl same ↦
        let mine : lookup live m.to_recorded ≡ some recorded =
          ground (arith, b.forth recorded l bound) in
        rw (bound, same, mine, ==-refl recorded)
          (
            bind_compatible m recorded live b (λ l' h. ground arith) (λ r h. ground arith),
            λ r. lookup-insert recorded r live m.to_live,
          )
    | inr differs ↦ rw (bound, differs) (bound, λ p. ground arith, refl, refl)
  ]
]

unbind_free :
    (m : TidMap) (recorded : ℕ)
    → lookup recorded m.to_live ≡ none
    → unbind_recorded m recorded ≡ (record m { to_live = remove recorded m.to_live }, none)
unfolding unbind_recorded
unbind_free m recorded free = ground arith

unbind_bound :
    (m : TidMap) (recorded live : ℕ)
    → lookup recorded m.to_live ≡ some live
    → unbind_recorded m recorded ≡ (
      record { to_live = remove recorded m.to_live; to_recorded = remove live m.to_recorded },
      some live,
    )
unfolding unbind_recorded
unbind_bound m recorded live bound = ground arith

-- After `unbind_recorded` the map is still inverse both ways, the id is unbound, every other id
-- keeps its binding, and the answer is the live pid that the id was bound to.
pub unbind_result :
    (m : TidMap) (recorded : ℕ)
    → IsBijective m
    → IsBijective (unbind_recorded m recorded).0
      × ((r : ℕ)
          → live_of (unbind_recorded m recorded).0 r
            ≡ (if recorded == r then none else live_of m r))
      × ((unbind_recorded m recorded).1 ≡ live_of m recorded)
unfolding live_of
unbind_result m recorded b = elim (Option-cases (lookup recorded m.to_live)) [
  | inl free ↦ rw (unbind_free m recorded free) (
    record {
      forth = λ r l h. ground (arith, lookup-remove recorded r m.to_live, b.forth r l);
      back = λ l r h. ground (arith, lookup-remove recorded r m.to_live, b.back l r h);
    },
    λ r. lookup-remove recorded r m.to_live,
    sym free,
  )
  | inr (live, bound) ↦ rw (unbind_bound m recorded live bound) (
    record {
      forth = λ r l h. ground (
        arith,
        lookup-remove recorded r m.to_live,
        lookup-remove live l m.to_recorded,
        b.forth r l,
        b.forth recorded live bound,
      );
      back = λ l r h. ground (
        arith,
        lookup-remove recorded r m.to_live,
        lookup-remove live l m.to_recorded,
        b.back l r,
        b.forth recorded live bound,
      );
    },
    λ r. lookup-remove recorded r m.to_live,
    sym bound,
  )
]

pub IsBijective-new : IsBijective new
unfolding lookup
IsBijective-new = record { forth = λ r l h. cc; back = λ l r h. cc }
