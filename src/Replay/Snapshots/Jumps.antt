-- ===== src/Replay/Snapshots/Jumps.antt =====
-- Where `run_to` and `restore_to` of crates/replay/src/session.rs seat the session.
use mirrorscope.Prelude.{
  ℕ, zero, suc, ◌≡◌, ◌≤◌, refl, sym, ◌∙◌, subst, arith, Bool-cases, inl, inr, false, Option, none,
  some, List, [], ◌∷◌, get_elem?, map, ok, All,
}
use mirrorscope.Replay.CheckpointSelect.{
  nearest_at_or_before, nearest_at_or_before_lem, IsNearestAt, should_restart,
}
use mirrorscope.Replay.State.{Session, Os, CheckpointInfo}
use mirrorscope.Replay.Snapshots.{
  plan_start, jump_to, respawn, restore_to_checkpoint, rearm_watchpoint, kill_active,
}

-- A checkpoint was taken at its own sequence number.
abbrev pub IsStamped : CheckpointInfo → Type 0
IsStamped cp = cp.current_seq ≡ some cp.seq

-- The session has not passed the number.
abbrev pub NotPast : ℕ → Option ℕ → Type 0
NotPast target none = Unit
NotPast target (some current) = current ≤ target

module _ {K : Type 0} (os : Os K) where
  rearm_keeps :
      (s s' : Session K)
      → rearm_watchpoint os s ≡ ok s'
      → (s'.current_seq ≡ s.current_seq)
        × (s'.cursor ≡ s.cursor)
        × (s'.checkpoints ≡ s.checkpoints)
        × (s'.records ≡ s.records)
        × (s'.finished ≡ s.finished)
        × (s'.pending ≡ s.pending)
        × (s'.last_regs ≡ s.last_regs)
  unfolding rearm_watchpoint
  rearm_keeps s s' h = ground arith

  pub respawn_lem :
      (s s' : Session K)
      → respawn os s ≡ ok s'
      → (s'.current_seq ≡ none)
        × (s'.cursor ≡ 0)
        × (s'.checkpoints ≡ s.checkpoints)
        × (s'.records ≡ s.records)
        × (s'.finished ≡ none)
        × (s'.pending ≡ none)
        × (s'.last_regs ≡ none)
  unfolding respawn rearm_watchpoint kill_active
  respawn_lem s s' h = ground arith

  pub restore_lem :
      (index : ℕ) (s s' : Session K) (cp : CheckpointInfo)
      → get_elem? s.checkpoints index ≡ some cp
      → restore_to_checkpoint os index s ≡ ok s'
      → (s'.current_seq ≡ cp.current_seq)
        × (s'.cursor ≡ cp.cursor)
        × (s'.checkpoints ≡ s.checkpoints)
        × (s'.records ≡ s.records)
        × (s'.finished ≡ none)
        × (s'.pending ≡ none)
        × (s'.last_regs ≡ cp.last_regs)
  unfolding restore_to_checkpoint rearm_watchpoint kill_active
  restore_lem index s s' cp found h = ground arith

  -- The seat of the session after a jump: where it stood, at the entry, or at a checkpoint that
  -- lies at or before the target.
  pub data Seat (seq : ℕ) (s s' : Session K) : Type 0 where
    stayed : s ≡ s' → Seat seq s s'
    at_entry :
        s'.current_seq ≡ none
        → s'.cursor ≡ 0
        → s'.pending ≡ none
        → s'.finished ≡ none
        → Seat seq s s'
    at_checkpoint :
        (index : ℕ) (cp : CheckpointInfo)
        → get_elem? s.checkpoints index ≡ some cp
        → cp.seq ≤ seq
        → s'.current_seq ≡ cp.current_seq
        → s'.cursor ≡ cp.cursor
        → s'.pending ≡ none
        → s'.finished ≡ none
        → Seat seq s s'

  get_elem-map :
      (cps : List CheckpointInfo) (i n : ℕ)
      → get_elem? (map (λ cp. cp.seq) cps) i ≡ some n
      → (cp : CheckpointInfo) × (get_elem? cps i ≡ some cp) × (cp.seq ≡ n)
  get_elem-map [] i n h = ground arith
  get_elem-map (cp ∷ cps) zero n h = (cp, refl, ground arith)
  get_elem-map (cp ∷ cps) (suc i) n h = get_elem-map cps i n h

  IsStamped-at :
      (cps : List CheckpointInfo) (i : ℕ) (cp : CheckpointInfo)
      → All IsStamped cps
      → get_elem? cps i ≡ some cp
      → IsStamped cp
  IsStamped-at [] i cp a h = ground arith
  IsStamped-at (c ∷ cps) zero cp a h = let same : c ≡ cp = ground arith in subst IsStamped same a.0
  IsStamped-at (c ∷ cps) (suc i) cp a h = IsStamped-at cps i cp a.1 h

  plan_none :
      (s : Session K) (seq : ℕ)
      → nearest_at_or_before (map (λ cp. cp.seq) s.checkpoints) seq ≡ none
      → plan_start s seq ≡ record { index = none; seq = 0 }
  unfolding plan_start
  plan_none s seq h = ground arith

  plan_some :
      (s : Session K) (seq index : ℕ) (cp : CheckpointInfo)
      → nearest_at_or_before (map (λ cp. cp.seq) s.checkpoints) seq ≡ some index
      → get_elem? s.checkpoints index ≡ some cp
      → plan_start s seq ≡ record { index = some index; seq = cp.seq }
  unfolding plan_start
  plan_some s seq index cp h found = ground arith

  -- What a jump toward `seq` reaches, from a session whose checkpoints are stamped.
  pub record Jumped (seq : ℕ) (s s' : Session K) : Type 0 where
    pub not_past : NotPast seq s'.current_seq
    pub same_checkpoints : s'.checkpoints ≡ s.checkpoints
    pub same_records : s'.records ≡ s.records
    pub seat : Seat seq s s'

  jump_stays :
      (seq start : ℕ) (s : Session K)
      → should_restart s.current_seq start seq ≡ false
      → Jumped seq s s
  unfolding should_restart
  jump_stays seq start s stays = record {
    not_past =
        elim s.current_seq as (λ c. should_restart c start seq ≡ false → NotPast seq c) [
          | none ↦ λ e. tt
          | some c ↦ λ e. ground arith
        ]
          stays;
    same_checkpoints = refl;
    same_records = refl;
    seat = stayed refl;
  }

  jump_entry :
      (seq : ℕ) (s s' : Session K)
      → plan_start s seq ≡ record { index = none; seq = 0 }
      → jump_to os seq s ≡ ok s'
      → Jumped seq s s'
  unfolding jump_to should_restart
  jump_entry seq s s' p h = elim (Bool-cases (should_restart s.current_seq 0 seq)) [
    | inl restart ↦
        let r = respawn_lem s s' (ground arith) in
        record {
          not_past = subst (NotPast seq) (sym r.0) tt;
          same_checkpoints = r.2;
          same_records = r.3;
          seat = at_entry r.0 r.1 r.5 r.4;
        }
    | inr stays ↦
        let same : s ≡ s' = ground arith in subst (Jumped seq s) same (jump_stays seq 0 s stays)
  ]

  jump_restore :
      (seq index : ℕ) (cp : CheckpointInfo) (s s' : Session K)
      → plan_start s seq ≡ record { index = some index; seq = cp.seq }
      → get_elem? s.checkpoints index ≡ some cp
      → IsStamped cp
      → cp.seq ≤ seq
      → jump_to os seq s ≡ ok s'
      → Jumped seq s s'
  unfolding jump_to should_restart
  jump_restore seq index cp s s' p found stamped before h =
      elim (Bool-cases (should_restart s.current_seq cp.seq seq)) [
        | inl restart ↦
            let r = restore_lem index s s' cp found (ground arith) in
            record {
              not_past = subst (NotPast seq) (sym (r.0 ∙ stamped)) before;
              same_checkpoints = r.2;
              same_records = r.3;
              seat = at_checkpoint index cp found before r.0 r.1 r.5 r.4;
            }
        | inr stays ↦
            let same : s ≡ s' = ground arith in
            subst (Jumped seq s) same (jump_stays seq cp.seq s stays)
      ]

  -- `run_to`, before it drives: from a session whose checkpoints carry their own sequence number,
  -- a jump that succeeds keeps the records and the checkpoints, and never leaves the session past
  -- the target. It leaves the session as it was, or seats it at the entry, or at a checkpoint that
  -- lies at or before the target, with the cursor of that place, nothing pending and not finished.
  pub jump_to_lem :
      (seq : ℕ) (s s' : Session K)
      → All IsStamped s.checkpoints
      → jump_to os seq s ≡ ok s'
      → Jumped seq s s'
  jump_to_lem seq s s' stamped h =
      go (nearest_at_or_before (map (λ cp. cp.seq) s.checkpoints) seq) refl
        (nearest_at_or_before_lem (map (λ cp. cp.seq) s.checkpoints) seq)
    where
      go :
          (r : Option ℕ)
          → nearest_at_or_before (map (λ cp. cp.seq) s.checkpoints) seq ≡ r
          → IsNearestAt (map (λ cp. cp.seq) s.checkpoints) seq r
          → Jumped seq s s'
      go none e n = jump_entry seq s s' (plan_none s seq e) h
      go (some index) e (n, at, le, later) =
          let (cp, found, same) = get_elem-map s.checkpoints index n at in
          jump_restore seq index cp s s' (plan_some s seq index cp e found) found
            (IsStamped-at s.checkpoints index cp stamped found) (omega (arith, same, le)) h
