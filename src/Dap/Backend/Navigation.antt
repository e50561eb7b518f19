-- ===== src/Dap/Backend/Navigation.antt =====
-- The cursor and the session of `ReplayBackend` (crates/dap/src/replay_backend.rs) after a request.
use mirrorscope.Prelude.{
  ℕ, zero, suc, ◌+◌, ◌-◌, ◌≡◌, ◌≢◌, ◌≤◌, ◌<◌, refl, sym, subst, arith, leb, List-cases, ◌∙◌, All,
  Bool-cases, Option-cases, inl, inr, if◌then◌else◌, some, List, [], ◌∷◌, length, get_elem?, ok,
  err, Result-cases,
}
use mirrorscope.Capture.Syscall.{Sys}
use mirrorscope.Replay.State.{Session, Os, ReplayError, ExitOutcome, running}
use mirrorscope.Replay.State
use mirrorscope.Replay.Drive
use mirrorscope.Replay.Drive.Targets.{Reached, run_to-Reached}
use mirrorscope.Replay.Snapshots.Jumps.{IsStamped}
use mirrorscope.Dap.Backend.{
  Backend, out_of_bounds, StopInfo, stopped, Reason, step, not_supported, tracee_pid, ResumeKind,
  continue, reverse_continue, step_back, next, step_in, step_out, goto, run_to_end, resume,
  classify, rposition,
}

get_elem-some :
    {A : Type 0} (xs : List A) (i : ℕ) → i < length xs → (x : A) × (get_elem? xs i ≡ some x)
get_elem-some [] i h = ground arith
get_elem-some (x ∷ xs) zero h = (x, refl)
get_elem-some (x ∷ xs) (suc i) h = get_elem-some xs i (omega (arith, h))

rposition-lt : (xs : List ℕ) (n i : ℕ) → rposition xs n ≡ some i → i < length xs
unfolding rposition
rposition-lt [] n i h = ground arith
rposition-lt (x ∷ xs) n i h = elim (Option-cases (rposition xs n)) [
  | inl none_after ↦ ground arith
  | inr (j, after) ↦ ground (arith, rposition-lt xs n j after)
]

-- The request kept the timeline, and left the cursor at an event or at the end.
pub record Lands {K : Type 0} (b b' : Backend K) : Type 0 where
  pub events : b'.events ≡ b.events
  pub cursor : b'.cursor ≤ length b.events

module _ {K : Type 0} (os : Os K) (sys : Sys) (fuel : ℕ) where
  goto-Lands :
      (reason : Reason) (index : ℕ) (b b' : Backend K) (stop : StopInfo)
      → index ≤ length b.events
      → goto os sys fuel reason index b ≡ ok (stop, b')
      → Lands b b'
  unfolding goto classify
  goto-Lands reason index b b' stop le h = record { events = ground arith; cursor = ground arith }

  end-Lands :
      (b b' : Backend K) (stop : StopInfo) → run_to_end os sys fuel b ≡ ok (stop, b') → Lands b b'
  unfolding run_to_end classify
  end-Lands b b' stop h = record { events = ground arith; cursor = ground arith }

  goto_in_bounds :
      (reason : Reason) (index : ℕ) (b : Backend K)
      → index < length b.events
      → goto os sys fuel reason index b ≢ err out_of_bounds
  unfolding goto
  goto_in_bounds reason index b lt h =
      let (seq, found) = get_elem-some b.events index lt in ground arith

  end_in_bounds : (b : Backend K) → run_to_end os sys fuel b ≢ err out_of_bounds
  unfolding run_to_end
  end_in_bounds b h = ground arith

  -- `forward`, and what the other requests come to.
  data Move (kind : ResumeKind) (b : Backend K) : Type 0 where
    ends : resume os sys fuel kind b ≡ run_to_end os sys fuel b → Move kind b
    goes :
        (index : ℕ)
        → index < length b.events
        → resume os sys fuel kind b ≡ goto os sys fuel step index b
        → Move kind b
    refuses : resume os sys fuel kind b ≡ err not_supported → Move kind b

  forward-Move :
      (kind : ResumeKind) (b : Backend K)
      → resume os sys fuel kind b ≡ (
          if leb (length b.events) (b.cursor + 1)
          then run_to_end os sys fuel b
          else goto os sys fuel step (b.cursor + 1) b)
      → Move kind b
  forward-Move kind b h = elim (Bool-cases (leb (length b.events) (b.cursor + 1))) [
    | inl past ↦ ends (ground arith)
    | inr before ↦ goes (b.cursor + 1) (ground arith) (ground arith)
  ]

  moves : (kind : ResumeKind) (b : Backend K) → b.cursor ≤ length b.events → Move kind b
  unfolding resume
  moves continue b v = ends refl
  moves reverse_continue b v = elim (List-cases b.events) [
    | inl empty ↦ ends (ground arith)
    | inr (x, xs, some_events) ↦ goes 0 (ground arith) (ground arith)
  ]
  moves step_back b v = elim (List-cases b.events) [
    | inl empty ↦ refuses (ground arith)
    | inr (x, xs, some_events) ↦ goes (b.cursor - 1) (ground arith) (ground arith)
  ]
  moves next b v = forward-Move next b refl
  moves step_in b v = forward-Move step_in b refl
  moves step_out b v = forward-Move step_out b refl

  -- Every resume request, from a cursor at an event or at the end: it never indexes the timeline
  -- out of bounds, and when it succeeds it has kept the timeline and left the cursor at an event
  -- or at the end.
  pub resume-Lands :
      (kind : ResumeKind) (b : Backend K)
      → b.cursor ≤ length b.events
      → (resume os sys fuel kind b ≢ err out_of_bounds)
        × ((stop : StopInfo) (b' : Backend K)
            → resume os sys fuel kind b ≡ ok (stop, b')
            → Lands b b')
  resume-Lands kind b v = elim (moves kind b v) [
    | ends e ↦ (λ h. end_in_bounds b (sym e ∙ h), λ stop b' h. end-Lands b b' stop (sym e ∙ h))
    | goes index lt e ↦ (
      λ h. goto_in_bounds step index b lt (sym e ∙ h),
      λ stop b' h. goto-Lands step index b b' stop (omega (arith, lt)) (sym e ∙ h),
    )
    | refuses e ↦ (λ h. ground (arith, sym e ∙ h), λ stop b' h. ground (arith, sym e ∙ h))
  ]

  -- A `goto` that reports a stop left the cursor at the event it was asked for, the tracee alive
  -- for inspection, and the session past a record at or after that event. (The session's
  -- checkpoints carry their own numbers, and its stored outcome, if any, is an end.)
  pub goto_stops :
      (reason reason' : Reason) (index seq : ℕ) (b b' : Backend K)
      → All IsStamped b.session.checkpoints
      → b.session.finished ≢ some running
      → get_elem? b.events index ≡ some seq
      → goto os sys fuel reason index b ≡ ok (stopped reason', b')
      → (b'.cursor ≡ index)
        × (reason' ≡ reason)
        × (tracee_pid b' ≡ ok b'.session.pid)
        × Reached seq b'.session.current_seq
  unfolding goto classify tracee_pid
  goto_stops reason reason' index seq b b' stamped live found h =
      elim (Result-cases (Drive.run_to os sys fuel seq b.session)) [
        | inr (e, failed) ↦ ground arith
        | inl ((outcome, session), ran) ↦
            let run : outcome ≡ running = by_outcome outcome session ran in
            let same : session ≡ b'.session = ground arith in
            (
              ground arith,
              ground arith,
              ground arith,
              subst (λ x. Reached seq x.current_seq) same
                  (run_to-Reached os sys fuel seq b.session session stamped live (ground arith)),
            )
      ]
    where
      by_outcome :
          (outcome : ExitOutcome) (session : Session K)
          → Drive.run_to os sys fuel seq b.session ≡ ok (outcome, session)
          → outcome ≡ running
      by_outcome running session ran = refl
      by_outcome (State.exited code) session ran = ground arith
      by_outcome (State.signaled sig) session ran = ground arith
