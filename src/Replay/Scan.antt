-- ===== src/Replay/Scan.antt =====
-- crates/replay/src/scan.rs: every access to an address, over the whole history. The session that
-- `launch` answers is given.
use mirrorscope.Prelude.{ℕ, List, [], Result, ok, ◌>>=◌}
use mirrorscope.Capture.Syscall.{Sys}
use mirrorscope.Replay.Watchpoint.{WatchKind, write, read_write}
use mirrorscope.Replay.State.{Session, Os, ReplayError, WatchHit}
use mirrorscope.Replay.Snapshots.{watch}
use mirrorscope.Replay.Drive.{run_to_end}

pub record WatchpointScan : Type 0 where
  pub addr : ℕ
  pub len : ℕ
  pub kind : WatchKind

unfoldable pub new_scan : (addr len : ℕ) → WatchpointScan
new_scan addr len = record { addr = addr; len = len; kind = write }

unfoldable pub watch_reads : WatchpointScan → WatchpointScan
watch_reads scan = record scan { kind = read_write }

module _ {K : Type 0} where
  unfoldable pub take_watch_hits : Session K → List WatchHit × Session K
  take_watch_hits s = (s.watch_hits, record s { watch_hits = [] })

  unfoldable pub run_scan :
      Os K
      → Sys
      → (fuel : ℕ) → WatchpointScan
      → (launched : Session K) → Result ReplayError (List WatchHit)
  unfolding watch run_to_end take_watch_hits
  run_scan os sys fuel scan launched = do
    session ← watch os scan.addr scan.len scan.kind launched
    (outcome, session) ← run_to_end os sys fuel session
    ok (take_watch_hits session).0
