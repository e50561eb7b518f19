-- ===== src/Cli/Commands.antt =====
-- What the commands `replay` and `watch` of crates/mirrorscope-cli/src/main.rs do with their
-- arguments. The session that `launch` answers is given, and what they print is left out.
use mirrorscope.Prelude.{ℕ, ◌++◌, if◌then◌else◌, none, some, List, Result}
use mirrorscope.Prelude.Bytes.{Bytes, from_le}
use mirrorscope.Prelude.Text.{codes, digits}
use mirrorscope.Capture.Syscall.{Sys}
use mirrorscope.Replay.State.{Session, Os, ReplayError, ExitOutcome, WatchHit}
use mirrorscope.Replay.Drive.{step_to, run_to_end}
use mirrorscope.Replay.Scan.{WatchpointScan, new_scan, watch_reads, run_scan}
use mirrorscope.Cli.Args.{ReplayArgs, WatchArgs}

unfoldable pub scan_of : WatchArgs → WatchpointScan
unfolding new_scan watch_reads
scan_of parsed =
    let scan = new_scan parsed.addr parsed.len in if parsed.reads then watch_reads scan else scan

module _ {K : Type 0} (os : Os K) (sys : Sys) (fuel : ℕ) where
  unfoldable pub run_replay : ReplayArgs → Session K → Result ReplayError (ExitOutcome × Session K)
  unfolding step_to run_to_end
  run_replay parsed launched = elim parsed.to [
    | some seq ↦ step_to os sys fuel seq launched
    | none ↦ run_to_end os sys fuel launched
  ]

  unfoldable pub run_watch : WatchArgs → Session K → Result ReplayError (List WatchHit)
  unfolding scan_of run_scan
  run_watch parsed launched = run_scan os sys fuel (scan_of parsed) launched

-- At most 16 bytes, as a `u128`.
unfoldable pub format_value : Bytes → Bytes
unfolding digits
format_value bytes = codes "0x" ++ digits 16 32 (from_le bytes)
