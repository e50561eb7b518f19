-- ===== src/Cli/Tests.antt =====
-- Command lines that are accepted, and some that show the usage.
use mirrorscope.Prelude.{◌≡◌, refl, true, false, none, some, [], ◌∷◌}
use mirrorscope.Prelude.Text.{codes}
use mirrorscope.Cli.Args.{parse_record_args, parse_replay_args, parse_watch_args}

recorded :
    parse_record_args
      (codes "--ebpf" ∷ codes "-o" ∷ codes "t" ∷ codes "--" ∷ codes "ls" ∷ codes "-o" ∷ [])
    ≡ some (record {
      options = record { trace_path = codes "t"; ebpf = true; ebpf_object = none };
      program = codes "ls";
      program_args = codes "-o" ∷ [];
    })
unfolding parse_record_args
recorded = refl

without_program : parse_record_args (codes "-o" ∷ codes "t" ∷ codes "--" ∷ []) ≡ none
unfolding parse_record_args
without_program = refl

replayed :
    parse_replay_args (codes "--to" ∷ codes "12" ∷ [])
    ≡ some (record { trace_path = codes "trace.mscope"; to = some 12 })
unfolding parse_replay_args
replayed = refl

watched :
    parse_watch_args (codes "t" ∷ codes "--addr" ∷ codes "0x7fF0" ∷ codes "--len" ∷ codes "8" ∷ [])
    ≡ some (record { trace_path = codes "t"; addr = 0x7ff0; len = 8; reads = false })
unfolding parse_watch_args
watched = refl
