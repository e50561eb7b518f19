-- ===== src/Cli/Args.antt =====
-- crates/mirrorscope-cli/src/main.rs: the commands and how their arguments are parsed. Each `None`
-- of the source shows the usage.
use mirrorscope.Prelude.{
  ℕ, ◌^◌, ◌==◌, if◌then◌else◌, Bool, true, false, Option, none, some, List, [], ◌∷◌,
}
use mirrorscope.Prelude.Bytes.{Bytes}
use mirrorscope.Prelude.Text.{codes, eq_Bytes, strip_prefix, parse_unsigned}
use mirrorscope.Unwind.Maps.{from_hex}

infixl 5 ◌>>=?◌
abbrev pub ◌>>=?◌ : {A B : Type 0} → Option A → (A → Option B) → Option B
none >>=? f = none
some a >>=? f = f a

pub data Command : Type 0 where
  dap version : Command
  record_command replay_command watch_command : (args : List Bytes) → Command
  unknown_command : (name : Bytes) → Command
  usage : Command

unfoldable pub command_of : List Bytes → Command
command_of [] = usage
command_of (name ∷ args) =
    if eq_Bytes name (codes "dap")
    then dap
    else if eq_Bytes name (codes "record")
    then record_command args
    else if eq_Bytes name (codes "replay")
    then replay_command args
    else if eq_Bytes name (codes "watch")
    then watch_command args
    else if eq_Bytes name (codes "--version")
    then version
    else unknown_command name

abbrev default_trace : Bytes
default_trace = codes "trace.mscope"

-- What an argument is: one of the flags, or another text.
pub data Flag : Type 0 where
  output_flag ebpf_flag ebpf_object_flag other_flag : Flag

unfoldable pub record_flag : Bytes → Flag
record_flag arg =
    if eq_Bytes arg (codes "-o")
    then output_flag
    else if eq_Bytes arg (codes "--ebpf")
    then ebpf_flag
    else if eq_Bytes arg (codes "--ebpf-object")
    then ebpf_object_flag
    else other_flag

pub record RecordOptions : Type 0 where
  pub trace_path : Bytes
  pub ebpf : Bool
  pub ebpf_object : Option Bytes

pub record RecordArgs : Type 0 where
  pub options : RecordOptions
  pub program : Bytes
  pub program_args : List Bytes

-- The arguments before and behind the first `--`.
unfoldable pub split_target : List Bytes → Option (List Bytes × List Bytes)
split_target [] = none
split_target (a ∷ args) =
    let rest = split_target args in
    if eq_Bytes a (codes "--")
    then some ([], args)
    else elim rest [ none ↦ none | some (options, target) ↦ some (a ∷ options, target) ]

unfoldable pub record_options : List Bytes → RecordOptions → Option RecordOptions
unfolding record_flag
record_options [] o = some o
record_options (a ∷ []) o = elim (record_flag a) [
  | ebpf_flag ↦ some (record o { ebpf = true })
  | output_flag ↦ none
  | ebpf_object_flag ↦ none
  | other_flag ↦ none
]
record_options (a ∷ b ∷ args) o = elim (record_flag a) [
  | output_flag ↦ record_options args (record o { trace_path = b })
  | ebpf_flag ↦ record_options (b ∷ args) (record o { ebpf = true })
  | ebpf_object_flag ↦ record_options args (record o { ebpf_object = some b })
  | other_flag ↦ none
]

unfoldable pub with_target : RecordOptions → List Bytes → Option RecordArgs
with_target o [] = none
with_target o (program ∷ args) =
    some (record { options = o; program = program; program_args = args })

unfoldable pub parse_record_args : List Bytes → Option RecordArgs
unfolding split_target record_options with_target
parse_record_args args = split_target args >>=? λ (options, target).
    record_options options (record { trace_path = default_trace; ebpf = false; ebpf_object = none })
    >>=? λ o. with_target o target

pub record ReplayArgs : Type 0 where
  pub trace_path : Bytes
  pub to : Option ℕ

unfoldable pub replay_options : List Bytes → ReplayArgs → Option ReplayArgs
unfolding parse_unsigned
replay_options [] r = some r
replay_options (a ∷ []) r = none
replay_options (a ∷ b ∷ args) r = elim (eq_Bytes a (codes "-t")) [
  | true ↦ replay_options args (record r { trace_path = b })
  | false ↦ elim (eq_Bytes a (codes "--to")) [
    | true ↦ elim (parse_unsigned (2 ^ 64) b) [
      | none ↦ none
      | some seq ↦ replay_options args (record r { to = some seq })
    ]
    | false ↦ none
  ]
]

unfoldable pub parse_replay_args : List Bytes → Option ReplayArgs
unfolding replay_options
parse_replay_args args = replay_options args (record { trace_path = default_trace; to = none })

-- Hexadecimal behind `0x` or `0X`, else decimal.
unfoldable pub parse_int : Bytes → Option ℕ
unfolding from_hex parse_unsigned
parse_int text = elim (strip_prefix (codes "0x") text) [
  | some digits ↦ from_hex digits
  | none ↦ elim (strip_prefix (codes "0X") text) [
    | some digits ↦ from_hex digits
    | none ↦ parse_unsigned (2 ^ 64) text
  ]
]

pub record WatchOptions : Type 0 where
  pub trace_path : Option Bytes
  pub addr : Option ℕ
  pub len : Option ℕ
  pub reads : Bool

pub record WatchArgs : Type 0 where
  pub trace_path : Bytes
  pub addr : ℕ
  pub len : ℕ
  pub reads : Bool

pub data WatchFlag : Type 0 where
  addr_flag len_flag rw_flag bad_flag positional : WatchFlag

abbrev starts_with_dash : Bytes → Bool
starts_with_dash [] = false
starts_with_dash (c ∷ cs) = c == b'-'

unfoldable pub watch_flag : Bytes → WatchFlag
watch_flag arg =
    if eq_Bytes arg (codes "--addr")
    then addr_flag
    else if eq_Bytes arg (codes "--len")
    then len_flag
    else if eq_Bytes arg (codes "--rw")
    then rw_flag
    else if starts_with_dash arg
    then bad_flag
    else positional

-- The one argument that is no flag, if there was none before.
unfoldable pub take_trace : Bytes → WatchOptions → Option WatchOptions
take_trace arg w = elim w.trace_path [
  | some path ↦ none
  | none ↦ some (record w { trace_path = some arg })
]

unfoldable pub watch_options : List Bytes → WatchOptions → Option WatchOptions
unfolding watch_flag take_trace parse_int parse_unsigned
watch_options [] w = some w
watch_options (a ∷ []) w = elim (watch_flag a) [
  | rw_flag ↦ some (record w { reads = true })
  | positional ↦ take_trace a w
  | addr_flag ↦ none
  | len_flag ↦ none
  | bad_flag ↦ none
]
watch_options (a ∷ b ∷ args) w = elim (watch_flag a) [
  | addr_flag ↦ parse_int b >>=? λ addr. watch_options args (record w { addr = some addr })
  | len_flag ↦ parse_unsigned 256 b >>=? λ len. watch_options args (record w { len = some len })
  | rw_flag ↦ watch_options (b ∷ args) (record w { reads = true })
  | positional ↦ take_trace a w >>=? λ taken. watch_options (b ∷ args) taken
  | bad_flag ↦ none
]

unfoldable pub complete_watch : WatchOptions → Option WatchArgs
complete_watch w = w.trace_path >>=? λ path. w.addr >>=? λ addr.
    w.len >>=? λ len. some (record { trace_path = path; addr = addr; len = len; reads = w.reads })

unfoldable pub parse_watch_args : List Bytes → Option WatchArgs
unfolding watch_options complete_watch
parse_watch_args args =
    watch_options args (record { trace_path = none; addr = none; len = none; reads = false })
    >>=? complete_watch
