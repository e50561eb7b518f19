-- ===== src/Trace/Reader.antt =====
-- crates/recorder/src/trace/reader.rs: `TraceReader` over an input in memory.
pub mod Steps
pub mod Safety
pub mod Open
pub mod RoundTrip
use mirrorscope.Prelude.{
  ℕ, zero, suc, ◌+◌, ◌-◌, ◌==◌, ltb, leb, if◌then◌else◌, Bool, true, false, not, ◌&&◌, Option, none,
  some, List, [], ◌∷◌, ◌++◌, length, take, drop, Result, ok, err, ◌>>=◌, ok_or, guard, ◌>>◌,
}
use mirrorscope.Prelude.Bytes.{Bytes, from_le}
use mirrorscope.Trace.Format.{
  Record, TraceError, bad_magic, unsupported_version, checksum_mismatch, truncated, body_too_large,
  non_monotonic_sequence, magic, format_version, base_header_len, cmdline_min_version, max_body_len,
  min_body_len,
}
use mirrorscope.Trace.Body.{decode_body}
use mirrorscope.Trace.Cmdline.{Cmdline, decode_cmdline}

-- `inner` is the input that has not been read.
pub record TraceReader : Type 0 where
  pub inner : Bytes
  pub version : ℕ
  pub cmdline : Option Cmdline
  pub last_seq : Option ℕ
  pub poisoned : Bool

-- `read_exact` into a buffer of `n` bytes: what it holds, and the rest of the input.
unfoldable pub read_exact : ℕ → Bytes → Option (Bytes × Bytes)
read_exact n input = if leb n (length input) then some (take n input, drop n input) else none

-- `base[..8] == MAGIC`
unfoldable pub bytes_eq : Bytes → Bytes → Bool
bytes_eq [] [] = true
bytes_eq (a ∷ xs) (b ∷ ys) = a == b && bytes_eq xs ys
bytes_eq _ _ = false

is_empty : Bytes → Bool
is_empty [] = true
is_empty _ = false

unfoldable pub read_cmdline : ℕ → Bytes → Result TraceError (Option Cmdline)
unfolding is_empty
read_cmdline version extra_buf =
    if leb cmdline_min_version version && not (is_empty extra_buf)
    then (do cmdline ← decode_cmdline extra_buf; ok (some cmdline))
    else ok none

-- `saturating_sub` is the subtraction of ℕ.
unfoldable pub open_reader : Bytes → Result TraceError TraceReader
unfolding read_exact read_cmdline
open_reader input = do
  (base, input) ← ok_or (read_exact base_header_len input) bad_magic
  guard (bytes_eq (take 8 base) magic) bad_magic
  let version = from_le (take 2 (drop 8 base))
  guard (leb version format_version) (unsupported_version version format_version)
  let header_len = from_le (take 2 (drop 10 base))
  (extra_buf, input) ← ok_or (read_exact (header_len - base_header_len) input) truncated
  cmdline ← read_cmdline version extra_buf
  ok (record {
    inner = input;
    version = version;
    cmdline = cmdline;
    last_seq = none;
    poisoned = false;
  })

pub data ReadOutcome : Type 0 where
  full partial eof : ReadOutcome

-- A read takes all that the input in memory has, so the loop of the source ends when the buffer
-- is full or the input empty.
unfoldable pub read_exact_or_eof : ℕ → Bytes → ReadOutcome × Bytes × Bytes
read_exact_or_eof n input =
    let filled = take n input in
    if leb n (length filled)
    then (full, filled, drop n input)
    else if length filled == 0
    then (eof, filled, drop n input)
    else (partial, filled, drop n input)

-- A method that may fail: its result, and the reader as it leaves it.
abbrev pub ReaderM : Type 0 → Type 0
ReaderM A = TraceReader → Result TraceError A × TraceReader

unfoldable pub check_monotonic : ℕ → ReaderM (Unit {0})
check_monotonic seq r = elim r.last_seq [
  | none ↦ (ok tt, record r { last_seq = some seq })
  | some previous ↦
      if leb seq previous
      then (err (non_monotonic_sequence seq previous), r)
      else (ok tt, record r { last_seq = some seq })
]

module _ (crc : Bytes → ℕ) where
  -- The part of `read_record` behind the checks of the length.
  read_body : ℕ → ReaderM (Option Record)
  read_body body_len r = elim (read_exact body_len r.inner) [
    | none ↦ (err truncated, record r { inner = [] })
    | some (body, rest) ↦ elim (read_exact 4 rest) [
      | none ↦ (err truncated, record r { inner = [] })
      | some (crc_buf, rest) ↦
          let r' : TraceReader = record r { inner = rest } in
          elim (decode_body r.version body) [
            | err e ↦ (err e, r')
            | ok rec ↦
                if crc body == from_le crc_buf
                then (let (checked, r2) = check_monotonic rec.seq r' in
                    elim checked [ err e ↦ (err e, r2) | ok _ ↦ (ok (some rec), r2) ])
                else (err (checksum_mismatch rec.seq), r')
          ]
    ]
  ]

  unfoldable pub read_record : ReaderM (Option Record)
  unfolding read_body
  read_record r =
      let (outcome, len_buf, rest) = read_exact_or_eof 4 r.inner in
      let r' : TraceReader = record r { inner = rest } in
      elim outcome [
        | eof ↦ (ok none, r')
        | partial ↦ (err truncated, r')
        | full ↦
            let body_len = from_le len_buf in
            if ltb body_len (min_body_len r.version)
            then (err truncated, r')
            else if ltb max_body_len body_len
            then (err (body_too_large body_len max_body_len), r')
            else read_body body_len r'
      ]

  -- `Iterator::next`
  unfoldable pub next : TraceReader → Option (Result TraceError Record) × TraceReader
  next r =
      if r.poisoned
      then (none, r)
      else (let (result, r') = read_record r in
          elim result [
            | ok (some rec) ↦ (some (ok rec), r')
            | ok none ↦ (none, r')
            | err e ↦ (some (err e), record r' { poisoned = true })
          ])

  -- `reader.collect::<Result<Vec<_>, _>>()`. `none`: the fuel ran out.
  unfoldable pub collect : ℕ → TraceReader → Option (Result TraceError (List Record))
  collect zero r = none
  collect (suc fuel) r =
      let (item, r') = next r in
      elim item [
        | none ↦ some (ok [])
        | some (err e) ↦ some (err e)
        | some (ok rec) ↦ elim (collect fuel r') [
          | none ↦ none
          | some (err e) ↦ some (err e)
          | some (ok recs) ↦ some (ok (rec ∷ recs))
        ]
      ]

  -- The same with fuel that is always enough: a record takes at least a byte of the input.
  unfoldable pub read_all : TraceReader → Option (Result TraceError (List Record))
  unfolding collect
  read_all r = collect (suc (length r.inner)) r
