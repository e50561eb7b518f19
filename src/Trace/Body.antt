-- ===== src/Trace/Body.antt =====
-- `encode_body` and `decode_body` of crates/recorder/src/trace/format.rs.
pub mod Codec
use mirrorscope.Prelude.{ℕ, ◌+◌, leb, if◌then◌else◌, Option, none, some, ◌++◌, length, get_elem?}
use mirrorscope.Prelude.{Result, ok, err, ◌>>=◌, ok_or}
use mirrorscope.Prelude.Bytes.{Bytes, le_bytes, from_le, get_range}
use mirrorscope.Trace.Format.{EventKind, to_u16, from_u16, Event, Record, TraceError, panicked}
use mirrorscope.Trace.Format.{tid_min_version}
use mathlib.Core.Option.{get_or}
use mathlib.Core.List.{[], ◌∷◌}

pub encode_body : ℕ → Event → Bytes
encode_body seq event =
    le_bytes 8 seq
    ++ (le_bytes 8 event.timestamp_ns
        ++ (le_bytes 4 (get_or event.tid 0) ++ (le_bytes 2 (to_u16 event.kind) ++ event.payload)))

-- `body[start..end]` and `body[i]`
abbrev slice : Bytes → ℕ → ℕ → Result TraceError Bytes
slice body start end = ok_or (get_range body start end) panicked

abbrev byte_at : Bytes → ℕ → Result TraceError ℕ
byte_at body i = ok_or (get_elem? body i) panicked

-- The `tid` that version 3 added, and where the kind stands behind it.
pub decode_tid : ℕ → Bytes → Result TraceError (Option ℕ × ℕ)
decode_tid version body =
    if leb tid_min_version version
    then (do tid ← slice body 16 20; ok (some (from_le tid), 20))
    else ok (none, 16)

pub decode_body : ℕ → Bytes → Result TraceError Record
unfolding decode_tid
decode_body version body = do
  seq ← slice body 0 8
  timestamp_ns ← slice body 8 16
  (tid, kind_at) ← decode_tid version body
  low ← byte_at body kind_at
  high ← byte_at body (kind_at + 1)
  payload ← slice body (kind_at + 2) (length body)
  ok (record {
    seq = from_le seq;
    event = record {
      kind = from_u16 (from_le (low ∷ high ∷ []));
      timestamp_ns = from_le timestamp_ns;
      tid = tid;
      payload = payload;
    };
  })
