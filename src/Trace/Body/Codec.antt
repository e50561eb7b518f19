-- ===== src/Trace/Body/Codec.antt =====
-- `decode_body` of crates/recorder/src/trace/format.rs on what `encode_body` wrote, and on any body.
use mirrorscope.Prelude.{ℕ, ◌+◌, ◌^◌, ◌/◌, ◌%◌, ◌<◌, ◌≡◌, refl, arith, length}
use mirrorscope.Prelude.{get_elem?, Option, none, some, ok}
use mirrorscope.Prelude.Bytes.{
  le_bytes, from_le, get_range, get_range-suffix, get_range-drop, from_le-le_bytes,
}
use mirrorscope.Trace.Format.{EventKind, to_u16, from_u16, Event, unknown}
use mirrorscope.Trace.Body.{decode_tid, encode_body, decode_body}
use mathlib.Core.Option.{get_or}
use mirrorscope.Prelude.{
  zero, suc, ◌-◌, ◌≤◌, leb, le→leb, take, drop, [], ◌∷◌, Bool-cases, inl, inr,
}
use mirrorscope.Prelude.Bytes.{Bytes}
use mirrorscope.Trace.Format.{Record, min_body_len, tid_min_version}

-- The kinds that a `u16` stands for: a raw value is kept only where no variant has it.
abbrev pub IsCanonical : EventKind → Type 0
IsCanonical (unknown raw) = (10 < raw) × (raw < 2 ^ 16)
IsCanonical _ = Unit

pub from_u16-to_u16 : (k : EventKind) → IsCanonical k → from_u16 (to_u16 k) ≡ k
unfolding from_u16 to_u16
from_u16-to_u16 (unknown raw) h = ground arith
from_u16-to_u16 _ h = ground arith

-- The fields of an event fit the words that hold them.
pub record IsEvent (e : Event) : Type 0 where
  pub kind : IsCanonical e.kind
  pub timestamp_ns : e.timestamp_ns < 2 ^ 64
  pub tid : get_or e.tid 0 < 2 ^ 32

-- What a version 3 record keeps of an event: a missing thread id is written as 0.
abbrev pub recorded : Event → Event
recorded e = record e { tid = some (get_or e.tid 0) }

to_u16-lt : (k : EventKind) → IsCanonical k → to_u16 k < 2 ^ 16
unfolding to_u16
to_u16-lt (unknown raw) h = h.1
to_u16-lt _ h = omega arith

pub length-encode_body : (seq : ℕ) (e : Event) → length (encode_body seq e) ≡ 22 + length e.payload
unfolding encode_body
length-encode_body seq e = omega arith

module _ (seq : ℕ) (e : Event) where
  seq_bytes : get_range (encode_body seq e) 0 8 ≡ some (le_bytes 8 seq)
  unfolding encode_body
  seq_bytes = get_range-drop (encode_body seq e) (le_bytes 8 seq) _ 0 (omega arith) refl

  timestamp_bytes : get_range (encode_body seq e) 8 16 ≡ some (le_bytes 8 e.timestamp_ns)
  unfolding encode_body
  timestamp_bytes =
      get_range-drop (encode_body seq e) (le_bytes 8 e.timestamp_ns) _ 8 (omega arith) refl

  tid_bytes : get_range (encode_body seq e) 16 20 ≡ some (le_bytes 4 (get_or e.tid 0))
  unfolding encode_body
  tid_bytes =
      get_range-drop (encode_body seq e) (le_bytes 4 (get_or e.tid 0)) _ 16 (omega arith) refl

  kind_bytes :
      (get_elem? (encode_body seq e) 20 ≡ some (to_u16 e.kind % 256))
      × (get_elem? (encode_body seq e) 21 ≡ some (to_u16 e.kind / 256 % 256))
  unfolding encode_body
  kind_bytes = (refl, refl)

  payload_bytes : get_range (encode_body seq e) 22 (length (encode_body seq e)) ≡ some e.payload
  unfolding encode_body
  payload_bytes = get_range-suffix (encode_body seq e) e.payload 22 (omega arith) refl

  kind_word : IsCanonical e.kind → from_u16 (from_le (le_bytes 2 (to_u16 e.kind))) ≡ e.kind
  kind_word k =
      rw (from_le-le_bytes 2 (to_u16 e.kind) (to_u16-lt e.kind k)) (from_u16-to_u16 e.kind k)

-- `decode_body` reads back what `encode_body` wrote.
pub decode_body-encode_body :
    (seq : ℕ) (e : Event)
    → IsEvent e
    → seq < 2 ^ 64
    → decode_body 3 (encode_body seq e) ≡ ok (record { seq = seq; event = recorded e })
unfolding decode_body
decode_body-encode_body seq e v h =
    rw
      (
        seq_bytes seq e,
        timestamp_bytes seq e,
        tid_bytes seq e,
        (kind_bytes seq e).0,
        (kind_bytes seq e).1,
        payload_bytes seq e,
        from_le-le_bytes 8 seq h,
        from_le-le_bytes 8 e.timestamp_ns v.timestamp_ns,
        from_le-le_bytes 4 (get_or e.tid 0) v.tid,
      )
      (rw (kind_word seq e v.kind))

get_range-some :
    (buf : Bytes) (start end : ℕ)
    → start ≤ end
    → end ≤ length buf
    → get_range buf start end ≡ some (take (end - start) (drop start buf))
get_range-some buf start end h k = rw (le→leb start end h, le→leb end (length buf) k)

get_elem?-some : (xs : Bytes) (i : ℕ) → i < length xs → (x : ℕ) × (get_elem? xs i ≡ some x)
get_elem?-some [] i h = elim h [ ]
get_elem?-some (x ∷ xs) zero h = (x, refl)
get_elem?-some (x ∷ xs) (suc i) h = get_elem?-some xs i (omega arith)

decode_tid_total :
    (version : ℕ) (body : Bytes)
    → min_body_len version ≤ length body
    → (p : Option ℕ × ℕ) × (decode_tid version body ≡ ok p) × (p.1 + 2 ≤ length body)
unfolding decode_tid
decode_tid_total version body h = elim (Bool-cases (leb tid_min_version version)) [
  | inl new ↦
      let long : 22 ≤ length body = rw new at h in
      (
        (some (from_le (take 4 (drop 16 body))), 20),
        rw (new, get_range-some body 16 20 (omega arith) (omega arith)),
        omega arith,
      )
  | inr old ↦ let long : 18 ≤ length body = rw old at h in ((none, 16), rw old, omega arith)
]

-- On a body of the least length of its version no index is out of range.
pub decode_body_total :
    (version : ℕ) (body : Bytes)
    → min_body_len version ≤ length body
    → (rec : Record) × (decode_body version body ≡ ok rec)
decode_body_total version body h =
    let ((tid, at), tid_read, room) = decode_tid_total version body h in
    let (low, low_read) = get_elem?-some body at (omega arith) in
    let (high, high_read) = get_elem?-some body (at + 1) (omega arith) in
    (
      record {
        seq = from_le (take 8 body);
        event = record {
          kind = from_u16 (from_le (low ∷ high ∷ []));
          timestamp_ns = from_le (take 8 (drop 8 body));
          tid = tid;
          payload = take (length body - (at + 2)) (drop (at + 2) body);
        };
      },
      unfold decode_body in
          rw (
            get_range-some body 0 8 (omega arith) (omega (arith, short)),
            get_range-some body 8 16 (omega arith) short,
            tid_read,
            low_read,
            high_read,
            get_range-some body (at + 2) (length body) room (omega arith),
          ),
    )
  where
    short : 16 ≤ length body
    short = ground arith
