-- ===== src/Trace/Reader/Safety.antt =====
-- The reader of crates/recorder/src/trace/reader.rs on any input.
use mirrorscope.Prelude.{
  ℕ, zero, suc, ◌+◌, ◌-◌, ◌≤◌, ◌<◌, ◌≡◌, ◌≢◌, ap, ◌∙◌, arith, List, [], ◌∷◌, length, length-take,
  length-take_le, length-drop, Option, none, some, Result, ok, err, inl, inr, Option-cases,
}
use mirrorscope.Prelude.Bytes.{Bytes, from_le}
use mirrorscope.Trace.Format.{Record, TraceError, min_body_len, panicked}
use mirrorscope.Trace.Body.Codec.{decode_body_total}
use mirrorscope.Trace.Reader.{
  TraceReader, full, read_exact, read_exact_or_eof, check_monotonic, read_body, read_record, next,
  collect, read_all,
}

-- The last sequence number lies below `seq`.
abbrev pub Precedes : Option ℕ → ℕ → Type 0
Precedes none seq = Unit
Precedes (some previous) seq = previous < seq

-- The sequence numbers rise strictly, from above the last one on.
abbrev pub Rises : Option ℕ → List Record → Type 0
Rises last [] = Unit
Rises last (rec ∷ recs) = Precedes last rec.seq × Rises (some rec.seq) recs

read_exact-length :
    (n : ℕ) (input : Bytes) (p : Bytes × Bytes)
    → read_exact n input ≡ some p
    → (length p.1 + n ≡ length input) × (length p.0 ≡ n)
unfolding read_exact
read_exact-length n input p e =
    ground (arith, length-drop n input, λ (h : n ≤ length input). length-take n input h)

read_exact_or_eof-length :
    (n : ℕ) (input : Bytes) → length (read_exact_or_eof n input).2 ≡ length input - n
unfolding read_exact_or_eof
read_exact_or_eof-length n input = ground (arith, length-drop n input)

read_exact_or_eof-full :
    (n : ℕ) (input : Bytes) → (read_exact_or_eof n input).0 ≡ full → n ≤ length input
unfolding read_exact_or_eof
read_exact_or_eof-full n input e = ground (arith, length-take_le n input)

inner-check_monotonic : (seq : ℕ) (r : TraceReader) → (check_monotonic seq r).1.inner ≡ r.inner
unfolding check_monotonic
inner-check_monotonic seq r = ground arith

check_monotonic_ok :
    (seq : ℕ) (r : TraceReader) (t : Unit {0})
    → (check_monotonic seq r).0 ≡ ok t
    → ((check_monotonic seq r).1.last_seq ≡ some seq) × Precedes r.last_seq seq
unfolding check_monotonic
check_monotonic_ok seq r t e = ground arith

module _ (crc : Bytes → ℕ) where
  read_body_ok :
      (n : ℕ) (r r' : TraceReader) (rec : Record)
      → read_body crc n r ≡ (ok (some rec), r')
      → (length r'.inner ≤ length r.inner)
        × (r'.last_seq ≡ some rec.seq)
        × Precedes r.last_seq rec.seq
  unfolding read_body
  read_body_ok n r r' rec e = elim (Option-cases (read_exact n r.inner)) [
    | inl short ↦ ground arith
    | inr ((body, rest), e0) ↦ elim (Option-cases (read_exact 4 rest)) [
      | inl short ↦ ground arith
      | inr ((sum, rest'), e1) ↦ ground (
        arith,
        read_exact-length n r.inner (body, rest) e0,
        read_exact-length 4 rest (sum, rest') e1,
        inner-check_monotonic rec.seq (record r { inner = rest' }),
        check_monotonic_ok rec.seq (record r { inner = rest' }) tt,
      )
    ]
  ]

  -- A record that is returned has eaten input, and its number lies above the last one.
  read_record_ok :
      (r r' : TraceReader) (rec : Record)
      → read_record crc r ≡ (ok (some rec), r')
      → (length r'.inner < length r.inner)
        × (r'.last_seq ≡ some rec.seq)
        × Precedes r.last_seq rec.seq
  unfolding read_record
  read_record_ok r r' rec e =
      let behind : Bytes = (read_exact_or_eof 4 r.inner).2 in
      let len : ℕ = from_le (read_exact_or_eof 4 r.inner).1 in
      ground (
        arith,
        read_exact_or_eof-length 4 r.inner,
        read_exact_or_eof-full 4 r.inner,
        read_body_ok len (record r { inner = behind }) r' rec,
      )

  next_ok :
      (r : TraceReader) (rec : Record)
      → (next crc r).0 ≡ some (ok rec)
      → (length (next crc r).1.inner < length r.inner)
        × ((next crc r).1.last_seq ≡ some rec.seq)
        × Precedes r.last_seq rec.seq
  unfolding next
  next_ok r rec e = ground (arith, read_record_ok r (read_record crc r).1 rec)

  check_monotonic-ne-panicked :
      (seq : ℕ) (r : TraceReader) → (check_monotonic seq r).0 ≢ err panicked
  unfolding check_monotonic
  check_monotonic-ne-panicked seq r e = ground arith

  read_body-ne-panicked :
      (n : ℕ) (r : TraceReader) → min_body_len r.version ≤ n → (read_body crc n r).0 ≢ err panicked
  unfolding read_body
  read_body-ne-panicked n r h e = elim (Option-cases (read_exact n r.inner)) [
    | inl short ↦ ground arith
    | inr ((body, rest), e0) ↦ elim (Option-cases (read_exact 4 rest)) [
      | inl short ↦ ground arith
      | inr ((sum, rest'), e1) ↦
          let size : (length rest + n ≡ length r.inner) × (length body ≡ n) =
            read_exact-length n r.inner (body, rest) e0 in
          let (rec, decoded) = decode_body_total r.version body (omega (arith, size)) in
          ground (arith, decoded, check_monotonic-ne-panicked rec.seq (record r { inner = rest' }))
    ]
  ]

  next-ne-panicked : (r : TraceReader) → (next crc r).0 ≢ some (err panicked)
  unfolding next read_record
  next-ne-panicked r e =
      let behind : Bytes = (read_exact_or_eof 4 r.inner).2 in
      let len : ℕ = from_le (read_exact_or_eof 4 r.inner).1 in
      ground (arith, read_body-ne-panicked len (record r { inner = behind }))

  -- What iterating a reader to the end yields.
  abbrev pub Yields : Option ℕ → Result TraceError (List Record) → Type 0
  Yields last (ok recs) = Rises last recs
  Yields last (err e) = e ≢ panicked

  collect-cons :
      (fuel : ℕ) (r : TraceReader) (rec : Record)
      → (next crc r).0 ≡ some (ok rec)
      → Precedes r.last_seq rec.seq
      → (result : Result TraceError (List Record)) × (collect crc fuel (next crc r).1 ≡ some result)
        × Yields (some rec.seq) result
      → (result : Result TraceError (List Record)) × (collect crc (suc fuel) r ≡ some result)
        × Yields r.last_seq result
  unfolding collect
  collect-cons fuel r rec more low (ok recs, e, rises) =
      (ok (rec ∷ recs), ground arith, (low, rises))
  collect-cons fuel r rec more low (err x, e, fine) = (err x, ground arith, fine)

  collect_total :
      (fuel : ℕ) (r : TraceReader)
      → length r.inner < fuel
      → (result : Result TraceError (List Record)) × (collect crc fuel r ≡ some result)
        × Yields r.last_seq result
  collect_total zero r h = elim h [ ]
  collect_total (suc fuel) r h = elim (Option-cases (next crc r).0) [
    | inl done ↦ (ok [], unfold collect in ground arith, tt)
    | inr (err e, failed) ↦ (
      err e,
      unfold collect in ground arith,
      λ p. next-ne-panicked r (failed ∙ ap (λ (t : TraceError). some (err t)) p),
    )
    | inr (ok rec, more) ↦
        let (shorter, last, low) = next_ok r rec more in
        collect-cons fuel r rec more low
          (rw last at (collect_total fuel (next crc r).1 (omega (arith, shorter))))
  ]

  -- On any input, hostile or not, iterating the reader ends: it yields an error, which is never a
  -- panic, or records whose sequence numbers rise strictly, above the last number already seen.
  pub read_all_total :
      (r : TraceReader)
      → (result : Result TraceError (List Record)) × (read_all crc r ≡ some result)
        × Yields r.last_seq result
  unfolding read_all
  read_all_total r = collect_total (suc (length r.inner)) r (omega arith)

  -- After an error the iterator yields nothing more.
  pub next_after_error :
      (r : TraceReader) (e : TraceError)
      → (next crc r).0 ≡ some (err e)
      → next crc (next crc r).1 ≡ (none, (next crc r).1)
  unfolding next
  next_after_error r e h = ground arith
