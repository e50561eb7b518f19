-- ===== src/Dap/Transport/Ends.antt =====
-- The frames of crates/dap/src/transport.rs: reading one needs no more fuel than the input has bytes,
-- and leaves less of it.
use mirrorscope.Prelude.{
  ℕ, zero, suc, ◌≡◌, ◌≢◌, ◌<◌, ◌≤◌, ◌^◌, refl, ap, arith, leb, Bool, true, false, Bool-cases,
  Option-cases, Result-cases, inl, inr, Option, none, some, [], ◌∷◌, length, take, length-drop,
  Result, ok, err, ◌>>=◌,
}
use mirrorscope.Prelude.Bytes.{Bytes}
use mirrorscope.Prelude.Text.{strip_prefix, parse_unsigned}
use mirrorscope.Prelude.Utf8.{is_utf8}
use mirrorscope.Dap.Json.{Json}
use mirrorscope.Dap.Text.{trim, trim_end}
use mirrorscope.Dap.Transport.{
  TransportError, capacity_overflow, out_of_fuel, header_name, split_line, header_line, after_line,
  read_headers, read_payload, read_frame,
}

-- An answer that is not `out_of_fuel`, and that leaves less than `n` bytes if it is a value.
abbrev pub Shrinks : {A : Type 0} → ℕ → Result TransportError (Option (A × Bytes)) → Type 0
Shrinks n (err e) = e ≡ out_of_fuel → ⊥
Shrinks n (ok none) = Unit
Shrinks n (ok (some (a, rest))) = length rest < n

split_line-shorter : (c : ℕ) (cs : Bytes) → length (split_line (c ∷ cs)).1 ≤ length cs
unfolding split_line
split_line-shorter c [] = ground arith
split_line-shorter c (d ∷ ds) = ground (arith, split_line-shorter d ds)

header_line-fuel :
    (so_far : Option ℕ) (line : Bytes) → header_line so_far line ≡ err out_of_fuel → ⊥
unfolding header_line
header_line-fuel so_far line e = elim (Option-cases (strip_prefix header_name line)) [
  | inl other ↦ ground arith
  | inr (value, is) ↦ elim (Option-cases (parse_unsigned (2 ^ 64) (trim value))) [
    | inl bad ↦ ground arith
    | inr (n, good) ↦ ground arith
  ]
]

Shrinks-bind :
    {A B : Type 0} (n : ℕ) (r : Result TransportError B)
    (next : B → Result TransportError (Option (A × Bytes)))
    → (r ≡ err out_of_fuel → ⊥)
    → ((b : B) → Shrinks n (next b))
    → Shrinks n (r >>= next)
Shrinks-bind n (ok b) next h k = k b
Shrinks-bind n (err e) next h k = λ same. h (ap err same)

Shrinks-le :
    {A : Type 0} (m n : ℕ) (r : Result TransportError (Option (A × Bytes)))
    → m ≤ n
    → Shrinks m r
    → Shrinks n r
Shrinks-le m n (err e) h k = k
Shrinks-le m n (ok none) h k = tt
Shrinks-le m n (ok (some (a, rest))) h k = omega (arith, h, k)

-- What the loop does with one line, trimmed.
module _ (n : ℕ) (rest : Bytes) (shorter : length rest < n)
    (next : Option ℕ → Result TransportError (Option (ℕ × Bytes)))
    (later : (o : Option ℕ) → Shrinks n (next o)) where
  line-Shrinks :
      (so_far : Option ℕ) (is_text : Bool) (line : Bytes)
      → Shrinks n (after_line so_far rest next is_text line)
  unfolding after_line
  line-Shrinks so_far false line = λ e. ground arith
  line-Shrinks none true [] = λ e. ground arith
  line-Shrinks (some k) true [] = shorter
  line-Shrinks so_far true (d ∷ ds) =
      Shrinks-bind n (header_line so_far (d ∷ ds)) next (header_line-fuel so_far (d ∷ ds)) later

read_headers-Shrinks :
    (fuel : ℕ) (saw : Bool) (so_far : Option ℕ) (input : Bytes)
    → length input < fuel
    → Shrinks (length input) (read_headers fuel saw so_far input)
unfolding read_headers
read_headers-Shrinks zero saw so_far input enough = absurd (omega arith)
read_headers-Shrinks (suc fuel) true so_far [] enough = λ e. ground arith
read_headers-Shrinks (suc fuel) false so_far [] enough = tt
read_headers-Shrinks (suc fuel) saw so_far (c ∷ cs) enough =
    let rest = (split_line (c ∷ cs)).1 in
    let line = (split_line (c ∷ cs)).0 in
    let short : length rest ≤ length cs = split_line-shorter c cs in
    line-Shrinks (suc (length cs)) rest (omega (arith, short)) (λ o. read_headers fuel true o rest)
      (λ o.
        Shrinks-le (length rest) (suc (length cs)) (read_headers fuel true o rest)
          (omega (arith, short))
          (read_headers-Shrinks fuel true o rest (omega (arith, short, enough))))
      so_far (is_utf8 line) (trim_end line)

-- A payload and what is left, as a message.
Shrinks-message :
    {A : Type 0} (n : ℕ) (r : Result TransportError (A × Bytes))
    → (r ≡ err out_of_fuel → ⊥)
    → ((a : A) (rest : Bytes) → r ≡ ok (a, rest) → length rest < n)
    → Shrinks n (r >>= λ message. ok (some message))
Shrinks-message n (err e) h k = λ same. h (ap err same)
Shrinks-message n (ok (a, rest)) h k = k a rest refl

module _ (json : Json) where
  open json use {Value, from_slice}

  payload_fuel : (n : ℕ) (input : Bytes) → read_payload json n input ≡ err out_of_fuel → ⊥
  unfolding read_payload
  payload_fuel n input e = elim (Bool-cases (leb (2 ^ 63) n)) [
    | inl huge ↦ ground arith
    | inr fits ↦ elim (Bool-cases (leb n (length input))) [
      | inr short ↦ ground arith
      | inl enough ↦ elim (Option-cases (from_slice (take n input))) [
        | inl bad ↦ ground arith
        | inr (value, good) ↦ ground arith
      ]
    ]
  ]

  payload_rest :
      (n : ℕ) (input : Bytes) (value : Value) (rest : Bytes)
      → read_payload json n input ≡ ok (value, rest)
      → length rest ≤ length input
  unfolding read_payload
  payload_rest n input value rest e = elim (Bool-cases (leb (2 ^ 63) n)) [
    | inl huge ↦ ground arith
    | inr fits ↦ elim (Bool-cases (leb n (length input))) [
      | inr short ↦ ground arith
      | inl enough ↦ elim (Option-cases (from_slice (take n input))) [
        | inl bad ↦ ground arith
        | inr (v, good) ↦ ground (arith, length-drop n input)
      ]
    ]
  ]

  -- A header and its payload.
  frame_of : Option (ℕ × Bytes) → Result TransportError (Option (Value × Bytes))
  frame_of none = ok none
  frame_of (some (n, rest)) = read_payload json n rest >>= λ message. ok (some message)

  frame-Shrinks :
      (bound : ℕ) (header : Result TransportError (Option (ℕ × Bytes)))
      → Shrinks bound header
      → Shrinks bound (header >>= frame_of)
  unfolding frame_of
  frame-Shrinks bound (err e) h = h
  frame-Shrinks bound (ok none) h = tt
  frame-Shrinks bound (ok (some (n, rest))) h =
      Shrinks-message bound (read_payload json n rest) (payload_fuel n rest)
        λ value left same. omega (arith, h, payload_rest n rest value left same)

  pub read_frame-Shrinks : (input : Bytes) → Shrinks (length input) (read_frame json input)
  unfolding read_frame frame_of
  read_frame-Shrinks input =
      frame-Shrinks (length input) (read_headers (suc (length input)) false none input)
        (read_headers-Shrinks (suc (length input)) false none input (omega arith))

-- No header makes `vec!` panic.
line_fits :
    (rest : Bytes) (next : Option ℕ → Result TransportError (Option (ℕ × Bytes)))
    → ((o : Option ℕ) → next o ≢ err capacity_overflow)
    → (so_far : Option ℕ) (is_text : Bool) (line : Bytes)
    → after_line so_far rest next is_text line ≢ err capacity_overflow
unfolding after_line
line_fits rest next later so_far false line h = ground arith
line_fits rest next later none true [] h = ground arith
line_fits rest next later (some k) true [] h = ground arith
line_fits rest next later so_far true (d ∷ ds) h =
    elim (Result-cases (header_line so_far (d ∷ ds))) [
      | inl (o, given) ↦ later o (ground arith)
      | inr (e, bad) ↦ header_fits so_far (d ∷ ds) (ground arith)
    ]
  where
    header_fits :
        (so_far : Option ℕ) (line : Bytes) → header_line so_far line ≢ err capacity_overflow
    header_fits so_far line e = elim (Option-cases (strip_prefix header_name line)) [
      | inl other ↦ ground arith
      | inr (value, is) ↦ elim (Option-cases (parse_unsigned (2 ^ 64) (trim value))) [
        | inl bad ↦ ground arith
        | inr (n, good) ↦ ground arith
      ]
    ]

pub headers_fit :
    (fuel : ℕ) (saw : Bool) (so_far : Option ℕ) (input : Bytes)
    → read_headers fuel saw so_far input ≢ err capacity_overflow
unfolding read_headers
headers_fit zero saw so_far input h = ground arith
headers_fit (suc fuel) true so_far [] h = ground arith
headers_fit (suc fuel) false so_far [] h = ground arith
headers_fit (suc fuel) saw so_far (c ∷ cs) h =
    line_fits (split_line (c ∷ cs)).1 (λ o. read_headers fuel true o (split_line (c ∷ cs)).1)
      (λ o. headers_fit fuel true o (split_line (c ∷ cs)).1) so_far
      (is_utf8 (split_line (c ∷ cs)).0) (trim_end (split_line (c ∷ cs)).0) h
