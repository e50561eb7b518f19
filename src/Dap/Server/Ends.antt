-- ===== src/Dap/Server/Ends.antt =====
-- The request loop (crates/dap/src/server.rs) ends on every input.
use mirrorscope.Prelude.{
  ℕ, zero, suc, ◌≡◌, ◌<◌, ◌≤◌, ◌^◌, refl, ap, sym, subst, ◌∙◌, arith, leb, false, Bool-cases,
  Option-cases, Result-cases, inl, inr, none, some, length, take, Result, ok, err,
}
use mirrorscope.Prelude.Bytes.{Bytes}
use mirrorscope.Dap.Json.{Json}
use mirrorscope.Dap.Interface.{DebugBackend}
use mirrorscope.Dap.Transport.{
  TransportError, missing_content_length, invalid_content_length, malformed_json, invalid_utf8,
  unexpected_eof, capacity_overflow, out_of_fuel, read_headers, read_payload, read_frame,
}
use mirrorscope.Dap.Server.{Server, dispatch, is_disconnect, run_buffered}
use mirrorscope.Dap.Transport.Ends.{Shrinks, headers_fit, read_frame-Shrinks}

module _ (json : Json) where
  open json use {Value, from_slice}

  -- What is left of the input behind some frames.
  pub data Reaches : Bytes → Bytes → Type 0 where
    here : (input : Bytes) → Reaches input input
    behind :
        (input rest last : Bytes) (message : Value)
        → read_frame json input ≡ ok (some (message, rest))
        → Reaches rest last
        → Reaches input last

  -- Behind some frames a header announces a message of 2^63 bytes or more.
  abbrev pub AnnouncesHuge : Bytes → Type 0
  AnnouncesHuge input =
      (at : Bytes) × Reaches input at
      × (n : ℕ) × (left : Bytes) × (read_headers (suc (length at)) false none at
          ≡ ok (some (n, left)))
      × (2 ^ 63 ≤ n)

  -- An end of the loop: a clean one, an error of the transport, or the panic of `vec!` on a length
  -- that the input announces.
  abbrev pub IsEnd : Bytes → Result TransportError (Unit {0}) → Type 0
  IsEnd input (ok u) = Unit
  IsEnd input (err out_of_fuel) = ⊥
  IsEnd input (err capacity_overflow) = AnnouncesHuge input
  IsEnd input (err missing_content_length) = Unit
  IsEnd input (err (invalid_content_length value)) = Unit
  IsEnd input (err malformed_json) = Unit
  IsEnd input (err invalid_utf8) = Unit
  IsEnd input (err unexpected_eof) = Unit

  huge_payload :
      (n : ℕ) (left : Bytes) → read_payload json n left ≡ err capacity_overflow → 2 ^ 63 ≤ n
  unfolding read_payload
  huge_payload n left h = elim (Bool-cases (leb (2 ^ 63) n)) [
    | inl huge ↦ ground arith
    | inr fits ↦ elim (Bool-cases (leb n (length left))) [
      | inr short ↦ absurd (ground arith)
      | inl enough ↦ elim (Option-cases (from_slice (take n left))) [
        | inl bad ↦ absurd (ground arith)
        | inr (value, good) ↦ absurd (ground arith)
      ]
    ]
  ]

  frame_huge : (input : Bytes) → read_frame json input ≡ err capacity_overflow → AnnouncesHuge input
  unfolding read_frame
  frame_huge input h = elim (Result-cases (read_headers (suc (length input)) false none input)) [
    | inr (e, failed) ↦ absurd (headers_fit (suc (length input)) false none input (ground arith))
    | inl (header, found) ↦ elim (Option-cases header) [
      | inl end ↦ absurd (ground arith)
      | inr ((n, left), given) ↦
          (input, here input, n, left, found ∙ ap ok given, huge_payload n left (ground arith))
    ]
  ]

  IsEnd-frame :
      (input : Bytes) (e : TransportError) → read_frame json input ≡ err e → IsEnd input (err e)
  IsEnd-frame input out_of_fuel h =
      subst (Shrinks (length input)) h (read_frame-Shrinks json input) refl
  IsEnd-frame input capacity_overflow h = frame_huge input h
  IsEnd-frame input missing_content_length h = tt
  IsEnd-frame input (invalid_content_length value) h = tt
  IsEnd-frame input malformed_json h = tt
  IsEnd-frame input invalid_utf8 h = tt
  IsEnd-frame input unexpected_eof h = tt

  IsEnd-behind :
      (input rest : Bytes) (message : Value) (r : Result TransportError (Unit {0}))
      → read_frame json input ≡ ok (some (message, rest))
      → IsEnd rest r
      → IsEnd input r
  IsEnd-behind input rest message (err capacity_overflow) h (at, reached, n, left, header, huge) =
      (at, behind input rest at message h reached, n, left, header, huge)
  IsEnd-behind input rest message (ok u) h k = tt
  IsEnd-behind input rest message (err out_of_fuel) h k = k
  IsEnd-behind input rest message (err missing_content_length) h k = tt
  IsEnd-behind input rest message (err (invalid_content_length value)) h k = tt
  IsEnd-behind input rest message (err malformed_json) h k = tt
  IsEnd-behind input rest message (err invalid_utf8) h k = tt
  IsEnd-behind input rest message (err unexpected_eof) h k = tt

module _ (json : Json) (dbg : DebugBackend json.Value) where
  open json use {Value, to_request}

  ends_as :
      (input : Bytes) (fuel : ℕ) (s : Server dbg.State) (r : Result TransportError (Unit {0}))
      → (run_buffered json dbg fuel input s).0 ≡ r
      → IsEnd json input r
      → IsEnd json input (run_buffered json dbg fuel input s).0
  ends_as input fuel s r same h = subst (IsEnd json input) (sym same) h

  -- With fuel for more bytes than the input has, the loop ends on whatever the client sends. It
  -- ends cleanly, with one of the errors of the transport, or in the panic of `vec!`, and in the
  -- latter only if the header behind some frames announces a message of 2^63 bytes or more.
  pub run_buffered_ends :
      (fuel : ℕ) (input : Bytes) (s : Server dbg.State)
      → length input < fuel
      → IsEnd json input (run_buffered json dbg fuel input s).0
  unfolding run_buffered
  run_buffered_ends zero input s enough = absurd (omega (arith, enough))
  run_buffered_ends (suc fuel) input s enough = elim (Result-cases (read_frame json input)) [
    | inr (failed, is) ↦
        ends_as input (suc fuel) s (err failed) (ground arith) (IsEnd-frame json input failed is)
    | inl (frame, is) ↦ elim (Option-cases frame) [
      | inl end ↦ ends_as input (suc fuel) s (ok tt) (ground arith) tt
      | inr ((message, rest), got) ↦
          let read : read_frame json input ≡ ok (some (message, rest)) = is ∙ ap ok got in
          let shorter : length rest < length input =
            subst (Shrinks (length input)) read (read_frame-Shrinks json input) in
          let goes_on : (s1 : Server dbg.State)
              → IsEnd json input (run_buffered json dbg fuel rest s1).0 =
            λ s1.
              IsEnd-behind json input rest message (run_buffered json dbg fuel rest s1).0 read
                (run_buffered_ends fuel rest s1 (omega (arith, shorter, enough))) in
          elim (Option-cases (to_request message)) [
            | inl other ↦
                ends_as input (suc fuel) s (run_buffered json dbg fuel rest s).0 (ground arith)
                  (goes_on s)
            | inr (request, is_request) ↦ elim (Bool-cases (is_disconnect json dbg request)) [
              | inl last ↦ ends_as input (suc fuel) s (ok tt) (ground arith) tt
              | inr more ↦
                  let s1 = (dispatch json dbg request s).1 in
                  ends_as input (suc fuel) s (run_buffered json dbg fuel rest s1).0 (ground arith)
                    (goes_on s1)
            ]
          ]
    ]
  ]
