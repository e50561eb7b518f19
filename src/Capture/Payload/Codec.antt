-- ===== src/Capture/Payload/Codec.antt =====
-- Encoding and then decoding, for each payload of crates/recorder/src/capture/payload.rs.
use mirrorscope.Prelude.{
  ltb, if◌then◌else◌, le→ltb_false, ℕ, ◌+◌, ◌%◌, ◌^◌, ◌<◌, ◌≡◌, refl, arith, [], ◌∷◌, length, All,
  some, ok, err,
}
use mirrorscope.Prelude.Bytes.{
  le_bytes, get_range, get_range-drop, get_range-suffix, from_le-le_bytes,
}
use mirrorscope.Prelude.Ints.{
  IsI32, IsI64, to_bits, to_bits-lt, of_bits-to_bits_32, of_bits-to_bits_64,
}
use mirrorscope.Capture.Payload.{
  SyscallExit, SchedSwitch, ThreadSpawn, ThreadExit, SignalDelivery, length_mismatch,
  encode_sched_switch, decode_sched_switch, encode_thread_spawn, decode_thread_spawn,
  encode_thread_exit, decode_thread_exit, encode_signal, decode_signal, encode_enter, decode_enter,
  encode_exit, decode_exit,
}

-- The thread ids and the signal number survive: each of the four short payloads decodes to what
-- was encoded.
pub decode-encode_sched :
    (sw : SchedSwitch) (sp : ThreadSpawn) (ex : ThreadExit) (sg : SignalDelivery)
    → sw.tid < 2 ^ 32
    → sp.parent_tid < 2 ^ 32
    → sp.child_tid < 2 ^ 32
    → ex.tid < 2 ^ 32
    → IsI32 sg.signum
    → (decode_sched_switch (encode_sched_switch sw) ≡ ok sw)
      × (decode_thread_spawn (encode_thread_spawn sp) ≡ ok sp)
      × (decode_thread_exit (encode_thread_exit ex) ≡ ok ex)
      × (decode_signal (encode_signal sg) ≡ ok sg)
unfolding encode_sched_switch decode_sched_switch encode_thread_spawn decode_thread_spawn
    encode_thread_exit decode_thread_exit encode_signal decode_signal
decode-encode_sched sw sp ex sg h1 h2 h3 h4 h5 = (
  rw (from_le-le_bytes 4 sw.tid h1),
  rw (from_le-le_bytes 4 sp.parent_tid h2, from_le-le_bytes 4 sp.child_tid h3),
  rw (from_le-le_bytes 4 ex.tid h4),
  rw (
    from_le-le_bytes 4 (to_bits 32 sg.signum) (to_bits-lt sg.signum).0,
    of_bits-to_bits_32 sg.signum h5,
  ),
)

-- A syscall entry with six 64-bit arguments decodes to itself.
pub decode_enter-encode_enter :
    (nr a0 a1 a2 a3 a4 a5 : ℕ)
    → All (λ w. w < 2 ^ 64) (nr ∷ a0 ∷ a1 ∷ a2 ∷ a3 ∷ a4 ∷ a5 ∷ [])
    → decode_enter (encode_enter (record { nr = nr; args = a0 ∷ a1 ∷ a2 ∷ a3 ∷ a4 ∷ a5 ∷ [] }))
      ≡ ok (record { nr = nr; args = a0 ∷ a1 ∷ a2 ∷ a3 ∷ a4 ∷ a5 ∷ [] })
unfolding encode_enter decode_enter
decode_enter-encode_enter nr a0 a1 a2 a3 a4 a5 h = rw (
  from_le-le_bytes 8 nr h.0,
  from_le-le_bytes 8 a0 h.1.0,
  from_le-le_bytes 8 a1 h.1.1.0,
  from_le-le_bytes 8 a2 h.1.1.1.0,
  from_le-le_bytes 8 a3 h.1.1.1.1.0,
  from_le-le_bytes 8 a4 h.1.1.1.1.1.0,
  from_le-le_bytes 8 a5 h.1.1.1.1.1.1.0,
)

module _ (e : SyscallExit) where
  length-encode_exit : length (encode_exit e) ≡ 20 + length e.data_bytes
  unfolding encode_exit
  length-encode_exit = omega arith

  exit_nr : get_range (encode_exit e) 0 8 ≡ some (le_bytes 8 e.nr)
  unfolding encode_exit
  exit_nr = get_range-drop (encode_exit e) (le_bytes 8 e.nr) _ 0 (omega arith) refl

  exit_ret : get_range (encode_exit e) 8 16 ≡ some (le_bytes 8 (to_bits 64 e.ret))
  unfolding encode_exit
  exit_ret = get_range-drop (encode_exit e) (le_bytes 8 (to_bits 64 e.ret)) _ 8 (omega arith) refl

  exit_len : get_range (encode_exit e) 16 20 ≡ some (le_bytes 4 (length e.data_bytes % 2 ^ 32))
  unfolding encode_exit
  exit_len =
      get_range-drop (encode_exit e) (le_bytes 4 (length e.data_bytes % 2 ^ 32)) _ 16 (omega arith)
        refl

  exit_data : get_range (encode_exit e) 20 (length (encode_exit e)) ≡ some e.data_bytes
  unfolding encode_exit
  exit_data = get_range-suffix (encode_exit e) e.data_bytes 20 (omega arith) refl

-- A syscall exit decodes to itself, its return value and its captured bytes unchanged, exactly if
-- the captured data is shorter than 4 GiB; longer data is refused for its length.
-- (The number and the return value are 64-bit words.)
pub decode_exit-encode_exit :
    (e : SyscallExit)
    → e.nr < 2 ^ 64
    → IsI64 e.ret
    → decode_exit (encode_exit e)
      ≡ (if ltb (length e.data_bytes) (2 ^ 32) then ok e else err length_mismatch)
unfolding decode_exit
decode_exit-encode_exit e h k =
    rw
      (
        le→ltb_false (length (encode_exit e)) 20 (omega (arith, length-encode_exit e)),
        exit_nr e,
        exit_ret e,
        exit_len e,
        exit_data e,
        from_le-le_bytes 8 e.nr h,
        from_le-le_bytes 8 (to_bits 64 e.ret) (to_bits-lt e.ret).1,
        of_bits-to_bits_64 e.ret k,
        from_le-le_bytes 4 (length e.data_bytes % 2 ^ 32) (omega arith),
      )
      (ground arith)
