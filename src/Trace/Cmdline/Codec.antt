-- ===== src/Trace/Cmdline/Codec.antt =====
-- `decode_cmdline` of crates/recorder/src/trace/format.rs on what `encode_cmdline` wrote.
use mirrorscope.Prelude.{ℕ, ◌+◌, ◌%◌, ◌^◌, ◌≤◌, ◌<◌, ◌≡◌, ap, sym, ◌∙◌, true, arith}
use mirrorscope.Prelude.{List, [], ◌∷◌, ◌++◌, length, drop, All, length-append, length-drop, lt→ltb}
use mirrorscope.Prelude.{ok}
use mirrorscope.Prelude.Bytes.{Bytes, le_bytes, get_range-drop, drop-length_mid, from_le-le_bytes}
use mirrorscope.Prelude.Utf8.{is_utf8}
use mirrorscope.Trace.Cmdline.{
  push_str, push_strs, encode_cmdline, read_u32, read_str, read_strs, decode_cmdline,
}
use mathlib.Core.List.{append_assoc, append-nil}

-- A string of the program: UTF-8, and its length is a `u32`.
abbrev pub IsText : Bytes → Type 0
IsText s = (is_utf8 s ≡ true) × (length s < 2 ^ 32)

-- One string in the encoding, and the arguments in a row.
abbrev pub encode_str : Bytes → Bytes
encode_str s = le_bytes 4 (length s % 2 ^ 32) ++ s

abbrev pub encode_strs : List Bytes → Bytes
encode_strs [] = []
encode_strs (s ∷ ss) = encode_str s ++ encode_strs ss

push_strs_lem : (args : List Bytes) (out : Bytes) → push_strs out args ≡ out ++ encode_strs args
unfolding push_strs push_str
push_strs_lem [] out = sym (append-nil out)
push_strs_lem (s ∷ ss) out =
    push_strs_lem ss (out ++ encode_str s) ∙ append_assoc out (encode_str s) (encode_strs ss)

pub encode_cmdline_lem :
    (program : Bytes) (args : List Bytes)
    → encode_cmdline program args
      ≡ encode_str program ++ (le_bytes 4 (length args % 2 ^ 32) ++ encode_strs args)
unfolding encode_cmdline push_str
encode_cmdline_lem program args =
    push_strs_lem args _
    ∙ append_assoc (encode_str program) (le_bytes 4 (length args % 2 ^ 32)) (encode_strs args)

-- Where the buffer goes on with `mid`, `pos + length mid` does not overflow.
in_range :
    (buf mid rest : Bytes) (pos : ℕ)
    → pos ≤ length buf
    → drop pos buf ≡ mid ++ rest
    → pos + length mid ≤ length buf
in_range buf mid rest pos h e =
    omega (arith, ap length e, length-drop pos buf, length-append mid rest)

module _ (buf : Bytes) (fits : length buf < 2 ^ 63) where
  read_u32_lem :
      (v pos : ℕ) (rest : Bytes)
      → v < 2 ^ 32
      → pos ≤ length buf
      → drop pos buf ≡ le_bytes 4 v ++ rest
      → read_u32 buf pos ≡ ok (v, pos + 4)
  unfolding read_u32
  read_u32_lem v pos rest hv h e =
      let b : pos + 4 ≤ length buf = in_range buf (le_bytes 4 v) rest pos h e in
      rw (
        lt→ltb (pos + 4) (2 ^ 64) (omega arith),
        get_range-drop buf (le_bytes 4 v) rest pos h e,
        from_le-le_bytes 4 v hv,
      )

  read_str_lem :
      (s : Bytes) (pos : ℕ) (rest : Bytes)
      → IsText s
      → pos ≤ length buf
      → drop pos buf ≡ encode_str s ++ rest
      → read_str buf pos ≡ ok (s, pos + length (encode_str s))
  unfolding read_str
  read_str_lem s pos rest t h e =
      rw
        (
          read_u32_lem (length s % 2 ^ 32) pos (s ++ rest) (omega arith) h split,
          small_length s t.1,
          lt→ltb (pos + 4 + length s) (2 ^ 64) (omega arith),
          get_range-drop buf s rest (pos + 4) after tail,
          t.0,
        )
        (ap (λ p. ok (s, p)) (omega arith))
    where
      split : drop pos buf ≡ le_bytes 4 (length s % 2 ^ 32) ++ (s ++ rest)
      split = e ∙ append_assoc (le_bytes 4 (length s % 2 ^ 32)) s rest

      tail : drop (pos + 4) buf ≡ s ++ rest
      tail = drop-length_mid buf (le_bytes 4 (length s % 2 ^ 32)) (s ++ rest) pos split

      whole : pos + length (encode_str s) ≤ length buf
      whole = in_range buf (encode_str s) rest pos h e

      after : pos + 4 ≤ length buf
      after = omega (arith, whole)

      small_length : (l : Bytes) → length l < 2 ^ 32 → length l % 2 ^ 32 ≡ length l
      small_length l lt = omega arith

  read_strs_lem :
      (ss : List Bytes) (pos : ℕ) (out : List Bytes)
      → All IsText ss
      → pos ≤ length buf
      → drop pos buf ≡ encode_strs ss
      → read_strs buf (length ss) pos out ≡ ok (out ++ ss)
  unfolding read_strs
  read_strs_lem [] pos out t h e = rw append-nil
  read_strs_lem (s ∷ ss) pos out (ts, tss) h e = rw (read_str_lem s pos (encode_strs ss) ts h e) (
      read_strs_lem ss (pos + length (encode_str s)) (out ++ (s ∷ [])) tss
        (in_range buf (encode_str s) (encode_strs ss) pos h e)
        (drop-length_mid buf (encode_str s) (encode_strs ss) pos e)
      ∙ ap ok (append_assoc out (s ∷ []) ss))

  decode_strs :
      (program : Bytes) (args : List Bytes)
      → IsText program
      → All IsText args
      → length args < 2 ^ 32
      → buf ≡ encode_str program ++ (le_bytes 4 (length args % 2 ^ 32) ++ encode_strs args)
      → decode_cmdline buf ≡ ok (record { program = program; args = args })
  unfolding decode_cmdline
  decode_strs program args tp ta n e =
      rw
        (
          read_str_lem program 0 (count ++ encode_strs args) tp (omega arith) e,
          read_u32_lem (length args % 2 ^ 32) p (encode_strs args) (omega arith) start at,
          mod_small (length args) n,
        )
        (rw (
          read_strs_lem args (p + 4) [] ta (in_range buf count (encode_strs args) p start at)
            (drop-length_mid buf count (encode_strs args) p at)))
    where
      count : Bytes
      count = le_bytes 4 (length args % 2 ^ 32)

      p : ℕ
      p = 0 + length (encode_str program)

      start : p ≤ length buf
      start = in_range buf (encode_str program) (count ++ encode_strs args) 0 (omega arith) e

      at : drop p buf ≡ count ++ encode_strs args
      at = drop-length_mid buf (encode_str program) (count ++ encode_strs args) 0 e

      mod_small : (l : ℕ) → l < 2 ^ 32 → l % 2 ^ 32 ≡ l
      mod_small l lt = omega arith

-- `decode_cmdline` returns the program and the arguments that `encode_cmdline` was given, where each
-- string is UTF-8 and shorter than 4 GiB, there are fewer than 2^32 arguments, and the encoding is
-- shorter than 2^63 bytes.
pub decode_cmdline-encode_cmdline :
    (program : Bytes) (args : List Bytes)
    → IsText program
    → All IsText args
    → length args < 2 ^ 32
    → length (encode_cmdline program args) < 2 ^ 63
    → decode_cmdline (encode_cmdline program args) ≡ ok (record { program = program; args = args })
decode_cmdline-encode_cmdline program args tp ta n fits =
    decode_strs (encode_cmdline program args) fits program args tp ta n
      (encode_cmdline_lem program args)
