-- ===== src/Trace/Cmdline/Truncated.antt =====
-- `decode_cmdline` (crates/recorder/src/trace/format.rs) on part of an encoding: what it decodes
-- stays decoded when more bytes follow, and takes up no more bytes than there are.
use mirrorscope.Prelude.{
  ℕ, zero, suc, ◌+◌, ◌-◌, ◌%◌, ◌^◌, ◌≤◌, ◌≡◌, refl, ap, sym, subst, ◌∙◌, true, false, arith, Bool,
  if◌then◌else◌, List, [], ◌∷◌, ◌++◌, length, take, drop, length-append, length-drop, length-take,
  le→leb, Result, ok, err, bind-ok, ok-inj, some, none, ok_or, Option,
}
use mirrorscope.Prelude.Bytes.{Bytes, le_bytes, get_range, checked_add}
use mirrorscope.Prelude.Utf8.{is_utf8}
use mirrorscope.Trace.Format.{TraceError, malformed_header}
use mirrorscope.Trace.Cmdline.{
  Cmdline, encode_cmdline, read_u32, read_str, read_strs, decode_cmdline,
}
use mirrorscope.Trace.Cmdline.Codec.{encode_str, encode_strs, encode_cmdline_lem}
use mathlib.Core.List.{append_assoc, append-nil}

take-append : (n : ℕ) (xs ys : Bytes) → n ≤ length xs → take n (xs ++ ys) ≡ take n xs
take-append zero xs ys h = refl
take-append (suc n) [] ys h = absurd (omega arith)
take-append (suc n) (x ∷ xs) ys h = ap (λ t. x ∷ t) (take-append n xs ys (omega arith))

slice-append :
    (n a : ℕ) (xs ys : Bytes) → a + n ≤ length xs → take n (drop a (xs ++ ys)) ≡ take n (drop a xs)
slice-append n zero xs ys h = take-append n xs ys (omega arith)
slice-append zero (suc a) xs ys h = refl
slice-append (suc n) (suc a) [] ys h = absurd (omega arith)
slice-append (suc n) (suc a) (x ∷ xs) ys h = slice-append (suc n) a xs ys (omega arith)

length-slice : (n a : ℕ) (xs : Bytes) → a + n ≤ length xs → length (take n (drop a xs)) ≡ n
length-slice n a xs h = length-take n (drop a xs) (omega (arith, length-drop a xs))

ok_or-inv : {A : Type 0} (o : Option A) (e : TraceError) (a : A) → ok_or o e ≡ ok a → o ≡ some a
ok_or-inv (some b) e a h = ap some (ok-inj h)
ok_or-inv none e a h = ground arith

checked_add-inv : (a b end : ℕ) → checked_add a b ≡ some end → end ≡ a + b
checked_add-inv a b end h = ground arith

get_range-inv :
    (buf : Bytes) (start end : ℕ) (slice : Bytes)
    → get_range buf start end ≡ some slice
    → (start ≤ end) × (end ≤ length buf) × (take (end - start) (drop start buf) ≡ slice)
get_range-inv buf start end slice h = ground arith

get_range-append :
    (buf more : Bytes) (start end : ℕ)
    → start ≤ end
    → end ≤ length buf
    → get_range (buf ++ more) start end ≡ some (take (end - start) (drop start buf))
get_range-append buf more start end h k = rw (
  le→leb start end h,
  le→leb end (length (buf ++ more)) (omega (arith, k, length-append buf more)),
  slice-append (end - start) start buf more (omega (arith, h, k)),
)

text-inv :
    (is_text : Bool) (slice s : Bytes) (end p : ℕ)
    → Path
        (Result TraceError (Bytes × ℕ))
        (if is_text then ok (slice, end) else err malformed_header)
        (ok (s, p))
    → (slice ≡ s) × (end ≡ p)
text-inv true slice s end p h = (ap (λ x. x.0) (ok-inj h), ap (λ x. x.1) (ok-inj h))
text-inv false slice s end p h = ground arith

length-encode_str : (s : Bytes) → length (encode_str s) ≡ 4 + length s
length-encode_str s = omega arith

module _ (buf more : Bytes) where
  -- A slice that is there, which is there too when more bytes follow.
  slice_at :
      (start len end : ℕ) (slice : Bytes)
      → checked_add start len ≡ some end
      → get_range buf start end ≡ some slice
      → (end ≡ start + len)
        × (length slice ≡ len)
        × (end ≤ length buf)
        × (get_range (buf ++ more) start end ≡ some slice)
  slice_at start len end slice added got =
      let is_end = checked_add-inv start len end added in
      let (ordered, inside, is_slice) = get_range-inv buf start end slice got in
      (
        is_end,
        ap length (sym is_slice)
            ∙ length-slice (end - start) start buf (omega (arith, ordered, inside))
            ∙ omega (arith, is_end),
        inside,
        get_range-append buf more start end ordered inside ∙ ap some is_slice,
      )

  read_u32-inv :
      (pos v p : ℕ)
      → read_u32 buf pos ≡ ok (v, p)
      → (p ≡ pos + 4) × (p ≤ length buf) × (read_u32 (buf ++ more) pos ≡ ok (v, p))
  unfolding read_u32
  read_u32-inv pos v p h =
      let (end, added, h1) = bind-ok (ok_or (checked_add pos 4) malformed_header) _ (v, p) h in
      let (slice, got, h2) = bind-ok (ok_or (get_range buf pos end) malformed_header) _ (v, p) h1 in
      let (is_end, _, inside, again) =
        slice_at pos 4 end slice (ok_or-inv _ _ end added) (ok_or-inv _ _ slice got) in
      let same : end ≡ p = ap (λ x. x.1) (ok-inj h2) in
      (sym same ∙ is_end, omega (arith, same, inside), rw (added, again) h2)

  read_str-inv :
      (pos p : ℕ) (s : Bytes)
      → read_str buf pos ≡ ok (s, p)
      → (p ≡ pos + (4 + length s)) × (p ≤ length buf) × (read_str (buf ++ more) pos ≡ ok (s, p))
  unfolding read_str
  read_str-inv pos p s h =
      let ((len, q), counted, h1) = bind-ok (read_u32 buf pos) _ (s, p) h in
      let (end, added, h2) = bind-ok (ok_or (checked_add q len) malformed_header) _ (s, p) h1 in
      let (slice, got, h3) = bind-ok (ok_or (get_range buf q end) malformed_header) _ (s, p) h2 in
      let (is_q, _, counted_again) = read_u32-inv pos len q counted in
      let (is_end, is_len, inside, again) =
        slice_at q len end slice (ok_or-inv _ _ end added) (ok_or-inv _ _ slice got) in
      let (same_slice, same_end) = text-inv (is_utf8 slice) slice s end p h3 in
      (
        omega (arith, same_end, is_end, is_q, is_len, ap length same_slice),
        omega (arith, inside, same_end),
        rw (counted_again, added, again) h3,
      )

  read_strs-inv :
      (count pos : ℕ) (out ss : List Bytes)
      → read_strs buf count pos out ≡ ok ss
      → pos ≤ length buf
      → (new : List Bytes) × (ss ≡ out ++ new)
        × (pos + length (encode_strs new) ≤ length buf)
        × (read_strs (buf ++ more) count pos out ≡ ok ss)
  unfolding read_strs
  read_strs-inv zero pos out ss h inside =
      ([], sym (ok-inj h) ∙ sym (append-nil out), omega (arith, inside), h)
  read_strs-inv (suc count) pos out ss h inside =
      let ((s, p), got, h1) = bind-ok (read_str buf pos) _ ss h in
      let (is_p, inside_p, again) = read_str-inv pos p s got in
      let (new, is_ss, fits, again_ss) = read_strs-inv count p (out ++ s ∷ []) ss h1 inside_p in
      (
        s ∷ new,
        is_ss ∙ append_assoc out (s ∷ []) new,
        omega (
          arith,
          fits,
          is_p,
          length-encode_str s,
          length-append (encode_str s) (encode_strs new),
        ),
        rw again again_ss,
      )

  -- Bytes that decode hold the encoding's length, and decode the same when more follow.
  pub decode_cmdline-inv :
      (c : Cmdline)
      → decode_cmdline buf ≡ ok c
      → (length (encode_cmdline c.program c.args) ≤ length buf)
        × (decode_cmdline (buf ++ more) ≡ ok c)
  unfolding decode_cmdline
  decode_cmdline-inv c h =
      let ((program, p), got, h1) = bind-ok (read_str buf 0) _ c h in
      let ((count, q), counted, h2) = bind-ok (read_u32 buf p) _ c h1 in
      let (args, listed, h3) = bind-ok (read_strs buf count q []) _ c h2 in
      let (is_p, _, again) = read_str-inv 0 p program got in
      let (is_q, inside, again_count) = read_u32-inv p count q counted in
      let (new, is_args, fits, again_args) = read_strs-inv count q [] args listed inside in
      (
        subst (λ c. length (encode_cmdline c.program c.args) ≤ length buf) (ok-inj h3)
            (omega (
              arith,
              is_p,
              is_q,
              fits,
              ap length (encode_cmdline_lem program args),
              ap (λ ss. length (encode_strs ss)) is_args,
              length-append (encode_str program)
                  (le_bytes 4 (length args % 2 ^ 32) ++ encode_strs args),
              length-encode_str program,
            )),
        rw (again, again_count, again_args) h3,
      )
