-- ===== src/Dap/Transport/RoundTrip.antt =====
-- Frames (crates/dap/src/transport.rs) read back.
use mirrorscope.Prelude.{
  le→leb, lt→leb_false, List-cases, inl, inr, ℕ, suc, ◌≡◌, ◌∙◌, ◌<◌, ◌^◌, ap, sym, subst, arith,
  refl, ◌==◌, Bool, true, false, Option, none, some, [], ◌∷◌, ◌++◌, length, ok, All, All-append,
  take-length_append, drop-length_append, length-append,
}
use mathlib.Core.List.{append_assoc, append-nil}
use mirrorscope.Prelude.Bytes.{Bytes}
use mirrorscope.Prelude.Utf8.{is_utf8, utf8_from, utf8_step, lead_byte, boundary}
use mirrorscope.Prelude.Text.{codes, decimal, decimal-IsDigit, IsDigit, parse_unsigned-decimal}
use mirrorscope.Dap.Json.{Json}
use mirrorscope.Dap.Text.{
  IsAscii, IsVisible, trim, trim_end, trim_end-visible, trim_start-space, trim_start,
}
use mirrorscope.Dap.Transport.{
  split_line, header_line, read_headers, read_payload, read_frame, write_frame,
}

-- A line of ASCII without a line feed is a line of its own, and is UTF-8.
abbrev IsInLine : ℕ → Type 0
IsInLine c = ((c == 10) ≡ false) × (c < 127)

split_line-IsInLine :
    (xs rest : Bytes) → All IsInLine xs → split_line (xs ++ 10 ∷ rest) ≡ (xs ++ 10 ∷ [], rest)
unfolding split_line
split_line-IsInLine [] rest h = refl
split_line-IsInLine (x ∷ xs) rest h = ground (arith, split_line-IsInLine xs rest h.1, h.0.0)

lead_byte-IsAscii : (c : ℕ) → IsAscii c → utf8_step boundary c ≡ some boundary
unfolding utf8_step lead_byte
lead_byte-IsAscii c h = ground arith

is_utf8-IsAscii : (xs : Bytes) → All IsAscii xs → is_utf8 xs ≡ true
unfolding is_utf8 utf8_from
is_utf8-IsAscii [] h = refl
is_utf8-IsAscii (x ∷ xs) h = ground (arith, lead_byte-IsAscii x h.0, is_utf8-IsAscii xs h.1)

-- A text that is not empty, with its last character apart.
snoc :
    {P : ℕ → Type 0} (xs : Bytes)
    → All P xs
    → 0 < length xs
    → (init : Bytes) × (last : ℕ) × (xs ≡ init ++ last ∷ []) × All P init × P last
snoc [] h pos = absurd (omega arith)
snoc (x ∷ []) h pos = ([], x, refl, tt, h.0)
snoc {P} (x ∷ y ∷ ys) h pos =
    let (init, last, same, all, one) = snoc {P = P} (y ∷ ys) h.1 (omega arith) in
    (x ∷ init, last, ap (λ t. x ∷ t) same, (h.0, all), one)

IsDigit-IsAscii : (xs : Bytes) → All IsDigit xs → All IsAscii xs
IsDigit-IsAscii [] h = tt
IsDigit-IsAscii (x ∷ xs) h = (omega (arith, h.0.1), IsDigit-IsAscii xs h.1)

IsDigit-IsInLine : (xs : Bytes) → All IsDigit xs → All IsInLine xs
IsDigit-IsInLine [] h = tt
IsDigit-IsInLine (x ∷ xs) h = (ground (arith, h.0.0, h.0.1), IsDigit-IsInLine xs h.1)

prefix : Bytes
prefix = codes "Content-Length: "

prefix-IsAscii : All IsAscii prefix
unfolding prefix
prefix-IsAscii = ground arith

prefix-IsInLine : All IsInLine prefix
unfolding prefix
prefix-IsInLine = ground arith

regroup : (a b : Bytes) (c : ℕ) (t : Bytes) → a ++ ((b ++ c ∷ []) ++ t) ≡ (a ++ b) ++ c ∷ t
regroup [] [] c t = refl
regroup [] (x ∷ b) c t = ap (λ z. x ∷ z) (regroup [] b c t)
regroup (x ∷ a) b c t = ap (λ z. x ∷ z) (regroup a b c t)

append_assoc_mid : (a b : Bytes) (c : ℕ) (t : Bytes) → a ++ (b ++ c ∷ t) ≡ (a ++ (b ++ c ∷ [])) ++ t
append_assoc_mid [] [] c t = refl
append_assoc_mid [] (x ∷ b) c t = ap (λ z. x ∷ z) (append_assoc_mid [] b c t)
append_assoc_mid (x ∷ a) b c t = ap (λ z. x ∷ z) (append_assoc_mid a b c t)

digit-IsVisible : (c : ℕ) → IsDigit c → IsVisible c
digit-IsVisible c h = omega (arith, h.0, h.1)

-- A number behind ASCII text, trimmed.
trim_end-decimal :
    (pre tail : Bytes) (n : ℕ)
    → All IsAscii pre
    → trim_end tail ≡ []
    → trim_end (pre ++ (decimal n ++ tail)) ≡ pre ++ decimal n
trim_end-decimal pre tail n ascii blank =
    let (digit, some_digit) = decimal-IsDigit n in
    let (init, last, same, all, one) = snoc {P = IsDigit} (decimal n) digit some_digit in
    let cut =
      trim_end-visible (pre ++ init) last tail
        (All-append IsAscii pre init ascii (IsDigit-IsAscii init all)) (digit-IsVisible last one)
        blank in
    subst (λ d. trim_end (pre ++ (d ++ tail)) ≡ pre ++ d) (sym same)
      (ap trim_end (regroup pre init last tail) ∙ cut ∙ append_assoc pre init (last ∷ []))

nothing : trim_end [] ≡ []
unfolding trim_end
nothing = refl

line_end : trim_end (13 ∷ 10 ∷ []) ≡ []
unfolding trim_end
line_end = refl

trim-decimal : (n : ℕ) → trim (b' ' ∷ decimal n) ≡ decimal n
unfolding trim
trim-decimal n =
    let (digit, some_digit) = decimal-IsDigit n in
    elim (List-cases (decimal n)) [
      | inl empty ↦ absurd (omega (arith, some_digit, ap length empty))
      | inr (d, ds, same) ↦
          let visible : IsVisible d = digit-IsVisible d (first_digit d ds (decimal n) same digit) in
          ap trim_end
            (subst (λ t. trim_start (b' ' ∷ t) ≡ t) (sym same) (trim_start-space d ds visible))
          ∙ unpadded
    ]
  where
    first_digit : (d : ℕ) (ds xs : Bytes) → xs ≡ d ∷ ds → All IsDigit xs → IsDigit d
    first_digit d ds xs same h = (subst (All IsDigit) same h).0

    unpadded : trim_end (decimal n) ≡ decimal n
    unpadded =
        subst (λ t. trim_end t ≡ decimal n) (append-nil (decimal n))
          (trim_end-decimal [] [] n tt nothing)

header_line-decimal : (n : ℕ) → n < 2 ^ 64 → header_line none (prefix ++ decimal n) ≡ ok (some n)
unfolding header_line prefix
header_line-decimal n word =
    ground (arith, trim-decimal n, parse_unsigned-decimal (2 ^ 64) n word word)

-- A line of the header that gives a length, and the empty line behind it.
module _ (fuel : ℕ) (saw : Bool) (x : ℕ) (xs rest : Bytes) (in_line : All IsInLine (x ∷ xs)) where
  line_is_utf8 : is_utf8 ((x ∷ xs) ++ 10 ∷ []) ≡ true
  line_is_utf8 =
      is_utf8-IsAscii ((x ∷ xs) ++ 10 ∷ [])
        (All-append IsAscii (x ∷ xs) (10 ∷ []) (ascii (x ∷ xs) in_line) (omega arith, tt))
    where
      ascii : (ys : Bytes) → All IsInLine ys → All IsAscii ys
      ascii [] h = tt
      ascii (y ∷ ys) h = (h.0.1, ascii ys h.1)

  read_headers-line :
      (length_so_far length_now : Option ℕ) (d : ℕ) (ds : Bytes)
      → trim_end ((x ∷ xs) ++ 10 ∷ []) ≡ d ∷ ds
      → header_line length_so_far (d ∷ ds) ≡ ok length_now
      → read_headers (suc fuel) saw length_so_far ((x ∷ xs) ++ 10 ∷ rest)
        ≡ read_headers fuel true length_now rest
  unfolding read_headers
  read_headers-line length_so_far length_now d ds trimmed parsed =
      rw (split_line-IsInLine (x ∷ xs) rest in_line, line_is_utf8, trimmed, parsed)

  read_headers-empty :
      (n : ℕ)
      → trim_end ((x ∷ xs) ++ 10 ∷ []) ≡ []
      → read_headers (suc fuel) saw (some n) ((x ∷ xs) ++ 10 ∷ rest) ≡ ok (some (n, rest))
  unfolding read_headers
  read_headers-empty n trimmed =
      rw (split_line-IsInLine (x ∷ xs) rest in_line, line_is_utf8, trimmed)

-- The two lines of a header, read with the fuel of a longer input.
module _ (fuel n : ℕ) (rest : Bytes) (word : n < 2 ^ 64) where
  name_rest : Bytes
  name_rest = codes "ontent-Length: "

  line_rest : Bytes
  line_rest = name_rest ++ (decimal n ++ 13 ∷ [])

  line-IsInLine : All IsInLine (b'C' ∷ line_rest)
  unfolding line_rest name_rest prefix
  line-IsInLine = All-append IsInLine prefix (decimal n ++ 13 ∷ []) prefix-IsInLine (
      All-append IsInLine (decimal n) (13 ∷ []) (IsDigit-IsInLine (decimal n) (decimal-IsDigit n).0)
        ((refl, omega arith), tt))

  line_trimmed : trim_end ((b'C' ∷ line_rest) ++ 10 ∷ []) ≡ b'C' ∷ (name_rest ++ decimal n)
  unfolding line_rest name_rest prefix
  line_trimmed =
      ap (λ t. trim_end (prefix ++ t)) (append_assoc (decimal n) (13 ∷ []) (10 ∷ []))
      ∙ trim_end-decimal prefix (13 ∷ 10 ∷ []) n prefix-IsAscii line_end

  read_headers-header :
      read_headers (suc (suc fuel)) false none (prefix ++ (decimal n ++ 13 ∷ 10 ∷ 13 ∷ 10 ∷ rest))
      ≡ ok (some (n, rest))
  unfolding line_rest name_rest prefix
  read_headers-header =
      ap (read_headers (suc (suc fuel)) false none)
        (append_assoc_mid prefix (decimal n) 13 (10 ∷ 13 ∷ 10 ∷ rest))
      ∙ read_headers-line (suc fuel) false b'C' line_rest (13 ∷ 10 ∷ rest) line-IsInLine none
          (some n) b'C' (name_rest ++ decimal n) line_trimmed (header_line-decimal n word)
      ∙ read_headers-empty fuel true 13 [] rest ((refl, omega arith), tt) n line_end

module _ (json : Json) where
  open json use {Value, to_vec, from_slice}

  read_payload-append :
      (message : Value) (rest : Bytes)
      → from_slice (to_vec message) ≡ some message
      → length (to_vec message) < 2 ^ 63
      → read_payload json (length (to_vec message)) (to_vec message ++ rest) ≡ ok (message, rest)
  unfolding read_payload
  read_payload-append message rest parses fits = rw (
    lt→leb_false (2 ^ 63) (length (to_vec message)) fits,
    le→leb (length (to_vec message)) (length (to_vec message ++ rest))
        (omega (arith, length-append (to_vec message) rest)),
    take-length_append (to_vec message) rest,
    drop-length_append (to_vec message) rest,
    parses,
  )

  -- A message whose JSON text is read back as the message, and is shorter than 2^63 bytes, is read
  -- back from its frame, whatever follows; and what follows is left.
  pub read_frame-write_frame :
      (message : Value) (rest : Bytes)
      → from_slice (to_vec message) ≡ some message
      → length (to_vec message) < 2 ^ 63
      → read_frame json (write_frame json message ++ rest) ≡ ok (some (message, rest))
  unfolding read_frame write_frame prefix
  read_frame-write_frame message rest parses fits =
      let payload = to_vec message in
      let header = decimal (length payload) in
      let fuel =
        length (codes "ntent-Length: " ++ (header ++ 13 ∷ 10 ∷ 13 ∷ 10 ∷ (payload ++ rest))) in
      ap (λ t. read_frame json (prefix ++ t))
        (append_assoc header (13 ∷ 10 ∷ 13 ∷ 10 ∷ payload) rest)
      ∙ rw (
        read_headers-header (suc fuel) (length payload) (payload ++ rest) (omega (arith, fits)),
        read_payload-append message rest parses fits,
      )
