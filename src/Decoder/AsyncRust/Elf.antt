-- ===== src/Decoder/AsyncRust/Elf.antt =====
-- What crates/decoder/src/async_rust/enumerate/dwarf.rs reads of an image without a library: the
-- program headers, the name of the thread-local variable, and the future's type in a name.
use mirrorscope.Prelude.{
  ℕ, zero, suc, ◌+◌, ◌-◌, ◌%◌, ◌^◌, ◌==◌, leb, ltb, if◌then◌else◌, Bool, false, ◌&&◌, ◌||◌, Option,
  none, some, [], ◌∷◌, length, take, drop, Result, ok, err, ◌>>=◌, ◌>>◌, guard, get_elem?,
}
use mirrorscope.Prelude.Bytes.{Bytes, from_le}
use mirrorscope.Prelude.Text.{codes, eq_Bytes, strip_prefix}
use mirrorscope.Dap.Text.{trim}
use mirrorscope.Decoder.AsyncRust.State.{contains_text}
use mirrorscope.Decoder.AsyncRust.Owned.{EnumerateError, unparsable}

-- `word`, `quarter` and `half`, which read 8, 4 and 2 bytes.
unfoldable pub read_at : (n : ℕ) → Bytes → (at : ℕ) → Result EnumerateError ℕ
read_at n image at =
    if leb (at + n) (length image) then ok (from_le (take n (drop at image))) else err unparsable

pub record Geometry : Type 0 where
  pub tls_align : ℕ
  pub tls_memsz : ℕ
  pub min_load : ℕ

abbrev pub address : ℕ → ℕ → ℕ
address base offset = (base + offset) % 2 ^ 64

-- One program header, `PT_TLS` being 7 and `PT_LOAD` 1.
unfoldable pub note_header : (p_type p_vaddr p_memsz p_align : ℕ) → Geometry → Geometry
note_header p_type p_vaddr p_memsz p_align g =
    if p_type == 7
    then record g { tls_align = if ltb p_align 1 then 1 else p_align; tls_memsz = p_memsz }
    else if p_type == 1
    then record g { min_load = if ltb p_vaddr g.min_load then p_vaddr else g.min_load }
    else g

-- The headers from `base` on, `count` of them.
unfoldable pub read_headers :
    Bytes → (phentsize : ℕ) → (base count : ℕ) → Geometry → Result EnumerateError Geometry
unfolding read_at note_header
read_headers image phentsize base zero g = ok g
read_headers image phentsize base (suc count) g = do
  p_type ← read_at 4 image base
  p_vaddr ← read_at 8 image (address base 16)
  p_memsz ← read_at 8 image (address base 40)
  p_align ← read_at 8 image (address base 48)
  read_headers image phentsize (address base phentsize) count
      (note_header p_type p_vaddr p_memsz p_align g)

abbrev byte_is : ℕ → ℕ → Bytes → Bool
byte_is at b image = elim (get_elem? image at) [ none ↦ false | some c ↦ c == b ]

unfoldable pub is_elf64 : Bytes → Bool
is_elf64 image =
    leb 64 (length image)
    && (eq_Bytes (take 4 image) (0x7f ∷ codes "ELF") && (byte_is 4 2 image && byte_is 5 1 image))

abbrev no_load : ℕ
no_load = 2 ^ 64 - 1

unfoldable pub elf_geometry : Bytes → Result EnumerateError Geometry
unfolding is_elf64 read_at read_headers
elf_geometry image = do
  guard (is_elf64 image) unparsable
  phoff ← read_at 8 image 32
  phentsize ← read_at 2 image 54
  phnum ← read_at 2 image 56
  g ←
      read_headers image phentsize phoff phnum
        (record { tls_align = 8; tls_memsz = 0; min_load = no_load })
  ok (record g { min_load = if g.min_load == no_load then 0 else g.min_load })

unfoldable pub is_context_symbol : Bytes → Bool
unfolding contains_text
is_context_symbol name =
    contains_text (codes "7context7CONTEXT") name || contains_text (codes "context..CONTEXT") name

abbrev pub longer : ℕ → Option Bytes → Option Bytes
longer c none = none
longer c (some text) = some (c ∷ text)

-- What a character of a name is to its generic arguments.
pub data Role : Type 0 where
  opens closes ends plain : Role

unfoldable pub role : (depth : ℕ) → ℕ → Role
role depth c =
    if c == b'<'
    then opens
    else if c == b'>'
    then (if depth == 0 then ends else closes)
    else if c == b',' && depth == 0
    then ends
    else plain

-- The text up to the comma or the bracket at the top level.
unfoldable pub first_argument : (depth : ℕ) → Bytes → Option Bytes
unfolding role
first_argument depth [] = none
first_argument depth (c ∷ cs) = elim (role depth c) [
  | ends ↦ some []
  | opens ↦ longer c (first_argument (depth + 1) cs)
  | closes ↦ longer c (first_argument (depth - 1) cs)
  | plain ↦ longer c (first_argument depth cs)
]

unfoldable pub first_generic_arg : Bytes → Option Bytes
unfolding first_argument trim
first_generic_arg name = elim (strip_prefix (codes "poll<") name) [
  | none ↦ none
  | some inner ↦ elim (first_argument 0 inner) [ none ↦ none | some text ↦ some (trim text) ]
]
