-- ===== src/Unwind/Maps.antt =====
-- crates/unwind/src/maps.rs: the modules that /proc/<pid>/maps lists.
use mirrorscope.Prelude.{
  ℕ, zero, suc, ◌+◌, ◌-◌, ◌*◌, ◌^◌, ◌==◌, leb, ltb, if◌then◌else◌, Bool, true, false, ◌&&◌, Option,
  none, some, List, [], ◌∷◌, ◌++◌, length,
}
use mirrorscope.Prelude.Bytes.{Bytes}
use mirrorscope.Prelude.Text.{is_ascii_digit, eq_Bytes}
use mirrorscope.Dap.Text.{skip_space, trim_start}
use mirrorscope.Decoder.Go.Version.{split}

-- One hexadecimal digit.
unfoldable pub digit_value : ℕ → Option ℕ
digit_value c =
    if is_ascii_digit c
    then some (c - b'0')
    else if leb b'a' c && leb c b'f'
    then some (10 + (c - b'a'))
    else if leb b'A' c && leb c b'F'
    then some (10 + (c - b'A'))
    else none

unfoldable pub hex_digits : (acc : ℕ) → Bytes → Option ℕ
unfolding digit_value
hex_digits acc [] = some acc
hex_digits acc (c ∷ cs) = elim (digit_value c) [
  | none ↦ none
  | some d ↦ elim (ltb (16 * acc + d) (2 ^ 64)) [
    | true ↦ hex_digits (16 * acc + d) cs
    | false ↦ none
  ]
]

-- `u64::from_str_radix(text, 16)`: an optional `+`, then at least one digit.
unfoldable pub from_hex : Bytes → Option ℕ
unfolding hex_digits
from_hex [] = none
from_hex (c ∷ []) = hex_digits 0 (c ∷ [])
from_hex (c ∷ d ∷ cs) = if c == b'+' then hex_digits 0 (d ∷ cs) else hex_digits 0 (c ∷ d ∷ cs)

-- The text up to the first white character, and from there on.
unfoldable pub next_word : Bytes → Bytes × Bytes
unfolding skip_space
next_word [] = ([], [])
next_word (c ∷ cs) = elim (skip_space (c ∷ cs)) [
  | some rest ↦ ([], c ∷ cs)
  | none ↦ let (word, rest) = next_word cs in (c ∷ word, rest)
]

-- `str::split_whitespace`. Each word takes a byte at least, so that the length is fuel enough.
unfoldable pub words_from : (fuel : ℕ) → Bytes → List Bytes
unfolding trim_start next_word
words_from zero text = []
words_from (suc fuel) text = elim (trim_start text) [
  | [] ↦ []
  | c ∷ cs ↦ let (word, rest) = next_word (c ∷ cs) in word ∷ words_from fuel rest
]

unfoldable pub split_whitespace : Bytes → List Bytes
unfolding words_from
split_whitespace text = words_from (length text) text

-- `join(" ")`
unfoldable pub join : List Bytes → Bytes
join [] = []
join (w ∷ []) = w
join (w ∷ v ∷ ws) = w ++ b' ' ∷ join (v ∷ ws)

pub record ModuleMapping : Type 0 where
  pub path : Bytes
  pub base : ℕ

abbrev starts_with_slash : Bytes → Bool
starts_with_slash [] = false
starts_with_slash (c ∷ cs) = c == b'/'

-- The start of the range, where the offset is 0 and the path is a file's.
unfoldable pub file_start : (addr_range offset path : Bytes) → Option ModuleMapping
unfolding from_hex split
file_start addr_range offset path =
    if starts_with_slash path
    then elim (from_hex offset) [
      | none ↦ none
      | some (suc n) ↦ none
      | some zero ↦ elim (from_hex (split b'-' addr_range).0) [
        | none ↦ none
        | some start ↦ some (record { path = path; base = start })
      ]
    ]
    else none

unfoldable pub of_fields : List Bytes → Option ModuleMapping
unfolding file_start join
of_fields (addr_range ∷ perms ∷ offset ∷ dev ∷ inode ∷ rest) =
    file_start addr_range offset (join rest)
of_fields _ = none

unfoldable pub parse_line : Bytes → Option ModuleMapping
unfolding of_fields split_whitespace
parse_line line = of_fields (split_whitespace line)

-- A module with the path of one before lowers its base.
unfoldable pub add_module : ModuleMapping → List ModuleMapping → List ModuleMapping
add_module m [] = m ∷ []
add_module m (n ∷ ns) =
    let rest = add_module m ns in
    if eq_Bytes n.path m.path
    then record n { base = if ltb m.base n.base then m.base else n.base } ∷ ns
    else n ∷ rest

unfoldable pub parse_lines : List Bytes → List ModuleMapping → List ModuleMapping
unfolding parse_line add_module
parse_lines [] modules = modules
parse_lines (line ∷ lines) modules = elim (parse_line line) [
  | none ↦ parse_lines lines modules
  | some m ↦ parse_lines lines (add_module m modules)
]

-- A carriage return that `str::lines` drops is white and changes no field.
unfoldable pub parse_maps : Bytes → List ModuleMapping
unfolding split parse_lines
parse_maps content = let (first, lines) = split 10 content in parse_lines (first ∷ lines) []
