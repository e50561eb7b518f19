-- ===== src/Decoder/AsyncRust/Layout.antt =====
-- crates/decoder/src/async_rust/layout.rs: the layouts of coroutines, and the names of types.
use mirrorscope.Prelude.{
  ℕ, ◌^◌, ◌==◌, if◌then◌else◌, Bool, true, false, Option, none, some, List, [], ◌∷◌, length,
}
use mirrorscope.Prelude.Bytes.{Bytes}
use mirrorscope.Prelude.Maps.{Map, lookup}
use mirrorscope.Prelude.Text.{codes, eq_Bytes, strip_prefix, parse_unsigned}
use mirrorscope.Decoder.Frame.{SourceLocation}

-- The text before the first occurrence of a separator, which is `text.split(sep).next()`.
unfoldable pub before : Bytes → Bytes → Bytes
before sep [] = []
before sep (c ∷ cs) =
    let rest = before sep cs in
    elim (strip_prefix sep (c ∷ cs)) [ some behind ↦ [] | none ↦ c ∷ rest ]

-- The text behind the last occurrence, if there is one.
unfoldable pub behind_last : Bytes → Bytes → Option Bytes
behind_last sep [] = none
behind_last sep (c ∷ cs) =
    let later = behind_last sep cs in
    elim later [ some text ↦ some text | none ↦ strip_prefix sep (c ∷ cs) ]

-- `path.rsplit("::").next()`
unfoldable pub last_component : Bytes → Bytes
unfolding behind_last
last_component path = elim (behind_last (codes "::") path) [ some text ↦ text | none ↦ path ]

pub data VariantKind : Type 0 where
  unresumed returned panicked : VariantKind
  suspend : (n : ℕ) → VariantKind

unfoldable pub from_struct_name : Bytes → Option VariantKind
unfolding parse_unsigned
from_struct_name name =
    if eq_Bytes name (codes "Unresumed")
    then some unresumed
    else if eq_Bytes name (codes "Returned")
    then some returned
    else if eq_Bytes name (codes "Panicked")
    then some panicked
    else elim (strip_prefix (codes "Suspend") name) [
      | none ↦ none
      | some n ↦ elim (parse_unsigned (2 ^ 16) n) [ none ↦ none | some k ↦ some (suspend k) ]
    ]

unfoldable pub is_suspend : VariantKind → Bool
is_suspend (suspend n) = true
is_suspend _ = false

pub record ChildRef : Type 0 where
  pub offset : ℕ
  pub type_name : Bytes

pub record VariantInfo : Type 0 where
  pub kind : VariantKind
  pub await_location : Option SourceLocation
  pub awaitee : Option ChildRef
  pub children : List ChildRef

unfoldable pub terminal : VariantKind → VariantInfo
terminal kind = record { kind = kind; await_location = none; awaitee = none; children = [] }

pub record AsyncFnLayout : Type 0 where
  pub type_name : Bytes
  pub byte_size : ℕ
  pub discr_offset : ℕ
  pub discr_size : ℕ
  pub variants : Map VariantInfo

unfoldable pub variant_for : AsyncFnLayout → ℕ → Option VariantInfo
variant_for layout discr = lookup discr layout.variants

unfoldable pub coroutine_name : Bytes → Bytes
unfolding before last_component
coroutine_name type_name = last_component (before (codes "::{async_fn_env") type_name)

unfoldable pub short_name : AsyncFnLayout → Bytes
unfolding coroutine_name
short_name layout = coroutine_name layout.type_name

-- The registry, with at most one layout for a name.
abbrev pub AsyncLayouts : Type 0
AsyncLayouts = List AsyncFnLayout

unfoldable pub insert_layout : AsyncFnLayout → AsyncLayouts → AsyncLayouts
insert_layout layout [] = layout ∷ []
insert_layout layout (l ∷ ls) =
    let rest = insert_layout layout ls in
    if eq_Bytes l.type_name layout.type_name then layout ∷ ls else l ∷ rest

unfoldable pub get_layout : Bytes → AsyncLayouts → Option AsyncFnLayout
get_layout type_name [] = none
get_layout type_name (l ∷ ls) =
    let rest = get_layout type_name ls in if eq_Bytes l.type_name type_name then some l else rest

unfoldable pub is_coroutine : Bytes → AsyncLayouts → Bool
unfolding get_layout
is_coroutine type_name layouts = elim (get_layout type_name layouts) [
  | none ↦ false
  | some layout ↦ true
]

unfoldable pub layout_count : AsyncLayouts → ℕ
layout_count layouts = length layouts

unfoldable pub has_no_layouts : AsyncLayouts → Bool
has_no_layouts layouts = length layouts == 0
