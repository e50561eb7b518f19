-- ===== src/Decoder/Go/Offsets.antt =====
-- crates/decoder/src/go/offsets.rs and mod.rs: where the fields of the runtime's structures lie.
use mirrorscope.Prelude.{ℕ, ◌==◌, ◌&&◌, if◌then◌else◌, Option, none, some, Result, ok, ◌>>=◌, ok_or}
use mirrorscope.Prelude.Bytes.{Bytes}
use mirrorscope.Decoder.Go.Version.{GoVersion, detect_in_bytes}

pub data LayoutSource : Type 0 where
  dwarf : LayoutSource
  vendored_for : GoVersion → LayoutSource

pub record GStructOffsets : Type 0 where
  pub goid : ℕ
  pub atomicstatus : ℕ
  pub waitreason : ℕ
  pub stack_lo : ℕ
  pub stack_hi : ℕ
  pub sched_pc : ℕ
  pub sched_sp : ℕ
  pub gopc : ℕ
  pub startpc : ℕ
  pub m : ℕ
  pub parent_goid : Option ℕ

unfoldable pub vendored : GoVersion → Option GStructOffsets
vendored version =
    if version.major == 1 && version.minor == 24
    then some (record {
      goid = 160;
      atomicstatus = 152;
      waitreason = 184;
      stack_lo = 0;
      stack_hi = 8;
      sched_pc = 64;
      sched_sp = 56;
      gopc = 288;
      startpc = 304;
      m = 48;
      parent_goid = some 280;
    })
    else none

unfoldable pub vendored_m_procid : GoVersion → Option ℕ
vendored_m_procid version = if version.major == 1 && version.minor == 24 then some 72 else none

pub record GoLayout : Type 0 where
  pub ptr_size : ℕ
  pub allgs_addr : ℕ
  pub allglen_addr : Option ℕ
  pub load_bias : ℕ
  pub g : GStructOffsets
  pub m_procid : Option ℕ
  pub source : LayoutSource

unfoldable pub slice_len_offset : GoLayout → ℕ
slice_len_offset layout = layout.ptr_size

-- Why the vendored table has no answer; the errors of `object` and of the debug information are
-- left out.
pub data GoDecodeError : Type 0 where
  no_version : GoDecodeError
  no_table : (major minor : ℕ) → GoDecodeError

unfoldable pub resolve_vendored :
    Bytes → Result GoDecodeError (GStructOffsets × Option ℕ × LayoutSource)
unfolding detect_in_bytes vendored vendored_m_procid
resolve_vendored image = do
  version ← ok_or (detect_in_bytes image) no_version
  g ← ok_or (vendored version) (no_table version.major version.minor)
  ok (g, vendored_m_procid version, vendored_for version)
