-- ===== src/Replay/Watchpoint/Encoding.antt =====
-- What the hardware reads in the words of crates/replay/src/watchpoint.rs.
use Prim.Native.Nat.{bit_or}
use mirrorscope.Prelude.{
  ==_iff, le→leb, ◌∙◌, true, Bool, not, ◌||◌, ◌^◌, if◌then◌else◌, ◌==◌, ℕ, ◌+◌, ◌*◌, ◌%◌, ◌/◌, ◌≤◌,
  ◌<◌, ◌≡◌, ◌↔◌, ◌⊎◌, inl, inr, arith, ltb, leb, ◌&&◌, ok,
}
use mirrorscope.Prelude.Bits.{bit, field, every_below, every_below_lem, eq_Bool, eq_Bool→eq}
use mirrorscope.Replay.Watchpoint.{
  WatchKind, write, read_write, validate, x86_rw_bits, x86_dr7, aarch64_bas, aarch64_lsc,
  aarch64_control,
}

-- The lengths that debug registers watch.
abbrev pub IsLen : ℕ → Type 0
IsLen len = (len ≡ 1) ⊎ (len ≡ 2) ⊎ (len ≡ 4) ⊎ (len ≡ 8)

-- `validate` accepts a watchpoint exactly if its length is 1, 2, 4 or 8 and its address a multiple
-- of that length.
pub validate_iff : (addr len : ℕ) → (validate addr len ≡ ok tt) ↔ (IsLen len × (addr % len ≡ 0))
unfolding validate
validate_iff addr len = (λ h. ground arith, λ h. ground arith)

-- The number of bytes that a LEN field of DR7 stands for (Intel's manual, volume 3, 17.2.4).
abbrev pub hw_len : ℕ → ℕ
hw_len code = if code == 0 then 1 else if code == 1 then 2 else if code == 2 then 8 else 4

-- The access field of DR7 (the same section): 01 traps on writes, 11 on reads and writes.
abbrev pub hw_access : WatchKind → ℕ
hw_access write = 1
hw_access read_write = 3

-- Of the word that `x86_dr7` returns the processor enables slot 0, traps on writes (01) or on reads
-- and writes (11), as asked for, and watches exactly `len` bytes; no other bit is set.
pub x86_dr7_fields :
    (kind : WatchKind) (len dr7 : ℕ)
    → x86_dr7 kind len ≡ ok dr7
    → (bit dr7 0 ≡ true)
      × (field dr7 1 15 ≡ 0)
      × (field dr7 16 2 ≡ hw_access kind)
      × (hw_len (field dr7 18 2) ≡ len)
      × (dr7 < 2 ^ 20)
unfolding x86_dr7 x86_rw_bits
x86_dr7_fields write len dr7 h = ground arith
x86_dr7_fields read_write len dr7 h = ground arith

-- The low five bits of DBGWCR_EL1 (Arm's manual): enabled (bit 0), for EL0 (bits 2:1 are 10),
-- and in bits 4:3 the accesses, 10 for stores and 11 for loads and stores.
abbrev pub hw_control : WatchKind → ℕ
hw_control write = 21
hw_control read_write = 29

-- The control word of aarch64 for a watchpoint `offset` bytes into its granule.
abbrev control_of : ℕ → ℕ → WatchKind → ℕ
control_of offset len kind =
    bit_or (bit_or (bit_or 1 (2 * 2)) (aarch64_lsc kind * 2 ^ 3))
      (aarch64_bas offset len * 2 ^ 5 % 2 ^ 32)

abbrev control_ok : WatchKind → ℕ → ℕ → Bool
control_ok kind len offset =
    not (leb (offset + len) 8)
    || (every_below
          (λ i.
            eq_Bool (bit (control_of offset len kind) (5 + i))
              (leb offset i && ltb i (offset + len)))
          8
        && (field (control_of offset len kind) 0 5 == hw_control kind))

control_table :
    (kind : WatchKind) (len : ℕ) → IsLen len → every_below (control_ok kind len) 8 ≡ true
unfolding every_below aarch64_lsc aarch64_bas
control_table write len (inl e) = rw e
control_table write len (inr (inl e)) = rw e
control_table write len (inr (inr (inl e))) = rw e
control_table write len (inr (inr (inr e))) = rw e
control_table read_write len (inl e) = rw e
control_table read_write len (inr (inl e)) = rw e
control_table read_write len (inr (inr (inl e))) = rw e
control_table read_write len (inr (inr (inr e))) = rw e

mod_mod : (addr : ℕ) → addr % 8 % 8 ≡ addr % 8
mod_mod addr = omega arith

fits_granule : (addr len : ℕ) → IsLen len → addr % len ≡ 0 → addr % 8 + len ≤ 8
fits_granule addr len (inl e) h = omega arith
fits_granule addr len (inr (inl e)) h = omega (arith, rw e at h)
fits_granule addr len (inr (inr (inl e))) h = omega (arith, rw e at h)
fits_granule addr len (inr (inr (inr e))) h = omega (arith, rw e at h)

row_parts : (a b c : Bool) → (not a || (b && c)) ≡ true → a ≡ true → (b ≡ true) × (c ≡ true)
row_parts a b c h k = ground arith

aarch64_control_lem :
    (addr len : ℕ) (kind : WatchKind)
    → IsLen len
    → aarch64_control addr len kind ≡ ok (addr / 8 * 8, control_of (addr % 8) len kind)
unfolding aarch64_control aarch64_bas
aarch64_control_lem addr len kind (inl e) = rw (e, mod_mod addr)
aarch64_control_lem addr len kind (inr (inl e)) = rw (e, mod_mod addr)
aarch64_control_lem addr len kind (inr (inr (inl e))) = rw (e, mod_mod addr)
aarch64_control_lem addr len kind (inr (inr (inr e))) = rw (e, mod_mod addr)

-- On aarch64 a watchpoint that `validate` accepts gets an address aligned to its 8-byte granule and
-- a control word that is enabled, for EL0, and for stores (10) or for loads and stores (11), as
-- asked for, and whose byte select has bit `i` set exactly if byte `i` of the granule is one of the
-- watched bytes.
pub aarch64_control_covers :
    (addr len i : ℕ) (kind : WatchKind)
    → validate addr len ≡ ok tt
    → i < 8
    → (aligned ctrl : ℕ) × (aarch64_control addr len kind ≡ ok (aligned, ctrl))
      × (aligned % 8 ≡ 0)
      × (field ctrl 0 5 ≡ hw_control kind)
      × (bit ctrl (5 + i) ≡ (leb addr (aligned + i) && ltb (aligned + i) (addr + len)))
aarch64_control_covers addr len i kind v small = (
  addr / 8 * 8,
  control_of (addr % 8) len kind,
  aarch64_control_lem addr len kind is_len,
  omega arith,
  (==_iff _ _).0 parts.1,
  eq_Bool→eq _ _ (every_below_lem _ 8 i small parts.0) ∙ same_bytes,
)
  where
    is_len : IsLen len
    is_len = ((validate_iff addr len).0 v).0

    row : control_ok kind len (addr % 8) ≡ true
    row =
        every_below_lem (control_ok kind len) 8 (addr % 8) (omega arith)
          (control_table kind len is_len)

    fits : addr % 8 + len ≤ 8
    fits = fits_granule addr len is_len ((validate_iff addr len).0 v).1

    parts :
        (every_below
            (λ n.
              eq_Bool
                (bit (control_of (addr % 8) len kind) (5 + n))
                (leb (addr % 8) n && ltb n (addr % 8 + len)))
            8
          ≡ true)
        × ((field (control_of (addr % 8) len kind) 0 5 == hw_control kind) ≡ true)
    parts = row_parts (leb (addr % 8 + len) 8) _ _ row (le→leb (addr % 8 + len) 8 fits)

    same_bytes :
        (leb (addr % 8) i && ltb i (addr % 8 + len))
        ≡ (leb addr (addr / 8 * 8 + i) && ltb (addr / 8 * 8 + i) (addr + len))
    same_bytes = ground arith
