-- ===== src/Decoder/AsyncRust/ImageTests.antt =====
-- What is read of an image, at small texts and at one program header.
use mirrorscope.Prelude.{◌≡◌, refl, some, ◌∷◌, ◌++◌, replicate, ok}
use mirrorscope.Prelude.Bytes.{le_bytes}
use mirrorscope.Prelude.Text.{codes}
use mirrorscope.Decoder.AsyncRust.Versions.{parse_producer, detect_tokio}
use mirrorscope.Decoder.AsyncRust.Elf.{elf_geometry, first_generic_arg}

rustc_version :
    parse_producer (codes "clang LLVM (rustc version 1.94.0-nightly (deadbeef 2026-03-02))")
    ≡ some (record { major = 1; minor = 94; patch = 0 })
unfolding parse_producer
rustc_version = refl

tokio_version :
    detect_tokio (codes "src/tokio-1.x/tokio-1.44.2/src/lib.rs")
    ≡ some (record { major = 1; minor = 44; patch = 2 })
unfolding detect_tokio
tokio_version = refl

future_name :
    first_generic_arg (codes "poll<a::F<b::G, c::H>, alloc::Arc<d::S>>")
    ≡ some (codes "a::F<b::G, c::H>")
unfolding first_generic_arg
future_name = refl

-- An image with one `PT_LOAD` header, 64 bytes in.
image_geometry :
    elf_geometry (
      0x7f ∷ codes "ELF"
      ++ 2 ∷ 1 ∷ replicate 26 0
      ++ le_bytes 8 64
      ++ replicate 14 0
      ++ le_bytes 2 56
      ++ le_bytes 2 1
      ++ replicate 6 0
      ++ le_bytes 4 1
      ++ replicate 12 0
      ++ le_bytes 8 0x4000
      ++ replicate 32 0)
    ≡ ok (record { tls_align = 8; tls_memsz = 0; min_load = 0x4000 })
unfolding elf_geometry
image_geometry = refl
