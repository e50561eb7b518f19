-- ===== src/Unwind/Tests.antt =====
-- Two modules among mappings of other kinds.
use mirrorscope.Prelude.{◌≡◌, refl, [], ◌∷◌, ◌++◌}
use mirrorscope.Prelude.Text.{codes}
use mirrorscope.Unwind.Maps.{parse_maps}

two_modules :
    parse_maps (
      codes "7000-8000 r--p 00000000 08:01 100  /usr/bin/app"
      ++ 10 ∷ codes "8000-9000 r-xp 00001000 08:01 100  /usr/bin/app"
      ++ 10 ∷ codes "6000-7000 r--p 00000000 08:01 100  /usr/bin/app"
      ++ 10 ∷ codes "f000-ff00 r--p 00000000 08:01 200  /lib/a b.so"
      ++ 10 ∷ codes "7ffca1b2c000-7ffca1b4d000 rw-p 00000000 00:00 0    [stack]"
      ++ 10 ∷ [])
    ≡ record { path = codes "/usr/bin/app"; base = 0x6000 }
      ∷ record { path = codes "/lib/a b.so"; base = 0xf000 }
      ∷ []
unfolding parse_maps
two_modules = refl
