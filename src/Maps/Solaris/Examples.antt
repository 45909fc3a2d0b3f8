-- ===== src/Maps/Solaris/Examples.antt =====
-- The listing on Solaris, at a file of two structures with a small layout.
use jointprof.Maps.File.{File}
use jointprof.Maps.Solaris.Laws.{before_maps, encoded, next_ext_solaris-overrun}
use jointprof.Maps.Solaris.{Prmap, overrun, next_ext_solaris}
use jointprof.Common.{
  ℕ, ◌≡◌, refl, true, Option, some, [], ◌∷◌, Bytes, get_or, replicate, codes, pos, arith,
}

-- A layout that keeps the address alone, of one byte.
abbrev some_map : ℕ → Prmap
some_map n = record { vaddr = n; size = 4096; mapname = codes "a.out"; offset = 0; mflags = 5 }

-- A link that has this path.
abbrev one_link : Bytes → Option Bytes
one_link path = some (codes "/usr/bin/R")

abbrev decode_map : Bytes → Prmap
decode_map bytes = some_map (get_or bytes 0 0)

abbrev encode_map : Prmap → Bytes
encode_map m = m.vaddr ∷ []

abbrev two_maps : Bytes → File
two_maps name = record {
  is_open = true;
  unread = encoded encode_map (some_map 16 ∷ some_map 32 ∷ []);
  script = [];
}

-- A link whose path is as long as PATH_MAX, which is 8 here.
abbrev long_link : Bytes → Option Bytes
long_link path = some (replicate 8 b'a')

next_ext_solaris-overrun_example :
    next_ext_solaris 8 1 decode_map long_link
      (before_maps 8 1 decode_map long_link encode_map (pos 0) [] (some_map 16 ∷ []))
    ≡ overrun
next_ext_solaris-overrun_example =
    next_ext_solaris-overrun 8 1 decode_map long_link encode_map (pos 0) [] (replicate 8 b'a')
      (some_map 16) [] (refl, refl) refl (omega arith)
