-- ===== src/Profiler/Trailer/Examples.antt =====
-- The loop of write_trailer on a file whose second read fails.
use jointprof.Maps.Entries.{entries}
use jointprof.Maps.File.Laws.{Fails}
use jointprof.Maps.File.{File, failed, short}
use jointprof.Maps.Init.{k_buf_size}
use jointprof.Maps.Iterator.Pieces.{Pieces}
use jointprof.Maps.Platform.{linux}
use jointprof.Profiler.Trailer.Pieces.{trailer_maps-Pieces}
use jointprof.Profiler.Trailer.{entries_text, trailer_maps}
use jointprof.Common.{
  ◌≡◌, refl, ◌⊎◌, true, some, List, [], ◌∷◌, Bytes, codes, replicate, pos, arith,
}

abbrev one_line : Bytes
one_line = codes "08048000-0804c000 r-xp 00000000 03:01 3793678    /bin/cat\n"

abbrev failing_file : File
failing_file = record { is_open = true; unread = one_line; script = short 9 ∷ failed ∷ [] }

abbrev maps_file : Bytes → File
maps_file name = failing_file

abbrev empty_buffer : Bytes
empty_buffer = replicate 1024 0

trailer_maps-Pieces_example :
    (pieces : List Bytes) × (left : Bytes) × Pieces (Fails failing_file) 1023 one_line pieces left
    × (Fails failing_file ⊎ (left ≡ []))
    × (trailer_maps linux 0 (pos 9) maps_file 60 empty_buffer
        ≡ some (entries_text (k_buf_size linux 0) (entries linux pieces)))
trailer_maps-Pieces_example =
    trailer_maps-Pieces linux 0 (pos 9) maps_file 60 empty_buffer refl (omega arith)
