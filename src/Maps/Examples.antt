-- ===== src/Maps/Examples.antt =====
-- The theorems on the listing of memory maps, at concrete lines, files and iterators.
use jointprof.Clib.Chars.{is_space}
use jointprof.Maps.Backing.Laws.{pages_text}
use jointprof.Maps.Backing.Taken.{take_backing-pages_text}
use jointprof.Maps.Entries.{first_entry}
use jointprof.Maps.File.{File, interrupted, short}
use jointprof.Maps.Format.{permissions, line_text}
use jointprof.Maps.Init.{k_buf_size, init, init-Ready}
use jointprof.Maps.Iterator.Advance.{Advances, advance-AtLine}
use jointprof.Maps.Iterator.Fill.{Filled, fill-Filled}
use jointprof.Maps.Iterator.Next.{text_ahead, Ready}
use jointprof.Maps.Iterator.Refine.{Agrees, next_ext-Agrees}
use jointprof.Maps.Iterator.{
  Iterator, Entry, Outcome, entry, finished, fault, no_fuel, fill, take_backing, next_ext,
}
use jointprof.Maps.Lifetime.{destroy, construct_backed, after_next, calls}
use jointprof.Maps.Lifetime.Laws.{construct-destroy}
use jointprof.Maps.Line.{parse_proc_maps_line}
use jointprof.Maps.Platform.{linux}
use jointprof.Maps.RoundTrip.{parse-line_text}
use jointprof.Maps.Similar.{similar_line, parse-similar_line}
use jointprof.Maps.Stream.{push_byte, lines}
use jointprof.Common.{
  ◌++◌, ℕ, Option, none, List, ◌-◌, ◌/◌, ◌%◌, ◌^◌, ◌≡◌, refl, ap, ◌∙◌, false, true, some, [], ◌∷◌,
  Bytes, codes, length, drop, replicate, pos, arith,
}

parse-line_text_example :
    let text =
      line_text 134512640 134529024 (some (codes "r-xp")) 0 (pos 3793678) (codes "/bin/cat") 769 in
    (parse_proc_maps_line text
      ≡ some (record {
        start = 134512640;
        end = 134529024;
        flags = permissions (some (codes "r-xp"));
        offset = 0;
        major = pos (769 / 256 % 2 ^ 32);
        minor = pos (769 % 256);
        inode = pos 3793678;
        filename_offset = length text - length (codes "/bin/cat");
      }))
    × (drop (length text - length (codes "/bin/cat")) text ≡ codes "/bin/cat")
unfolding is_space
parse-line_text_example =
    parse-line_text 134512640 134529024 0 769 (some (codes "r-xp")) (pos 3793678) (codes "/bin/cat")
      (omega arith) (omega arith) (omega arith) (omega arith) (omega arith) refl

-- A file of two lines, read in pieces.
abbrev two_lines : Bytes
two_lines =
    codes
      "08048000-0804c000 r-xp 00000000 03:01 3793678    /bin/cat\n0804c000-0804d000 rw-p 00003000 03:01 3793678    /bin/cat\n"

abbrev maps_file : Bytes → File
maps_file name = record { is_open = true; unread = two_lines; script = interrupted ∷ short 9 ∷ [] }

abbrev empty_buffer : Bytes
empty_buffer = replicate 1024 0

abbrev new_iterator : Iterator
new_iterator = init linux 0 (pos 9) maps_file empty_buffer (pos 0) false

init-Ready_example :
    Ready (k_buf_size linux 0 - 1) new_iterator [] × (new_iterator.fd.unread ≡ two_lines)
unfolding lines push_byte
init-Ready_example =
    init-Ready linux 0 (pos 9) maps_file empty_buffer refl refl ((λ e. cc), ((λ e. cc), tt))
      (omega arith, (omega arith, tt))

new_iterator-Ready : Ready 1023 new_iterator [] × (new_iterator.fd.unread ≡ two_lines)
unfolding lines push_byte
new_iterator-Ready =
    init-Ready linux 0 (pos 9) maps_file empty_buffer refl refl ((λ e. cc), ((λ e. cc), tt))
      (omega arith, (omega arith, tt))

two_ahead : length (lines two_lines) ≡ 2
unfolding lines push_byte
two_ahead = refl

few_ahead : length (lines (text_ahead new_iterator [])) ≡ 2
few_ahead = ap (λ t. length (lines t)) new_iterator-Ready.1 ∙ two_ahead

next_ext-Agrees_example :
    Agrees 1023
      (next_ext linux 3 new_iterator)
      (first_entry linux (lines (text_ahead new_iterator [])))
next_ext-Agrees_example =
    next_ext-Agrees linux 3 1023 new_iterator [] (omega arith) new_iterator-Ready.0
      (omega (arith, few_ahead))

advance-AtLine_example : Advances new_iterator []
advance-AtLine_example = advance-AtLine new_iterator [] new_iterator-Ready.0.holds

fill-Filled_example :
    Filled
      (codes "a")
      (0 ∷ 0 ∷ 0 ∷ [])
      3
      (maps_file [])
      (fill 2 3 (97 ∷ 0 ∷ 0 ∷ 0 ∷ []) 1 (some 0) (maps_file []))
fill-Filled_example =
    fill-Filled 2 (codes "a") (0 ∷ 0 ∷ 0 ∷ []) 1 3 (some 0) (maps_file []) refl (omega arith)
      (omega arith) refl

-- The iterator after a call that ends without a fault.
abbrev otherwise : Iterator → Option Iterator → Iterator
otherwise it none = it
otherwise it (some it') = it'

Agrees-after_next :
    (size : ℕ) (it : Iterator) (outcome : Outcome) (first : Option (Entry × List Bytes))
    → Agrees size outcome first
    → after_next outcome ≡ some (otherwise it (after_next outcome))
unfolding after_next
Agrees-after_next size it (entry e it') first a = refl
Agrees-after_next size it (finished it') first a = refl
Agrees-after_next size it fault (some f) a = elim a [ ]
Agrees-after_next size it fault none a = elim a [ ]
Agrees-after_next size it no_fuel (some f) a = elim a [ ]
Agrees-after_next size it no_fuel none a = elim a [ ]

abbrev used_iterator : Iterator
used_iterator = otherwise new_iterator (after_next (next_ext linux 3 new_iterator))

called_once : calls linux (3 ∷ []) new_iterator ≡ some used_iterator
unfolding calls
called_once =
    ap (λ o. elim o [ none ↦ none | some it' ↦ calls linux [] it' ])
      (Agrees-after_next 1023 new_iterator (next_ext linux 3 new_iterator)
        (first_entry linux (lines (text_ahead new_iterator []))) next_ext-Agrees_example)

construct-destroy_example :
    destroy
      (record { iterator = used_iterator; dynamic_buffer = true })
      (construct_backed linux 0
        (pos 9)
        maps_file
        (pos 0)
        none
        false
        empty_buffer
        (record { descriptors = 2; buffers = 0 })).1
    ≡ record { descriptors = 2; buffers = 0 }
unfolding construct_backed
construct-destroy_example =
    construct-destroy linux 0 (pos 9) maps_file (pos 0) none false empty_buffer
      (record { descriptors = 2; buffers = 0 }) (3 ∷ []) used_iterator called_once

-- A line whose file name holds parentheses, with its page counts.
abbrev deleted_name : Bytes
deleted_name = codes "8048000-804c000 r-xp 0 3:1 7 /bin/cat (deleted)"

abbrev backed_iterator : Iterator
backed_iterator = record new_iterator {
  ibuf = deleted_name ++ (b' ' ∷ b'(' ∷ (pages_text 4096 3 0 1 ++ (0 ∷ 65 ∷ [])));
  stext = 0;
  using_maps_backing = true;
}

take_backing-pages_text_example : take_backing backed_iterator 0 ≡ (
  deleted_name ++ (0 ∷ b'(' ∷ (pages_text 4096 3 0 1 ++ (0 ∷ 65 ∷ []))),
  record {
    file_mapping = some 4096;
    file_pages = some 3;
    anon_mapping = some 0;
    anon_pages = some 1;
  },
)
take_backing-pages_text_example =
    take_backing-pages_text backed_iterator [] deleted_name (65 ∷ []) 4096 3 0 1 refl refl
      (omega arith) (omega arith) (omega arith) (omega arith) (omega arith) (omega arith)

parse-similar_line_example :
    let text =
      line_text 134512640 134529024 (some (codes "r-xp")) 0 (pos 3793678) (codes "/bin/cat") 769 in
    parse_proc_maps_line text ≡ similar_line text
unfolding is_space
parse-similar_line_example =
    parse-similar_line 134512640 134529024 0 769 (some (codes "r-xp")) (pos 3793678)
      (codes "/bin/cat") (omega arith) (omega arith) (omega arith) (omega arith) (omega arith) refl
