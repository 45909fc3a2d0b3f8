-- ===== src/Profiler/Readback/Examples.antt =====
-- A profile with two samples of a process that has one file mapped, read back.
use jointprof.Clib.Chars.{is_space, digit_of, digit_char}
use jointprof.Clib.Printf.{format_hex, format_left, write_number, write_digits, write_signed}
use jointprof.Clib.Strto.{
  skip_space, skip_sign, skip_prefix, scan_number, scan_digits, scan, clamp_signed, clamp_unsigned,
  strtoll, strtoull,
}
use jointprof.Maps.Entries.{fields_entry, line_entry, entries}
use jointprof.Maps.File.{File, interrupted, short}
use jointprof.Maps.Format.{permissions, line_text}
use jointprof.Maps.Iterator.{name_offset, make_dev}
use jointprof.Maps.Line.{parse_proc_maps_line}
use jointprof.Maps.Memory.{until_nul}
use jointprof.Maps.Platform.{linux, parse_line}
use jointprof.Maps.Stream.{push_byte, lines}
use jointprof.Maps.Text.{
  extract_until_char, skip_while_whitespace, copy_string_until_char, string_to_integer_until_char,
  string_to_integer_until_char_with_check,
}
use jointprof.Profiler.Defs.{function, zero_action, SigAction, Process, Context}
use jointprof.Profiler.Profile.RoundTrip.{HasWords, session_samples}
use jointprof.Profiler.Profile.{read_profile}
use jointprof.Profiler.Readback.{read_profile-profile}
use jointprof.Profiler.Session.{IsContext, CanStart}
use jointprof.Profiler.Trailer.Listing.{kept}
use jointprof.Profiler.Trailer.{entry_line}
use jointprof.Profiler.Whole.{profile}
use jointprof.Common.{
  ℕ, ◌<◌, ◌≡◌, refl, true, false, none, some, [], ◌∷◌, map, Bytes, codes, length, replicate, pos,
  arith, All,
}

abbrev foreign_action : SigAction
foreign_action = record { handler = function 5; siginfo = false }

abbrev foreign_code : ℕ → SigAction × ℕ → SigAction × ℕ
foreign_code n state = (zero_action, state.1)

abbrev idle_process : Process ℕ
idle_process = record {
  action = foreign_action;
  static_impl = none;
  impls = λ q. record {
    initact = foreign_action;
    oldact = zero_action;
    ofs = record { is_open = false; failed = false; contents = [] };
  };
  live = λ q. true;
  other = 0;
}

idle_process-CanStart : CanStart 3 idle_process
idle_process-CanStart = record {
  idle = refl;
  one_argument = refl;
  not_ours = λ e. cc;
  closed = refl;
  alive = refl;
}

abbrev one_signal : Context
one_signal = record { stack = replicate 66 7; pc = 4096; frames = 4097 ∷ 4098 ∷ [] }

one_signal-IsContext : IsContext one_signal
one_signal-IsContext = record { array = refl; limit = omega arith }

one_signal-HasWords : HasWords one_signal
one_signal-HasWords = record {
  pc_word = omega arith;
  frame_words = (omega arith, (omega arith, tt));
}

abbrev one_line : Bytes
one_line = codes "08048000-0804c000 r-xp 00000000 03:01 3793678    /bin/cat\n"

abbrev own_maps : Bytes → File
own_maps name = record { is_open = true; unread = one_line; script = interrupted ∷ short 9 ∷ [] }

one_mapping :
    entries linux (lines one_line)
    ≡ record {
      start = 0x08048000;
      end = 0x0804c000;
      flags = codes "r-xp";
      offset = 0;
      inode = pos 3793678;
      filename = codes "/bin/cat";
      dev = 769;
      pages = record {
        file_mapping = none;
        file_pages = none;
        anon_mapping = none;
        anon_pages = none;
      };
    }
      ∷ []
unfolding entries line_entry fields_entry parse_line until_nul name_offset make_dev lines push_byte
    parse_proc_maps_line extract_until_char skip_while_whitespace copy_string_until_char
    string_to_integer_until_char string_to_integer_until_char_with_check is_space digit_of
    skip_space skip_sign skip_prefix scan_number scan_digits scan clamp_signed clamp_unsigned
    strtoll strtoull
one_mapping = refl

one_mapping-fits : All (λ e. length (entry_line e) < 1024) (entries linux (lines one_line))
unfolding line_text permissions format_hex format_left write_number write_digits write_signed
    digit_char
one_mapping-fits = rw one_mapping (omega arith, tt)

read_profile-profile_example :
    (p' : Process ℕ) × (maps : Bytes) × (profile foreign_code linux 0
        (pos 9)
        own_maps
        2
        (replicate 1024 0)
        3
        (one_signal ∷ one_signal ∷ [])
        idle_process
      ≡ some p')
    × (read_profile (p'.impls 3).ofs.contents
        ≡ some (record {
          period = 20000;
          samples = session_samples (one_signal ∷ one_signal ∷ []);
          maps = maps;
        }))
    × (entries linux (lines maps) ≡ map kept (entries linux (lines one_line)))
unfolding lines push_byte
read_profile-profile_example =
    read_profile-profile foreign_code 0 (pos 9) own_maps 2 3 (replicate 1024 0)
      (one_signal ∷ one_signal ∷ []) idle_process idle_process-CanStart
      (one_signal-IsContext, (one_signal-IsContext, tt))
      (one_signal-HasWords, (one_signal-HasWords, tt)) refl refl ((λ e. cc), ((λ e. cc), tt))
      (omega arith, tt) one_mapping-fits (omega arith)
