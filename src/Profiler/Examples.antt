-- ===== src/Profiler/Examples.antt =====
-- The theorems on the profiler, at concrete processes.
use jointprof.Maps.Entries.{entries}
use jointprof.Maps.File.{File, interrupted, short}
use jointprof.Maps.Init.{k_buf_size}
use jointprof.Maps.Platform.{linux}
use jointprof.Maps.Stream.{push_byte, lines}
use jointprof.Profiler.Again.{sessions, construct-sessions}
use jointprof.Profiler.Defs.{
  static_handler, function, zero_action, SigAction, Process, already_running, cannot_create,
  header_words, trailer_words, sigprof, Context, begin, construct, destruct, is_running, start,
  stop, static_handle,
}
use jointprof.Profiler.Guards.{
  Outside, start-Outside, stop-start, static_handle-Outside, destruct-static_handle,
  write_stack_trace-garbage,
}
use jointprof.Profiler.Profile.{read_profile}
use jointprof.Profiler.Profile.RoundTrip.{HasWords, session_samples, read_profile-session}
use jointprof.Profiler.Race.{
  KeepsAction, interrupted_begin, interrupted_begin-begin, interrupted_stop,
}
use jointprof.Profiler.Race.Writes.{joined, interrupted_stop-stop}
use jointprof.Profiler.Session.{
  IsContext, Running, CanStart, samples_bytes, static_handle-Running, session, session_lem,
}
use jointprof.Profiler.Trace.Laws.{sample, recorded, write_stack_trace-sample}
use jointprof.Profiler.Trace.{write_stack_trace}
use jointprof.Profiler.Trailer.{entries_text, trailer_maps, trailer_maps-entries_text}
use jointprof.Clib.Chars.{digit_char, is_space}
use jointprof.Clib.Printf.{format_hex, format_left, write_number, write_digits, write_signed}
use jointprof.Maps.Backing.{no_pages}
use jointprof.Maps.Format.{line_text, permissions}
use jointprof.Maps.Iterator.{Entry}
use jointprof.Profiler.Trailer.Listing.{IsMapping, kept, entries-entries_text}
use jointprof.Profiler.Whole.{profile, profile_lem}
use jointprof.Profiler.Words.{words_bytes}
use jointprof.Common.{
  ℕ, ◌+◌, ◌≡◌, refl, true, false, none, some, List, [], ◌∷◌, ◌++◌, Bytes, codes, replicate, pos,
  arith,
}

-- A handler of other code that takes one argument.
abbrev foreign_action : SigAction
foreign_action = record { handler = function 5; siginfo = false }

abbrev foreign_code : ℕ → SigAction × ℕ → SigAction × ℕ
foreign_code n state = (zero_action, state.1)

-- Before the object 3 is made, and while it profiles.
abbrev idle_process : Process ℕ
idle_process = record {
  action = foreign_action;
  static_impl = none;
  impls = λ q. record {
    initact = foreign_action;
    oldact = zero_action;
    ofs = record { is_open = false; failed = false; contents = [] };
  };
  live = λ q. true;
  other = 0;
}

abbrev busy_process : Process ℕ
busy_process = record {
  action = record { handler = static_handler; siginfo = true };
  static_impl = some 3;
  impls = λ q. record {
    initact = foreign_action;
    oldact = foreign_action;
    ofs = record { is_open = true; failed = false; contents = [] };
  };
  live = λ q. true;
  other = 0;
}

idle-CanStart : CanStart 3 idle_process
idle-CanStart = record {
  idle = refl;
  one_argument = refl;
  not_ours = λ e. cc;
  closed = refl;
  alive = refl;
}

busy-Running : Running 3 [] busy_process
busy-Running = record {
  published = refl;
  alive = refl;
  installed = refl;
  stream = refl;
  chained = λ e. cc;
}

-- A signal with two frames.
abbrev one_signal : Context
one_signal = record { stack = replicate 66 7; pc = 4096; frames = 4097 ∷ 4098 ∷ [] }

one_signal-IsContext : IsContext one_signal
one_signal-IsContext = record { array = refl; limit = omega arith }

one_signal-HasWords : HasWords one_signal
one_signal-HasWords = record {
  pc_word = omega arith;
  frame_words = (omega arith, (omega arith, tt));
}

-- The maps of a process that has one file mapped, read in pieces.
abbrev one_line : Bytes
one_line = codes "08048000-0804c000 r-xp 00000000 03:01 3793678    /bin/cat\n"

abbrev maps_file : Bytes → File
maps_file name = record { is_open = true; unread = one_line; script = interrupted ∷ short 9 ∷ [] }

abbrev empty_buffer : Bytes
empty_buffer = replicate 1024 0

profile_lem_example :
    (p' : Process ℕ) × (profile foreign_code linux 0
        (pos 9)
        maps_file
        2
        empty_buffer
        3
        (one_signal ∷ one_signal ∷ [])
        idle_process
      ≡ some p')
    × ((p'.impls 3).ofs ≡ record {
      is_open = false;
      failed = false;
      contents =
          words_bytes header_words
          ++ (samples_bytes (one_signal ∷ one_signal ∷ [])
              ++ (words_bytes trailer_words
                  ++ entries_text (k_buf_size linux 0) (entries linux (lines one_line))));
    })
    × (p'.action ≡ foreign_action)
    × (p'.static_impl ≡ none)
unfolding lines push_byte
profile_lem_example =
    profile_lem foreign_code linux 0 (pos 9) maps_file 2 3 empty_buffer
      (one_signal ∷ one_signal ∷ []) idle_process idle-CanStart
      (one_signal-IsContext, (one_signal-IsContext, tt)) refl refl ((λ e. cc), ((λ e. cc), tt))
      (omega arith, tt) (omega arith)

trailer_maps-entries_text_example :
    trailer_maps linux 0 (pos 9) maps_file 2 empty_buffer
    ≡ some (entries_text (k_buf_size linux 0) (entries linux (lines one_line)))
unfolding lines push_byte
trailer_maps-entries_text_example =
    trailer_maps-entries_text linux 0 (pos 9) maps_file 2 empty_buffer refl refl
      ((λ e. cc), ((λ e. cc), tt)) (omega arith, tt) (omega arith)

read_profile-session_example :
    (p' : Process ℕ) × (session foreign_code 3 (codes "maps") (one_signal ∷ []) idle_process
      ≡ some p')
    × (read_profile (p'.impls 3).ofs.contents
        ≡ some (record {
          period = 20000;
          samples = session_samples (one_signal ∷ []);
          maps = codes "maps";
        }))
read_profile-session_example =
    read_profile-session foreign_code 3 (codes "maps") (one_signal ∷ []) idle_process idle-CanStart
      (one_signal-IsContext, tt) (one_signal-HasWords, tt)

session_lem_example :
    (p' : Process ℕ) × (session foreign_code 3 (codes "maps") (one_signal ∷ []) idle_process
      ≡ some p')
    × ((p'.impls 3).ofs ≡ record {
      is_open = false;
      failed = false;
      contents =
          words_bytes header_words
          ++ (samples_bytes (one_signal ∷ []) ++ (words_bytes trailer_words ++ codes "maps"));
    })
    × (p'.action ≡ foreign_action)
    × (p'.static_impl ≡ none)
    × ((start true 3 idle_process).1 ≡ none)
session_lem_example =
    session_lem foreign_code 3 (codes "maps") (one_signal ∷ []) idle_process idle-CanStart
      (one_signal-IsContext, tt)

abbrev two_runs : List (Bytes × List Context)
two_runs = (codes "maps", one_signal ∷ []) ∷ (codes "more", []) ∷ []

construct-sessions_example :
    (p' : Process ℕ) × (sessions foreign_code 3 two_runs (construct 3 idle_process) ≡ some p')
    × CanStart 3 p'
    × (p'.action ≡ foreign_action)
construct-sessions_example =
    construct-sessions foreign_code 3 two_runs idle_process refl
      (record { one_argument = refl; not_ours = λ e. cc }) ((one_signal-IsContext, tt), (tt, tt))

write_stack_trace-sample_example :
    write_stack_trace (7 ∷ 8 ∷ replicate 64 0) 4096 (4097 ∷ 4098 ∷ [])
    ≡ some (sample (recorded 7 8 4096 (4097 ∷ 4098 ∷ [])))
write_stack_trace-sample_example =
    write_stack_trace-sample 7 8 (replicate 64 0) 4096 (4097 ∷ 4098 ∷ []) refl (omega arith)

write_stack_trace-garbage_example :
    (write_stack_trace (7 ∷ 8 ∷ replicate 64 0) 4096 (4096 ∷ 4098 ∷ [])
      ≡ some (sample (4096 ∷ 4096 ∷ 4098 ∷ [])))
    × (write_stack_trace (7 ∷ 7 ∷ replicate 64 0) 4096 (4097 ∷ 4098 ∷ [])
        ≡ some (sample (4097 ∷ 4098 ∷ [])))
write_stack_trace-garbage_example =
    write_stack_trace-garbage 7 8 (replicate 64 0) 4096 4097 (4098 ∷ []) (λ e. cc) refl
      (omega arith)

static_handle-Outside_example :
    Outside 3 busy_process
      (static_handle-Running foreign_code 3 [] one_signal busy_process busy-Running
        one_signal-IsContext).0
static_handle-Outside_example =
    static_handle-Outside foreign_code 3 sigprof one_signal busy_process _ refl
      (static_handle-Running foreign_code 3 [] one_signal busy_process busy-Running
        one_signal-IsContext).1

start-Outside_example : Outside 4 busy_process (start true 4 busy_process).0
unfolding start is_running
start-Outside_example = start-Outside true 4 busy_process already_running refl

stop-start_example : (start true 3 (stop (codes "maps") 4 busy_process)).1 ≡ some cannot_create
stop-start_example = stop-start true 3 4 [] (codes "maps") busy_process busy-Running (λ e. cc) refl

destruct-static_handle_example :
    static_handle foreign_code sigprof one_signal (destruct 3 busy_process) ≡ none
destruct-static_handle_example =
    destruct-static_handle foreign_code 3 sigprof [] one_signal busy_process busy-Running

-- Code whose handler counts its calls.
abbrev counting_code : ℕ → SigAction × ℕ → SigAction × ℕ
counting_code n (action, calls) = (action, calls + 1)

counting_code-KeepsAction : KeepsAction counting_code
counting_code-KeepsAction n action calls = refl

interrupted_begin-begin_example :
    (other : ℕ) × (interrupted_begin counting_code
        (one_signal ∷ [])
        (one_signal ∷ [])
        (one_signal ∷ [])
        3
        (idle_process.impls 3)
        idle_process
      ≡ some (record (begin 3 (idle_process.impls 3) idle_process) { other = other }))
interrupted_begin-begin_example =
    interrupted_begin-begin counting_code counting_code-KeepsAction (one_signal ∷ [])
      (one_signal ∷ []) (one_signal ∷ []) 3 (idle_process.impls 3) idle_process tt refl

-- Two texts of maps, with a signal behind the first.
abbrev two_writes : List (Bytes × List Context)
two_writes = (codes "ma", one_signal ∷ []) ∷ (codes "ps", []) ∷ []

interrupted_stop-stop_example :
    (other : ℕ) × (interrupted_stop counting_code
        (one_signal ∷ [])
        []
        (one_signal ∷ [])
        two_writes
        (one_signal ∷ [])
        3
        busy_process
      ≡ some
          (record (stop (joined (codes "ma" ∷ codes "ps" ∷ [])) 3 busy_process) { other = other }))
interrupted_stop-stop_example =
    interrupted_stop-stop counting_code counting_code-KeepsAction 3 (one_signal ∷ []) []
      (one_signal ∷ []) two_writes (one_signal ∷ []) busy_process tt

-- A mapping of a program.
abbrev cat_mapping : Entry
cat_mapping = record {
  start = 134512640;
  end = 134529024;
  flags = codes "r-xp";
  offset = 0;
  inode = pos 3793678;
  filename = codes "/bin/cat";
  dev = 769;
  pages = no_pages;
}

cat_mapping-IsMapping : IsMapping 5120 cat_mapping
unfolding line_text permissions format_hex format_left write_number write_digits write_signed
    digit_char is_space
cat_mapping-IsMapping = record {
  start = omega arith;
  end = omega arith;
  offset = omega arith;
  inode = omega arith;
  plain = omega arith;
  dark = refl;
  fits = omega arith;
}

entries-entries_text_example :
    entries linux (lines (entries_text 5120 (cat_mapping ∷ cat_mapping ∷ [])))
    ≡ kept cat_mapping ∷ kept cat_mapping ∷ []
entries-entries_text_example =
    entries-entries_text 5120 (cat_mapping ∷ cat_mapping ∷ [])
      (cat_mapping-IsMapping, (cat_mapping-IsMapping, tt))
