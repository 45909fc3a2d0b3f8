-- ===== src/Profiler/Threads/Examples.antt =====
-- A handler and stop, where the object 3 profiles and the maps have one line.
use jointprof.Profiler.Defs.{
  static_handler, function, zero_action, SigAction, Process, Context, update,
}
use jointprof.Profiler.Machine.Stuck.{AllRefused}
use jointprof.Maps.Memory.{store}
use jointprof.Profiler.Trace.{write_stack_trace, write_sample}
use jointprof.Profiler.Race.{write_chunk, unpublish, restore}
use jointprof.Profiler.Session.{IsContext, Running}
use jointprof.Profiler.Threads.{
  returned, null_call, stopped, Threads, Turn, handler_turn, stop_turn, run, turn, handler_step,
  stop_step, trailer_writes, call_old, ends, fault, data_race, both_enter,
}
use jointprof.Profiler.Threads.Late.{late_turns, null_turns, late_handler}
use jointprof.Common.{
  ℕ, ◌≡◌, Bool, refl, true, false, none, some, List, [], ◌∷◌, Bytes, codes, replicate, arith,
}

abbrev foreign_action : SigAction
foreign_action = record { handler = function 5; siginfo = false }

abbrev foreign_code : ℕ → SigAction × ℕ → SigAction × ℕ
foreign_code n state = (zero_action, state.1)

abbrev busy_process : Process ℕ
busy_process = record {
  action = record { handler = static_handler; siginfo = true };
  static_impl = some 3;
  impls = λ q. record {
    initact = foreign_action;
    oldact = foreign_action;
    ofs = record { is_open = true; failed = false; contents = [] };
  };
  live = λ q. true;
  other = 0;
}

busy-Running : Running 3 [] busy_process
busy-Running = record {
  published = refl;
  alive = refl;
  installed = refl;
  stream = refl;
  chained = λ e. cc;
}

abbrev one_signal : Context
one_signal = record { stack = replicate 66 7; pc = 4096; frames = 4097 ∷ 4098 ∷ [] }

one_signal-IsContext : IsContext one_signal
one_signal-IsContext = record { array = refl; limit = omega arith }

abbrev maps : List Bytes
maps = codes "00400000-00452000 r-xp\n" ∷ []

-- The sample is written between the words of the trailer and the line of the maps.
abbrev mixed_turns : List Turn
mixed_turns =
    handler_turn ∷ handler_turn ∷ stop_turn ∷ stop_turn ∷ stop_turn ∷ stop_turn ∷ handler_turn
    ∷ handler_turn ∷ stop_turn ∷ stop_turn ∷ handler_turn ∷ handler_turn ∷ stop_turn ∷ stop_turn
    ∷ handler_turn ∷ []

-- That schedule comes to its end.
mixed_ends : Bool
mixed_ends = elim (run foreign_code one_signal 3 maps mixed_turns (both_enter busy_process)) [
  | ends s ↦ true
  | fault ↦ false
  | data_race ↦ false
]

mixed_ends_lem : mixed_ends ≡ true
unfolding mixed_ends run turn handler_step stop_step write_stack_trace store write_sample
    trailer_writes call_old write_chunk update unpublish restore
mixed_ends_lem = refl

late_handler_example :
    ((s : Threads ℕ) × (run foreign_code one_signal 3 maps
          (late_turns 3 5)
          (both_enter busy_process)
        ≡ ends s)
      × (s.handling ≡ returned)
      × (s.stopping ≡ stopped)
      × (s.process.static_impl ≡ none)
      × (s.process.action ≡ record { handler = static_handler; siginfo = true })
      × AllRefused ((true, 4) ∷ (true, 3) ∷ []) s.process)
    × ((s : Threads ℕ) × (run foreign_code one_signal 3 maps null_turns (both_enter busy_process)
          ≡ ends s)
        × (s.handling ≡ null_call))
late_handler_example =
    late_handler foreign_code one_signal 3 maps [] busy_process 3 5 ((true, 4) ∷ (true, 3) ∷ [])
      one_signal-IsContext busy-Running (omega arith)
