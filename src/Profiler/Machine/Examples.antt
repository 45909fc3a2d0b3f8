-- ===== src/Profiler/Machine/Examples.antt =====
-- The theorems on the machine, where the object 3 is made and started.
use jointprof.Profiler.Again.{IsForeign}
use jointprof.Profiler.Defs.{
  static_handler, function, zero_action, SigAction, Process, Context, sigprof, construct, start,
  stop, static_handle, is_running, begin, open_stream, update,
}
use jointprof.Profiler.Machine.{made, started, Reach, here, take_step, IsInitial, IsSound}
use jointprof.Profiler.Machine.Laws.{
  running_file, Reach-IsSound, Reach-static_handle, Reach-CanStart,
}
use jointprof.Profiler.Machine.Stuck.{AllRefused, start-construct}
use jointprof.Profiler.Session.{IsContext, Running, context_stack}
use jointprof.Profiler.Trace.Laws.{sample}
use jointprof.Profiler.Words.{words_bytes}
use mathlib.Core.Option
use jointprof.Common.{ℕ, ◌≡◌, refl, true, false, none, some, [], ◌∷◌, ◌++◌, replicate, arith}

abbrev foreign_action : SigAction
foreign_action = record { handler = function 5; siginfo = false }

abbrev foreign_code : ℕ → SigAction × ℕ → SigAction × ℕ
foreign_code n state = (zero_action, state.1)

foreign_action-IsForeign : IsForeign foreign_action
foreign_action-IsForeign = record { one_argument = refl; not_ours = λ e. cc }

abbrev first_process : Process ℕ
first_process = record {
  action = foreign_action;
  static_impl = none;
  impls = λ q. record {
    initact = zero_action;
    oldact = zero_action;
    ofs = record { is_open = false; failed = false; contents = [] };
  };
  live = λ q. false;
  other = 0;
}

first_process-IsInitial : IsInitial first_process
first_process-IsInitial = record { proper = λ one e. cc; idle = refl; no_objects = λ q. refl }

abbrev started_process : Process ℕ
started_process = (start true 3 (construct 3 first_process)).0

started_process-Reach : Reach foreign_code first_process started_process
unfolding construct
started_process-Reach = take_step (take_step here (made 3 refl refl)) (started true 3 refl refl)

abbrev one_signal : Context
one_signal = record { stack = replicate 66 7; pc = 4096; frames = 4097 ∷ 4098 ∷ [] }

one_signal-IsContext : IsContext one_signal
one_signal-IsContext = record { array = refl; limit = omega arith }

Reach-IsSound_example : IsSound started_process
Reach-IsSound_example =
    Reach-IsSound foreign_code first_process started_process first_process-IsInitial
      started_process-Reach

Reach-static_handle_example :
    (p'' : Process ℕ) × (static_handle foreign_code sigprof one_signal started_process ≡ some p'')
    × (p''.action ≡ started_process.action)
    × (p''.static_impl ≡ started_process.static_impl)
    × (running_file p''
        ≡ Option.map
            (λ file. file ++ words_bytes (sample (context_stack one_signal)))
            (running_file started_process))
Reach-static_handle_example =
    Reach-static_handle foreign_code first_process started_process one_signal
      first_process-IsInitial started_process-Reach one_signal-IsContext

started_process-alive : started_process.live 3 ≡ true
unfolding start construct is_running begin open_stream update
started_process-alive = refl

Reach-CanStart_example :
    (q : Process ℕ) × Reach foreign_code started_process q
    × (q.action ≡ foreign_action)
    × ((start true 3 q).1 ≡ none)
Reach-CanStart_example =
    Reach-CanStart foreign_code first_process started_process 3 foreign_action
      first_process-IsInitial started_process-Reach started_process-alive foreign_action-IsForeign

abbrev busy_process : Process ℕ
busy_process = record {
  action = record { handler = static_handler; siginfo = true };
  static_impl = some 3;
  impls = λ q. record {
    initact = foreign_action;
    oldact = foreign_action;
    ofs = record { is_open = true; failed = false; contents = [] };
  };
  live = λ q. true;
  other = 0;
}

busy_process-Running : Running 3 [] busy_process
busy_process-Running = record {
  published = refl;
  alive = refl;
  installed = refl;
  stream = refl;
  chained = λ e. cc;
}

start-construct_example :
    let q = start true 4 (stop [] 3 (construct 4 busy_process)) in
    let q' = stop [] 4 q.0 in
    (q.1 ≡ none)
    × (q'.static_impl ≡ none)
    × (q'.action ≡ record { handler = static_handler; siginfo = true })
    × AllRefused ((true, 3) ∷ (true, 4) ∷ []) q'
start-construct_example =
    start-construct ((true, 3) ∷ (true, 4) ∷ []) 3 4 [] [] [] busy_process busy_process-Running
      (λ e. ground arith) foreign_action-IsForeign
