-- ===== src/Rcpp/Examples.antt =====
-- Calls of R, for values that are NULL, a list of profilers, a string or a pointer.
use jointprof.Profiler.Again.{IsForeign}
use jointprof.Profiler.Defs.{
  function, zero_action, SigAction, Process, Context, oops, static_handler, header_words,
  trailer_words, start, is_running, update,
}
use jointprof.Profiler.Exports.{start_profiler_impl, get_profiler}
use jointprof.Profiler.Guards.{Outside}
use jointprof.Profiler.Session.{IsContext, samples_bytes}
use jointprof.Profiler.Words.{words_bytes}
use jointprof.Rcpp.Exports.Laws.{dot_call-Outside}
use jointprof.Rcpp.Exports.Session.{call_session, call_session_lem}
use jointprof.Rcpp.Exports.{
  Routine, CallEntry, dot_call, invoke, jointprof_start_profiler_impl, scoped, start_body,
  return_error,
}
use jointprof.Rcpp.{Rcpp, Trouble, not_registered, wrong_arguments, value, stopped_with}
use jointprof.Common.{
  ℕ, ◌+◌, ◌≡◌, ◌⊎◌, inl, inr, refl, Bool, true, false, ◌&&◌, ◌==◌, if◌then◌else◌, Option, none,
  some, List, [], ◌∷◌, ◌++◌, Bytes, codes, replicate, arith,
}

data RValue : Type 0 where
  r_nil pointer : RValue
  profilers : List ℕ → RValue
  string : Bytes → RValue

abbrev as_profilers : RValue → Option (List ℕ)
as_profilers (profilers ldc) = some ldc
as_profilers r_nil = none
as_profilers pointer = none
as_profilers (string s) = none

abbrev as_string : RValue → Option Bytes
as_string (string s) = some s
as_string (profilers ldc) = none
as_string r_nil = none
as_string pointer = none

abbrev small_r : Rcpp RValue ℕ
small_r = record {
  r_null = r_nil;
  as_profilers = as_profilers;
  wrap = profilers;
  as_string = as_string;
  is_pointer = λ x. false;
  new_int = λ other. (pointer, other);
  r_function = λ name x p. some (value r_nil, p);
  enter_rng = λ other. other + 1;
  leave_rng = λ other. other + 2;
}

abbrev same_name : Bytes → Bytes → Bool
same_name [] [] = true
same_name [] (c ∷ name) = false
same_name (c ∷ name) [] = false
same_name (c ∷ name) (d ∷ other) = c == d && same_name name other

-- A search for the example: the first entry of that name, if the number of arguments is its own.
abbrev find_first : List CallEntry → Bytes → ℕ → Trouble ⊎ Routine
find_first [] name n = inl not_registered
find_first (e ∷ es) name n =
    let later = find_first es name n in
    if same_name name e.name
    then (if n == e.arguments then inr e.routine else inl wrong_arguments)
    else later

abbrev foreign_action : SigAction
foreign_action = record { handler = function 5; siginfo = false }

abbrev foreign_code : ℕ → SigAction × ℕ → SigAction × ℕ
foreign_code n state = (zero_action, state.1)

foreign_action-IsForeign : IsForeign foreign_action
foreign_action-IsForeign = record { one_argument = refl; not_ours = λ e. cc }

abbrev first_process : SigAction → Process ℕ
first_process action = record {
  action = action;
  static_impl = none;
  impls = λ q. record {
    initact = zero_action;
    oldact = zero_action;
    ofs = record { is_open = false; failed = false; contents = [] };
  };
  live = λ q. false;
  other = 0;
}

abbrev one_signal : Context
one_signal = record { stack = replicate 66 7; pc = 4096; frames = 4097 ∷ 4098 ∷ [] }

one_signal-IsContext : IsContext one_signal
one_signal-IsContext = record { array = refl; limit = omega arith }

call_session_lem_example :
    (p' : Process ℕ) × (dc : ℕ) × (call_session small_r
        (λ p. 3)
        (λ name. true)
        (codes "maps")
        find_first
        foreign_code
        foreign_action
        zero_action
        (string (codes "jointprof.prof"))
        (one_signal ∷ [])
        (first_process zero_action)
      ≡ some p')
    × ((p'.impls dc).ofs ≡ record {
      is_open = false;
      failed = false;
      contents =
          words_bytes header_words
          ++ (samples_bytes (one_signal ∷ []) ++ (words_bytes trailer_words ++ codes "maps"));
    })
    × (p'.action ≡ zero_action)
    × (p'.static_impl ≡ none)
call_session_lem_example =
    call_session_lem small_r (λ p. 3) (λ name. true) (codes "maps") find_first foreign_code
      foreign_action zero_action (string (codes "jointprof.prof")) (codes "jointprof.prof")
      (one_signal ∷ []) (first_process zero_action)
      (refl, (refl, (refl, (refl, (refl, (refl, (refl, tt))))))) (λ ldc. refl) refl refl refl
      foreign_action-IsForeign (one_signal-IsContext, tt)

-- The handler that is installed takes three arguments.
abbrev occupied : Process ℕ
occupied = first_process (record { handler = static_handler; siginfo = true })

abbrev queried : Process ℕ
queried = record occupied {
  impls = update occupied.impls 3 (record (occupied.impls 3) { oldact = occupied.action });
  other = 3;
}

dot_call-Outside_example : (this : ℕ) × Outside this occupied queried
unfolding dot_call invoke jointprof_start_profiler_impl scoped start_body return_error
    start_profiler_impl get_profiler start is_running
dot_call-Outside_example =
    dot_call-Outside small_r (λ p. 3) (λ name. true) (codes "maps") find_first
      (codes "_jointprof_start_profiler_impl")
      (profilers (3 ∷ []) ∷ string (codes "jointprof.prof") ∷ []) occupied queried
      (stopped_with oops) refl refl
