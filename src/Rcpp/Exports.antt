-- ===== src/Rcpp/Exports.antt =====
-- src/RcppExports.cpp, the functions that R finds by name, each around one of src/callback.cpp or
-- src/jointprof.cpp, and the table that registers them.
pub mod Laws
pub mod Session
use jointprof.Profiler.Defs.{Process, Error}
use jointprof.Profiler.Exports.{
  init_profiler_impl, start_profiler_impl, stop_profiler_impl, unload_jointprof,
}
use jointprof.Rcpp.Callback.{callback1_cpp, callback2_cpp, callback3_cpp}
use jointprof.Rcpp.{
  Trouble, not_convertible, stopped_with, Answer, value, trouble, undetermined, Reply, Rcpp,
}
use jointprof.Common.{
  ℕ, Bool, true, false, Option, none, some, ◌>>=◌, ◌⊎◌, inl, inr, if◌then◌else◌, ◌==◌, List, [],
  ◌∷◌, Bytes, codes, length,
}

-- The functions of the table.
pub data Routine : Type 0 where
  callback1 callback2 callback3 init_profiler start_profiler stop_profiler unload : Routine

-- R_CallMethodDef
pub record CallEntry : Type 0 where
  pub name : Bytes
  pub routine : Routine
  pub arguments : ℕ

-- CallEntries
abbrev pub call_entries : List CallEntry
call_entries =
    record { name = codes "_jointprof_callback1_cpp"; routine = callback1; arguments = 1 }
    ∷ record { name = codes "_jointprof_callback2_cpp"; routine = callback2; arguments = 1 }
    ∷ record { name = codes "_jointprof_callback3_cpp"; routine = callback3; arguments = 0 }
    ∷ record {
      name = codes "_jointprof_init_profiler_impl";
      routine = init_profiler;
      arguments = 0;
    }
    ∷ record {
      name = codes "_jointprof_start_profiler_impl";
      routine = start_profiler;
      arguments = 2;
    }
    ∷ record {
      name = codes "_jointprof_stop_profiler_impl";
      routine = stop_profiler;
      arguments = 1;
    }
    ∷ record { name = codes "R_unload_jointprof"; routine = unload; arguments = 1 }
    ∷ []

-- `new_profiler` is the address that `new` gives; `can_create` says whether the file of a path can be
-- made; `maps` is the text that write_trailer writes of the memory maps.
module _ {Sexp Other : Type 0} (r : Rcpp Sexp Other) (new_profiler : Process Other → ℕ)
    (can_create : Bytes → Bool) (maps : Bytes) where
  -- A body between BEGIN_RCPP and END_RCPP, under an RNGScope, which is left by an exception too.
  unfoldable pub scoped : (Process Other → Reply Sexp Other) → Process Other → Reply Sexp Other
  scoped body p = do
    (answer, q) ← body (record p { other = r.enter_rng p.other })
    some (answer, record q { other = r.leave_rng q.other })

  -- `return R_NilValue;` behind a call, if that does not throw.
  unfoldable pub return_null : Answer Sexp → Answer Sexp
  return_null (value x) = value r.r_null
  return_null (trouble t) = trouble t
  return_null undetermined = value r.r_null

  unfoldable pub return_error : Option Error → Answer Sexp
  return_error none = value r.r_null
  return_error (some e) = trouble (stopped_with e)

  -- A call of callback.cpp with an external pointer.
  unfoldable pub with_pointer :
      (Sexp → Process Other → Reply Sexp Other) → Sexp → Process Other → Reply Sexp Other
  unfolding return_null
  with_pointer callback x p =
      let called : Reply Sexp Other = (do
        (answer, q) ← callback x p
        some (return_null answer, q)) in
      if r.is_pointer x then called else some (trouble not_convertible, p)

  unfoldable pub jointprof_callback1_cpp : Sexp → Process Other → Reply Sexp Other
  unfolding scoped with_pointer callback1_cpp
  jointprof_callback1_cpp x = scoped (with_pointer (callback1_cpp r) x)

  unfoldable pub jointprof_callback2_cpp : Sexp → Process Other → Reply Sexp Other
  unfolding scoped with_pointer callback2_cpp
  jointprof_callback2_cpp x = scoped (with_pointer (callback2_cpp r) x)

  unfoldable pub jointprof_callback3_cpp : Process Other → Reply Sexp Other
  unfolding scoped return_null callback3_cpp
  jointprof_callback3_cpp =
      scoped (λ p. do (answer, q) ← callback3_cpp r p; some (return_null answer, q))

  unfoldable pub jointprof_init_profiler_impl : Process Other → Reply Sexp Other
  unfolding scoped init_profiler_impl
  jointprof_init_profiler_impl =
      scoped
        (λ p. let (ldc, q) = init_profiler_impl (new_profiler p) p in some (value (r.wrap ldc), q))

  -- The body of the function for start_profiler_impl: it converts the arguments and calls.
  unfoldable pub start_body : Sexp → Sexp → Process Other → Reply Sexp Other
  unfolding start_profiler_impl return_error
  start_body ldc path p = elim (r.as_profilers ldc) [
    | none ↦ some (trouble not_convertible, p)
    | some profilers ↦ elim (r.as_string path) [
      | none ↦ some (trouble not_convertible, p)
      | some name ↦ do
        (q, error) ← start_profiler_impl (can_create name) profilers p
        some (return_error error, q)
    ]
  ]

  unfoldable pub jointprof_start_profiler_impl : Sexp → Sexp → Process Other → Reply Sexp Other
  unfolding scoped start_body
  jointprof_start_profiler_impl ldc path = scoped (start_body ldc path)

  unfoldable pub stop_body : Sexp → Process Other → Reply Sexp Other
  unfolding stop_profiler_impl
  stop_body ldc p = elim (r.as_profilers ldc) [
    | none ↦ some (trouble not_convertible, p)
    | some profilers ↦ do q ← stop_profiler_impl maps profilers p; some (value r.r_null, q)
  ]

  unfoldable pub jointprof_stop_profiler_impl : Sexp → Process Other → Reply Sexp Other
  unfolding scoped stop_body
  jointprof_stop_profiler_impl ldc = scoped (stop_body ldc)

  -- The call of a routine with as many arguments as it takes. R_unload_jointprof returns nothing.
  unfoldable pub invoke : Routine → List Sexp → Process Other → Reply Sexp Other
  unfolding jointprof_callback1_cpp jointprof_callback2_cpp jointprof_callback3_cpp
      jointprof_init_profiler_impl jointprof_start_profiler_impl jointprof_stop_profiler_impl
  invoke callback1 (x ∷ []) p = jointprof_callback1_cpp x p
  invoke callback2 (x ∷ []) p = jointprof_callback2_cpp x p
  invoke callback3 [] p = jointprof_callback3_cpp p
  invoke init_profiler [] p = jointprof_init_profiler_impl p
  invoke start_profiler (ldc ∷ path ∷ []) p = jointprof_start_profiler_impl ldc path p
  invoke stop_profiler (ldc ∷ []) p = jointprof_stop_profiler_impl ldc p
  invoke unload (dll ∷ []) p = some (undetermined, unload_jointprof p)
  invoke routine args p = none

  -- `.Call` by name. `look_up` is R's search in the routines that R_registerRoutines got, the only ones
  -- that it searches after R_useDynamicSymbols(dll, FALSE), with its test of the number of arguments.
  unfoldable pub dot_call :
      (List CallEntry → Bytes → ℕ → Trouble ⊎ Routine)
      → Bytes
      → List Sexp
      → Process Other
      → Reply Sexp Other
  unfolding invoke
  dot_call look_up name args p = elim (look_up call_entries name (length args)) [
    | inl t ↦ some (trouble t, p)
    | inr routine ↦ invoke routine args p
  ]
