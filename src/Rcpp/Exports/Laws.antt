-- ===== src/Rcpp/Exports/Laws.antt =====
-- src/RcppExports.cpp, calls from R that end with an error.
use jointprof.Profiler.Defs.{Process, Error, start}
use jointprof.Profiler.Exports.{start_profiler_impl, stop_profiler_impl}
use jointprof.Profiler.Guards.{Outside, Outside-refl, start-Outside}
use jointprof.Rcpp.Exports.{
  Routine, callback1, callback2, callback3, init_profiler, start_profiler, stop_profiler, unload,
  CallEntry, call_entries, scoped, return_error, start_body, stop_body,
  jointprof_init_profiler_impl, jointprof_start_profiler_impl, jointprof_stop_profiler_impl, invoke,
  dot_call,
}
use jointprof.Rcpp.{Trouble, not_convertible, value, trouble, undetermined, Reply, Rcpp}
use jointprof.Common.{
  ℕ, ◌≡◌, ◌⊎◌, inl, inr, refl, subst, Bool, true, false, Option, none, some, ◌>>=◌, List, [], ◌∷◌,
  Bytes, length,
}

-- The routine calls functions of R.
abbrev pub calls_back : Routine → Bool
calls_back callback1 = true
calls_back callback2 = true
calls_back callback3 = true
calls_back init_profiler = false
calls_back start_profiler = false
calls_back stop_profiler = false
calls_back unload = false

-- R refuses such a call, or it is one of the profiler.
abbrev pub IsProfiling : Trouble ⊎ Routine → Type 0
IsProfiling (inl t) = Unit
IsProfiling (inr routine) = calls_back routine ≡ false

module _ {Sexp Other : Type 0} where
  -- An error has changed one object at most, and the state of R.
  abbrev IsHarmless : Process Other → Reply Sexp Other → Type 0
  IsHarmless p none = Unit
  IsHarmless p (some (value x, q)) = Unit
  IsHarmless p (some (undetermined, q)) = Unit
  IsHarmless p (some (trouble t, q)) = (this : ℕ) × Outside this p q

module _ {Sexp Other : Type 0} (r : Rcpp Sexp Other) (new_profiler : Process Other → ℕ)
    (can_create : Bytes → Bool) (maps : Bytes) where
  scoped-IsHarmless :
      (body : Process Other → Reply Sexp Other) (p : Process Other)
      → IsHarmless
          (record p { other = r.enter_rng p.other })
          (body (record p { other = r.enter_rng p.other }))
      → IsHarmless p (scoped r new_profiler can_create maps body p)
  unfolding scoped
  scoped-IsHarmless body p h = go (body (record p { other = r.enter_rng p.other })) h
    where
      go :
          (reply : Reply Sexp Other)
          → IsHarmless (record p { other = r.enter_rng p.other }) reply
          → IsHarmless p
              (do (answer, q) ← reply; some (answer, record q { other = r.leave_rng q.other }))
      go none h = tt
      go (some (value x, q)) h = tt
      go (some (undetermined, q)) h = tt
      go (some (trouble t, q)) (this, o) = (
        this,
        record {
          same_action = o.same_action;
          same_impl = o.same_impl;
          same_live = o.same_live;
          same_objects = o.same_objects;
        },
      )

  started-IsHarmless :
      (p : Process Other) (started : Process Other × Option Error) (this : ℕ)
      → ((e : Error) → started.1 ≡ some e → Outside this p started.0)
      → IsHarmless p (some (return_error r new_profiler can_create maps started.1, started.0))
  unfolding return_error
  started-IsHarmless p (q, none) this o = tt
  started-IsHarmless p (q, some e) this o = (this, o e refl)

  start_body-IsHarmless :
      (ldc path : Sexp) (p : Process Other)
      → IsHarmless p (start_body r new_profiler can_create maps ldc path p)
  unfolding start_body start_profiler_impl
  start_body-IsHarmless ldc path p = go (r.as_profilers ldc) (r.as_string path)
    where
      go :
          (profilers : Option (List ℕ)) (name : Option Bytes)
          → IsHarmless p (elim profilers [
            | none ↦ some (trouble not_convertible, p)
            | some profilers ↦ elim name [
              | none ↦ some (trouble not_convertible, p)
              | some name ↦ do
                (q, error) ← start_profiler_impl (can_create name) profilers p
                some (return_error r new_profiler can_create maps error, q)
            ]
          ])
      go none name = (0, Outside-refl 0 p)
      go (some profilers) none = (0, Outside-refl 0 p)
      go (some []) (some name) = tt
      go (some (dc ∷ profilers)) (some name) =
          started-IsHarmless p (start (can_create name) dc p) dc
            (λ e eq. start-Outside (can_create name) dc p e eq)

  stop_body-IsHarmless :
      (ldc : Sexp) (p : Process Other)
      → IsHarmless p (stop_body r new_profiler can_create maps ldc p)
  unfolding stop_body stop_profiler_impl
  stop_body-IsHarmless ldc p = go (r.as_profilers ldc)
    where
      go :
          (profilers : Option (List ℕ))
          → IsHarmless p (elim profilers [
            | none ↦ some (trouble not_convertible, p)
            | some profilers ↦ do q ← stop_profiler_impl maps profilers p; some (value r.r_null, q)
          ])
      go none = (0, Outside-refl 0 p)
      go (some []) = tt
      go (some (dc ∷ profilers)) = tt

  init-IsHarmless :
      (p : Process Other)
      → IsHarmless p (jointprof_init_profiler_impl r new_profiler can_create maps p)
  unfolding jointprof_init_profiler_impl scoped
  init-IsHarmless p = tt

  invoke-IsHarmless :
      (routine : Routine) (args : List Sexp) (p : Process Other)
      → calls_back routine ≡ false
      → IsHarmless p (invoke r new_profiler can_create maps routine args p)
  unfolding invoke jointprof_start_profiler_impl jointprof_stop_profiler_impl
  invoke-IsHarmless callback1 args p e = cc
  invoke-IsHarmless callback2 args p e = cc
  invoke-IsHarmless callback3 args p e = cc
  invoke-IsHarmless init_profiler [] p e = init-IsHarmless p
  invoke-IsHarmless init_profiler (x ∷ args) p e = tt
  invoke-IsHarmless start_profiler [] p e = tt
  invoke-IsHarmless start_profiler (ldc ∷ []) p e = tt
  invoke-IsHarmless start_profiler (ldc ∷ path ∷ []) p e =
      scoped-IsHarmless (start_body r new_profiler can_create maps ldc path) p
        (start_body-IsHarmless ldc path _)
  invoke-IsHarmless start_profiler (ldc ∷ path ∷ x ∷ args) p e = tt
  invoke-IsHarmless stop_profiler [] p e = tt
  invoke-IsHarmless stop_profiler (ldc ∷ []) p e =
      scoped-IsHarmless (stop_body r new_profiler can_create maps ldc) p
        (stop_body-IsHarmless ldc _)
  invoke-IsHarmless stop_profiler (ldc ∷ x ∷ args) p e = tt
  invoke-IsHarmless unload [] p e = tt
  invoke-IsHarmless unload (dll ∷ []) p e = tt
  invoke-IsHarmless unload (dll ∷ x ∷ args) p e = tt

  dot_call-IsHarmless :
      (look_up : List CallEntry → Bytes → ℕ → Trouble ⊎ Routine) (name : Bytes) (args : List Sexp)
      (p : Process Other)
      → IsProfiling (look_up call_entries name (length args))
      → IsHarmless p (dot_call r new_profiler can_create maps look_up name args p)
  unfolding dot_call
  dot_call-IsHarmless look_up name args p = go (look_up call_entries name (length args))
    where
      go :
          (found : Trouble ⊎ Routine)
          → IsProfiling found
          → IsHarmless p (elim found [
            | inl t ↦ some (trouble t, p)
            | inr routine ↦ invoke r new_profiler can_create maps routine args p
          ])
      go (inl t) _ = (0, Outside-refl 0 p)
      go (inr routine) quiet = invoke-IsHarmless routine args p quiet

  -- A `.Call` of R that ends with an error, for whatever reason, leaves the disposition of SIGPROF,
  -- the running object, and all objects but one as they are, up to the state of R; R refuses the call or the
  -- routine that it finds is one of the profiler, not a hook of callback.cpp.
  pub dot_call-Outside :
      (look_up : List CallEntry → Bytes → ℕ → Trouble ⊎ Routine) (name : Bytes) (args : List Sexp)
      (p q : Process Other) (t : Trouble)
      → IsProfiling (look_up call_entries name (length args))
      → dot_call r new_profiler can_create maps look_up name args p ≡ some (trouble t, q)
      → (this : ℕ) × Outside this p q
  dot_call-Outside look_up name args p q t profiling e =
      subst (IsHarmless p) e (dot_call-IsHarmless look_up name args p profiling)
