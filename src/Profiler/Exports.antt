-- ===== src/Profiler/Exports.antt =====
-- src/jointprof.cpp, the functions that R calls. A list of R holds external pointers to profilers.
pub mod Rprof
use jointprof.Profiler.Again.{IsForeign, construct_impl, construct-CanStart}
use jointprof.Profiler.Defs.{
  SigAction, Process, Error, Context, construct, start, stop, remove_handler, header_words,
  trailer_words,
}
use jointprof.Profiler.Session.{
  IsContext, samples_bytes, signals, start-Running, session, session_lem,
}
use jointprof.Profiler.Words.{words_bytes}
use jointprof.Common.{
  ℕ, ◌≡◌, refl, ◌∙◌, Bool, true, false, Option, none, some, ◌>>=◌, bind_some, List, [], ◌∷◌, ◌++◌,
  Bytes, All,
}

-- `pdc.get()` of `ldc[0]`; `none` where the list is empty.
unfoldable pub get_profiler : List ℕ → Option ℕ
get_profiler [] = none
get_profiler (dc ∷ ldc) = some dc

module _ {Other : Type 0} where
  -- init_profiler_impl, where `new` gives the address `dc`.
  unfoldable pub init_profiler_impl : ℕ → Process Other → List ℕ × Process Other
  init_profiler_impl dc p = (dc ∷ [], construct dc p)

  -- start_profiler_impl
  unfoldable pub start_profiler_impl :
      Bool → List ℕ → Process Other → Option (Process Other × Option Error)
  unfolding get_profiler
  start_profiler_impl can_create ldc p = do dc ← get_profiler ldc; some (start can_create dc p)

  -- stop_profiler_impl
  unfoldable pub stop_profiler_impl : Bytes → List ℕ → Process Other → Option (Process Other)
  unfolding get_profiler
  stop_profiler_impl maps ldc p = do dc ← get_profiler ldc; some (stop maps dc p)

  -- R_unload_jointprof
  abbrev pub unload_jointprof : Process Other → Process Other
  unload_jointprof p = remove_handler p

-- An error of R ends what follows.
unfoldable pub no_error : {A : Type 0} → A × Option Error → Option A
no_error (a, none) = some a
no_error (a, some e) = none

pub no_error_lem : {A : Type 0} (r : A × Option Error) → r.1 ≡ none → no_error r ≡ some r.0
unfolding no_error
no_error_lem (a, none) e = refl
no_error_lem (a, some error) e = cc

module _ {Other : Type 0} (foreign : ℕ → SigAction × Other → SigAction × Other) where
  -- R makes a profiler, starts it, is interrupted by signals, and stops it.
  unfoldable pub r_session : ℕ → Bytes → List Context → Process Other → Option (Process Other)
  unfolding no_error
  r_session dc maps ctxs p = do
    let (ldc, p) = init_profiler_impl dc p
    started ← start_profiler_impl true ldc p
    p ← no_error started
    p ← signals foreign ctxs p
    stop_profiler_impl maps ldc p

  r_session-session :
      (dc : ℕ) (maps : Bytes) (ctxs : List Context) (p : Process Other)
      → (start true dc (construct dc p)).1 ≡ none
      → r_session dc maps ctxs p ≡ session foreign dc maps ctxs (construct dc p)
  unfolding r_session session init_profiler_impl start_profiler_impl stop_profiler_impl
  r_session-session dc maps ctxs p e = go (start true dc (construct dc p)) e
    where
      go :
          (started : Process Other × Option Error)
          → started.1 ≡ none
          → (do p ← no_error started; p ← signals foreign ctxs p; some (stop maps dc p))
            ≡ (do p ← signals foreign ctxs started.0; some (stop maps dc p))
      go started e = bind_some _ (no_error_lem started e)

  -- If nothing runs and the handler of SIGPROF is foreign and takes one argument, the calls of R make a
  -- profiler, start it without an error, and stop it, without a fault, if the signals between find the
  -- array and the trace in order. The file holds the header, a sample for each signal in order, the
  -- trailer, and the given text of the maps; it is closed. The disposition of SIGPROF is the one
  -- from before, and nothing runs.
  pub r_session_lem :
      (dc : ℕ) (maps : Bytes) (ctxs : List Context) (p : Process Other)
      → p.static_impl ≡ none
      → IsForeign p.action
      → All IsContext ctxs
      → (p' : Process Other) × (r_session dc maps ctxs p ≡ some p')
        × ((p'.impls dc).ofs ≡ record {
          is_open = false;
          failed = false;
          contents =
              words_bytes header_words
              ++ (samples_bytes ctxs ++ (words_bytes trailer_words ++ maps));
        })
        × (p'.action ≡ p.action)
        × (p'.static_impl ≡ none)
  r_session_lem dc maps ctxs p idle f cs =
      let can = construct-CanStart dc p idle f in
      let (p', e, file, action, nothing, _) =
        session_lem foreign dc maps ctxs (construct dc p) can cs in
      (
        p',
        r_session-session dc maps ctxs p (start-Running dc (construct dc p) can).0 ∙ e,
        file,
        action ∙ construct_impl dc p,
        nothing,
      )
