-- ===== src/Profiler/Exports/Rprof.antt =====
-- src/jointprof.cpp, as start_profiler and stop_profiler of R call it: around the calls the profiler of R changes
-- the disposition of SIGPROF.
use jointprof.Profiler.Again.{IsForeign, construct_impl}
use jointprof.Profiler.Defs.{
  SigAction, Process, Context, update, construct, start, stop, header_words, trailer_words,
}
use jointprof.Profiler.Exports.{
  init_profiler_impl, start_profiler_impl, stop_profiler_impl, no_error, no_error_lem,
}
use jointprof.Profiler.Session.{
  IsContext, CanStart, Running-Profiling, samples_bytes, signals, signals-Running, start-Running,
  stop-Profiling,
}
use jointprof.Profiler.Words.{words_bytes}
use jointprof.Common.{
  ℕ, ◌≡◌, refl, ap, ◌∙◌, true, false, Option, none, some, ◌>>=◌, bind_some, List, ◌++◌,
  append_assoc, ==-refl, Bytes, All,
}

module _ {Other : Type 0} (foreign : ℕ → SigAction × Other → SigAction × Other) where
  -- init_profiler_impl, Rprof, start_profiler_impl, the signals, Rprof(NULL), stop_profiler_impl. `rprof`
  -- is what Rprof installs, and `ended` what it leaves.
  unfoldable pub profiler_session :
      SigAction → SigAction → ℕ → Bytes → List Context → Process Other → Option (Process Other)
  profiler_session rprof ended dc maps ctxs p = do
    let (ldc, p) = init_profiler_impl dc p
    started ← start_profiler_impl true ldc (record p { action = rprof })
    p ← no_error started
    p ← signals foreign ctxs p
    stop_profiler_impl maps ldc (record p { action = ended })

  -- The new object can start behind Rprof.
  constructed-CanStart :
      (dc : ℕ) (rprof : SigAction) (p : Process Other)
      → p.static_impl ≡ none
      → IsForeign rprof
      → CanStart dc (record (construct dc p) { action = rprof })
  unfolding construct update
  constructed-CanStart dc rprof p idle f = record {
    idle = idle;
    one_argument = f.one_argument;
    not_ours = f.not_ours;
    closed = rw (==-refl dc) refl;
    alive = rw (==-refl dc) refl;
  }

  -- start_profiler and stop_profiler of R, where Rprof installs its handler behind the making of the profiler and
  -- takes it away in front of its stop: if nothing runs and the handler of Rprof is foreign and takes one
  -- argument, then there is neither a fault nor an error, if the signals between find the array
  -- and the trace in order. The file holds the header, a sample for each signal in order, the trailer
  -- and the given text of the maps; it is closed. Nothing runs, and the disposition is the one from
  -- before all of it, whatever it was and whatever Rprof left.
  pub profiler_session_lem :
      (rprof ended : SigAction) (dc : ℕ) (maps : Bytes) (ctxs : List Context) (p : Process Other)
      → p.static_impl ≡ none
      → IsForeign rprof
      → All IsContext ctxs
      → (p' : Process Other) × (profiler_session rprof ended dc maps ctxs p ≡ some p')
        × ((p'.impls dc).ofs ≡ record {
          is_open = false;
          failed = false;
          contents =
              words_bytes header_words
              ++ (samples_bytes ctxs ++ (words_bytes trailer_words ++ maps));
        })
        × (p'.action ≡ p.action)
        × (p'.static_impl ≡ none)
  unfolding profiler_session init_profiler_impl start_profiler_impl stop_profiler_impl
  profiler_session_lem rprof ended dc maps ctxs p idle f cs =
      let begun = record (construct dc p) { action = rprof } in
      let (fine, running, same) = start-Running dc begun (constructed-CanStart dc rprof p idle f) in
      let (q, e, r, same') =
        signals-Running foreign ctxs dc (words_bytes header_words) (start true dc begun).0 running
          cs in
      let q' = record q { action = ended } in
      let (file, action, nothing) =
        stop-Profiling dc (words_bytes header_words ++ samples_bytes ctxs) maps q'
          (Running-Profiling dc _ q ended r) in
      (
        stop maps dc q',
        bind_some _ (no_error_lem (start true dc begun) fine) ∙ bind_some _ e,
        file
            ∙ ap (λ (t : Bytes). record { is_open = false; failed = false; contents = t })
                (append_assoc (words_bytes header_words) (samples_bytes ctxs)
                  (words_bytes trailer_words ++ maps)),
        action ∙ same' ∙ same ∙ construct_impl dc p,
        nothing,
      )
