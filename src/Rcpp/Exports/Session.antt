-- ===== src/Rcpp/Exports/Session.antt =====
-- A session as the R code runs it, by `.Call`.
use jointprof.Profiler.Again.{IsForeign, construct_impl}
use jointprof.Profiler.Defs.{
  SigAction, Process, Context, update, construct, start, stop, header_words, trailer_words,
}
use jointprof.Profiler.Exports.{
  init_profiler_impl, start_profiler_impl, stop_profiler_impl, get_profiler,
}
use jointprof.Profiler.Session.{
  IsContext, CanStart, Running, Profiling, samples_bytes, signals, signals-Running, start-Running,
  stop-Profiling,
}
use jointprof.Profiler.Words.{words_bytes}
use jointprof.Rcpp.Exports.{
  Routine, CallEntry, call_entries, scoped, return_error, start_body, stop_body,
  jointprof_init_profiler_impl, jointprof_start_profiler_impl, jointprof_stop_profiler_impl, invoke,
  dot_call,
}
use jointprof.Rcpp.{Trouble, Answer, value, trouble, undetermined, Reply, Rcpp}
use jointprof.Common.{
  ℕ, ◌≡◌, ◌⊎◌, inr, refl, ap, ◌∙◌, Bool, true, false, Option, none, some, ◌>>=◌, bind_some, List,
  [], ◌∷◌, ◌++◌, append_assoc, Bytes, codes, length, All, ==-refl,
}

-- An error of R ends what follows.
unfoldable value_of :
    {Sexp Other : Type 0} → Answer Sexp × Process Other → Option (Sexp × Process Other)
value_of (value x, p) = some (x, p)
value_of (trouble t, p) = none
value_of (undetermined, p) = none

module _ {Sexp Other : Type 0} (r : Rcpp Sexp Other) (new_profiler : Process Other → ℕ)
    (can_create : Bytes → Bool) (maps : Bytes)
    (look_up : List CallEntry → Bytes → ℕ → Trouble ⊎ Routine)
    (foreign : ℕ → SigAction × Other → SigAction × Other) where
  abbrev call : Bytes → List Sexp → Process Other → Option (Sexp × Process Other)
  call name args p = dot_call r new_profiler can_create maps look_up name args p >>= value_of

  -- start_profiler and stop_profiler of R: a profiler is made, Rprof installs `rprof`, the profiler is
  -- started on a path, signals arrive, Rprof(NULL) leaves `ended`, and the profiler is stopped.
  unfoldable pub call_session :
      SigAction → SigAction → Sexp → List Context → Process Other → Option (Process Other)
  unfolding value_of
  call_session rprof ended path ctxs p = do
    (ldc, p) ← call (codes "_jointprof_init_profiler_impl") [] p
    (_, p) ←
        call (codes "_jointprof_start_profiler_impl") (ldc ∷ path ∷ [])
          (record p { action = rprof })
    p ← signals foreign ctxs p
    (_, p) ← call (codes "_jointprof_stop_profiler_impl") (ldc ∷ []) (record p { action = ended })
    some p

  -- R finds every registered name, with the registered number of arguments.
  abbrev pub Finds : Type 0
  Finds = All (λ e. look_up call_entries e.name e.arguments ≡ inr e.routine) call_entries

  -- A call that R finds.
  dot_call_found :
      (name : Bytes) (args : List Sexp) (p : Process Other) (routine : Routine)
      → look_up call_entries name (length args) ≡ inr routine
      → dot_call r new_profiler can_create maps look_up name args p
        ≡ invoke r new_profiler can_create maps routine args p
  unfolding dot_call
  dot_call_found name args p routine eq = simp (eq, dot_call)

  abbrev entered : Process Other → Process Other
  entered p = record p { other = r.enter_rng p.other }

  abbrev left : Process Other → Process Other
  left p = record p { other = r.leave_rng p.other }

  calls_init :
      (p : Process Other)
      → Finds
      → let dc = new_profiler (entered p) in
        call (codes "_jointprof_init_profiler_impl") [] p
        ≡ some (r.wrap (dc ∷ []), left (construct dc (entered p)))
  unfolding value_of invoke jointprof_init_profiler_impl scoped init_profiler_impl
  calls_init p f = bind_some value_of (dot_call_found _ [] p _ f.1.1.1.0)

  start_body_lem :
      (dc : ℕ) (name : Bytes) (ldc path : Sexp) (p : Process Other)
      → r.as_profilers ldc ≡ some (dc ∷ [])
      → r.as_string path ≡ some name
      → can_create name ≡ true
      → (start true dc p).1 ≡ none
      → start_body r new_profiler can_create maps ldc path p
        ≡ some (value r.r_null, (start true dc p).0)
  unfolding start_body start_profiler_impl get_profiler return_error
  start_body_lem dc name ldc path p list string can fine =
      rw (list, start_body, string, can, fine) refl

  stop_body_lem :
      (dc : ℕ) (ldc : Sexp) (p : Process Other)
      → r.as_profilers ldc ≡ some (dc ∷ [])
      → stop_body r new_profiler can_create maps ldc p ≡ some (value r.r_null, stop maps dc p)
  unfolding stop_body stop_profiler_impl get_profiler
  stop_body_lem dc ldc p list = rw (list, stop_body) refl

  -- A body that gives a value.
  scoped_value :
      (body : Process Other → Reply Sexp Other) (p q : Process Other) (x : Sexp)
      → body (entered p) ≡ some (value x, q)
      → scoped r new_profiler can_create maps body p ≡ some (value x, left q)
  unfolding scoped
  scoped_value body p q x e = bind_some _ e

  calls_start :
      (dc : ℕ) (name : Bytes) (ldc path : Sexp) (p : Process Other)
      → Finds
      → r.as_profilers ldc ≡ some (dc ∷ [])
      → r.as_string path ≡ some name
      → can_create name ≡ true
      → (start true dc (entered p)).1 ≡ none
      → call (codes "_jointprof_start_profiler_impl") (ldc ∷ path ∷ []) p
        ≡ some (r.r_null, left (start true dc (entered p)).0)
  unfolding value_of invoke jointprof_start_profiler_impl
  calls_start dc name ldc path p f list string can fine = bind_some value_of (
      dot_call_found _ (ldc ∷ path ∷ []) p _ f.1.1.1.1.0
      ∙ scoped_value (start_body r new_profiler can_create maps ldc path) p _ r.r_null
          (start_body_lem dc name ldc path (entered p) list string can fine))

  calls_stop :
      (dc : ℕ) (ldc : Sexp) (p : Process Other)
      → Finds
      → r.as_profilers ldc ≡ some (dc ∷ [])
      → call (codes "_jointprof_stop_profiler_impl") (ldc ∷ []) p
        ≡ some (r.r_null, left (stop maps dc (entered p)))
  unfolding value_of invoke jointprof_stop_profiler_impl
  calls_stop dc ldc p f list = bind_some value_of (
      dot_call_found _ (ldc ∷ []) p _ f.1.1.1.1.1.0
      ∙ scoped_value (stop_body r new_profiler can_create maps ldc) p _ r.r_null
          (stop_body_lem dc ldc (entered p) list))

  -- The state of R plays no part.
  constructed-CanStart :
      (dc : ℕ) (rprof : SigAction) (p : Process Other)
      → p.static_impl ≡ none
      → IsForeign rprof
      → CanStart dc (entered (record (left (construct dc (entered p))) { action = rprof }))
  unfolding construct update
  constructed-CanStart dc rprof p idle f = record {
    idle = idle;
    one_argument = f.one_argument;
    not_ours = f.not_ours;
    closed = rw (==-refl dc) refl;
    alive = rw (==-refl dc) refl;
  }

  left-Running :
      (dc : ℕ) (file : Bytes) (p : Process Other) → Running dc file p → Running dc file (left p)
  left-Running dc file p run = record {
    published = run.published;
    alive = run.alive;
    installed = run.installed;
    stream = run.stream;
    chained = run.chained;
  }

  stopping-Profiling :
      (dc : ℕ) (file : Bytes) (ended : SigAction) (p : Process Other)
      → Running dc file p
      → Profiling dc file (entered (record p { action = ended }))
  stopping-Profiling dc file ended p run = record {
    published = run.published;
    alive = run.alive;
    stream = run.stream;
    chained = run.chained;
  }

  -- start_profiler and stop_profiler of R through `.Call`: if nothing runs, the handler of Rprof is
  -- foreign and takes one argument, R finds every registered name, Rcpp reads back the list that it
  -- has made, the path is a string and its file can be made, then there is neither a fault nor an error, if the signals between
  -- find the array and the trace in order. The file holds the header, a sample for each signal in order, the
  -- trailer and the given text of the maps; it is closed. Nothing runs, and the disposition is the one from
  -- before all of it, whatever it was and whatever Rprof left.
  pub call_session_lem :
      (rprof ended : SigAction) (path : Sexp) (name : Bytes) (ctxs : List Context)
      (p : Process Other)
      → Finds
      → ((ldc : List ℕ) → r.as_profilers (r.wrap ldc) ≡ some ldc)
      → r.as_string path ≡ some name
      → can_create name ≡ true
      → p.static_impl ≡ none
      → IsForeign rprof
      → All IsContext ctxs
      → (p' : Process Other) × (dc : ℕ) × (call_session rprof ended path ctxs p ≡ some p')
        × ((p'.impls dc).ofs ≡ record {
          is_open = false;
          failed = false;
          contents =
              words_bytes header_words
              ++ (samples_bytes ctxs ++ (words_bytes trailer_words ++ maps));
        })
        × (p'.action ≡ p.action)
        × (p'.static_impl ≡ none)
  unfolding call_session
  call_session_lem rprof ended path name ctxs p finds read string can idle f cs =
      let dc = new_profiler (entered p) in
      let list = read (dc ∷ []) in
      let made = record (left (construct dc (entered p))) { action = rprof } in
      let (fine, running, same) =
        start-Running dc (entered made) (constructed-CanStart dc rprof p idle f) in
      let begun = left (start true dc (entered made)).0 in
      let (q, e, run, same') =
        signals-Running foreign ctxs dc (words_bytes header_words) begun
          (left-Running dc (words_bytes header_words) (start true dc (entered made)).0 running)
          cs in
      let last = record q { action = ended } in
      let (file, action, nothing) =
        stop-Profiling dc (words_bytes header_words ++ samples_bytes ctxs) maps (entered last)
          (stopping-Profiling dc _ ended q run) in
      (
        left (stop maps dc (entered last)),
        dc,
        bind_some _ (calls_init p finds)
            ∙ bind_some _
                (calls_start dc name (r.wrap (dc ∷ [])) path made finds list string can fine)
            ∙ bind_some _ e
            ∙ bind_some _ (calls_stop dc (r.wrap (dc ∷ [])) last finds list),
        file
            ∙ ap (λ (t : Bytes). record { is_open = false; failed = false; contents = t })
                (append_assoc (words_bytes header_words) (samples_bytes ctxs)
                  (words_bytes trailer_words ++ maps)),
        action ∙ same' ∙ same ∙ construct_impl dc (entered p),
        nothing,
      )
