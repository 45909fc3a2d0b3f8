-- ===== src/Profiler/Threads/Quiet.antt =====
-- Schedules of a handler and stop in which no two calls on the stream overlap.
use jointprof.Profiler.Defs.{sigprof, SigAction, Process, Context}
use jointprof.Profiler.Race.{restore, unpublish}
use jointprof.Profiler.Threads.{
  overlaps, HandlerPoint, tested, StopPoint, called, writing, trailer_writes, Threads, Turn,
  handler_turn, stop_turn, stop_step, handler_step, turn, run,
}
use jointprof.Profiler.Threads.Between.{stop_left, Between}
use jointprof.Profiler.Threads.Stop.{stop_step-Between}
use jointprof.Common.{
  false, ◌-◌, ℕ, zero, suc, ◌≤◌, ◌≡◌, refl, ◌∙◌, some, bind_some, List, ◌∷◌, Bytes, arith,
}

-- As many turns of stop, and then others.
unfoldable pub stop_then : ℕ → List Turn → List Turn
stop_then zero turns = turns
stop_then (suc n) turns = stop_turn ∷ stop_then n turns

module _ {Other : Type 0} (foreign : ℕ → SigAction × Other → SigAction × Other) (ctx : Context)
    (this : ℕ) (maps : List Bytes) where
  -- A turn behind which no two calls on the stream overlap.
  pub run_quiet :
      (t : Turn) (turns : List Turn) (s s' : Threads Other)
      → turn foreign ctx this maps t s ≡ some s'
      → overlaps s'.handling s'.stopping ≡ false
      → run foreign ctx this maps (t ∷ turns) s ≡ run foreign ctx this maps turns s'
  unfolding run
  run_quiet t turns s s' e quiet = rw (e, run, quiet) refl

  -- Turns of stop alone, while the handler is not in a call on the stream.
  pub run-stop :
      (init : SigAction) (file text : Bytes) (h : HandlerPoint)
      → ((k : StopPoint) → overlaps h k ≡ false)
      → (n : ℕ) (turns : List Turn) (k : StopPoint) (p : Process Other)
      → Between this init file text maps h k p
      → (k' : StopPoint) × (p' : Process Other) × (run foreign ctx this maps
            (stop_then n turns)
            (record { handling = h; stopping = k; process = p })
          ≡ run foreign ctx this maps turns (record { handling = h; stopping = k'; process = p' }))
        × Between this init file text maps h k' p'
        × (stop_left maps k' ≤ stop_left maps k - n)
  unfolding turn stop_then
  run-stop init file text h quiet zero turns k p b = (k, p, refl, b, omega arith)
  run-stop init file text h quiet (suc n) turns k p b =
      let (b', less) = stop_step-Between this init file text maps h k p b in
      let (k', p', same, b'', left) =
        run-stop init file text h quiet n turns (stop_step this maps k p).0
          (stop_step this maps k p).1 b' in
      (k', p', run_quiet stop_turn _ _ _ refl (quiet _) ∙ same, b'', omega arith)

  -- A turn of the handler.
  pub run-handler :
      (turns : List Turn) (h h' : HandlerPoint) (k : StopPoint) (p p' : Process Other)
      → overlaps h' k ≡ false
      → handler_step foreign sigprof ctx h p ≡ some (h', p')
      → run foreign ctx this maps
          (handler_turn ∷ turns)
          (record { handling = h; stopping = k; process = p })
        ≡ run foreign ctx this maps turns (record { handling = h'; stopping = k; process = p' })
  unfolding turn
  run-handler turns h h' k p p' quiet e = run_quiet handler_turn turns _ _ (bind_some _ e) quiet

  -- Turns of stop that restore the disposition and clear static_impl, between the handler's test and
  -- its call.
  pub run-cleared :
      (turns : List Turn) (p : Process Other)
      → run foreign ctx this maps
          (stop_turn ∷ stop_turn ∷ turns)
          (record { handling = tested; stopping = called; process = p })
        ≡ run foreign ctx this maps turns (record {
          handling = tested;
          stopping = writing (trailer_writes maps);
          process = unpublish (restore this p);
        })
  unfolding turn stop_step
  run-cleared turns p =
      run_quiet stop_turn (stop_turn ∷ turns) _ _ refl refl
      ∙ run_quiet stop_turn turns _ _ refl refl
