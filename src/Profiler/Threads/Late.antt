-- ===== src/Profiler/Threads/Late.antt =====
-- src/profiler.cpp, two schedules of a handler and stop that end badly.
use jointprof.Profiler.Defs.{static_handler, SigAction, Stream, Process, Context, write_stream}
use jointprof.Profiler.Machine.Stuck.{AllRefused, all_refused}
use jointprof.Profiler.Race.{restore, unpublish}
use jointprof.Profiler.Session.{IsContext, Running, context_stack}
use jointprof.Profiler.Threads.{
  in_write, in_chunk, closing, ends, entered, tested, in_handler, sampled, saved, chained, returned,
  null_call, StopPoint, called, restored, writing, stopped, trailer_writes, Threads, Turn,
  handler_turn, stop_turn, handler_step, run, both_enter,
}
use jointprof.Profiler.Threads.Between.{stop_left, Published, Between, write_open}
use jointprof.Profiler.Threads.Outcomes.{enter-Between}
use jointprof.Profiler.Threads.Quiet.{stop_then, run-stop, run-handler, run-cleared}
use jointprof.Profiler.Threads.Steps.{
  enter_some, tested_some, tested_none, with_sample, begin_some, call_old_lem,
}
use jointprof.Profiler.Threads.Stop.{moved, streamed}
use jointprof.Profiler.Trace.Laws.{sample}
use jointprof.Profiler.Words.{words_bytes}
use jointprof.Common.{
  inl, inr, true, subst, ℕ, ◌+◌, ◌≤◌, ◌≡◌, refl, sym, ap, ◌∙◌, Bool, none, bind_some, List, [], ◌∷◌,
  ◌++◌, append-nil, Bytes, length, arith,
}

-- The handler reads the disposition, stop runs from its beginning to its end, with the handler's call
-- of the handler that `oldact` names somewhere among its steps, and the handler goes on.
abbrev pub late_turns : ℕ → ℕ → List Turn
late_turns n m =
    handler_turn
    ∷ handler_turn
    ∷ handler_turn
    ∷ handler_turn
    ∷ handler_turn
    ∷ stop_then n (handler_turn ∷ stop_then m (handler_turn ∷ []))

-- The handler tests static_impl, stop clears it, the handler calls through it.
abbrev pub null_turns : List Turn
null_turns = handler_turn ∷ stop_turn ∷ stop_turn ∷ handler_turn ∷ []

module _ {Other : Type 0} (foreign : ℕ → SigAction × Other → SigAction × Other) (ctx : Context)
    (this : ℕ) (maps : List Bytes) where
  -- The first five turns of the handler.
  run-saved :
      (file : Bytes) (p : Process Other) (turns : List Turn)
      → IsContext ctx
      → Running this file p
      → run foreign ctx this maps
          (handler_turn ∷ handler_turn ∷ handler_turn ∷ handler_turn ∷ handler_turn ∷ turns)
          (both_enter p)
        ≡ run foreign ctx this maps turns (record {
          handling = saved this p.action;
          stopping = called;
          process = with_sample foreign ctx this p;
        })
  unfolding handler_step
  run-saved file p turns good r =
      let words = sample (context_stack ctx) in
      let q = with_sample foreign ctx this p in
      run-handler foreign ctx this maps _ entered tested called p p refl
        (enter_some foreign ctx this p r.published)
      ∙ run-handler foreign ctx this maps _ tested (in_handler this) called p p refl
          (tested_some foreign ctx this p r.published r.alive)
      ∙ run-handler foreign ctx this maps _ (in_handler this) (in_write this words) called p p refl
          (begin_some foreign ctx this p good)
      ∙ run-handler foreign ctx this maps _ (in_write this words) (sampled this) called p q refl
          refl
      ∙ run-handler foreign ctx this maps turns (sampled this) (saved this p.action) called q q refl
          refl

  saved-Between :
      (file : Bytes) (p : Process Other)
      → Running this file p
      → Between this
          (p.impls this).initact
          file
          (words_bytes (sample (context_stack ctx)))
          maps
          (saved this p.action)
          called
          (with_sample foreign ctx this p)
  unfolding write_stream
  saved-Between file p r =
      let text = words_bytes (sample (context_stack ctx)) in
      let b = enter-Between foreign this file text maps p r in
      streamed this (p.impls this).initact file text maps entered (saved this p.action) called
        called p (write_stream (p.impls this).ofs text) [] text [] b r.published
        (refl, inl r.installed, inl r.installed)
        (write_open (p.impls this).ofs text b.stream.0 b.stream.1
          ∙ ap (λ (o : Stream). o.contents ++ text) r.stream
          ∙ ap (λ t. file ++ t) (sym (append-nil text)))
        refl (inr refl) (rw r.stream (refl, refl))

  stop_end : (k : StopPoint) → stop_left maps k ≡ 0 → k ≡ stopped
  unfolding stop_left
  stop_end called e = absurd (omega arith)
  stop_end restored e = absurd (omega arith)
  stop_end (writing more) e = absurd (omega arith)
  stop_end (in_chunk chunk more) e = absurd (omega arith)
  stop_end closing e = absurd (omega arith)
  stop_end stopped e = refl

  -- The two turns of the handler behind its reading of the disposition, with turns of stop in front of
  -- each.
  run-chained :
      (init : SigAction) (file text : Bytes) (n m : ℕ) (myact : SigAction) (p : Process Other)
      → Between this init file text maps (saved this myact) called p
      → length maps + length maps + 6 ≤ n + m
      → (s : Threads Other) × (run foreign ctx this maps
            (stop_then n (handler_turn ∷ stop_then m (handler_turn ∷ [])))
            (record { handling = saved this myact; stopping = called; process = p })
          ≡ ends s)
        × (s.handling ≡ returned)
        × (s.stopping ≡ stopped)
        × (s.process.static_impl ≡ none)
        × (s.process.action ≡ myact)
  unfolding handler_step stop_left
  run-chained init file text n m myact p b enough =
      let (k, q, first, b', left) =
        run-stop foreign ctx this maps init file text (saved this myact) (λ k. refl) n
          (handler_turn ∷ stop_then m (handler_turn ∷ [])) called p b in
      let (action, other, e) = call_old_lem foreign ctx (q.impls this).oldact.handler q b'.old in
      let q' : Process Other = record q { action = action; other = other } in
      let chain =
        run-handler foreign ctx this maps (stop_then m (handler_turn ∷ [])) (saved this myact)
          (chained myact) k q q' refl (bind_some _ e) in
      let b'' =
        moved this init file text maps (saved this myact) (chained myact) k k q action q.static_impl
          other b' b'.published b'.at.1 b'.taken refl b'.stream in
      let (k', r, second, b3, left') =
        run-stop foreign ctx this maps init file text (chained myact) (λ k. refl) m
          (handler_turn ∷ []) k q' b'' in
      let end : k' ≡ stopped = stop_end k' (omega arith) in
      let last =
        run-handler foreign ctx this maps [] (chained myact) returned k' r
          (record r { action = myact }) refl refl in
      (
        record { handling = returned; stopping = k'; process = record r { action = myact } },
        first ∙ chain ∙ second ∙ last ∙ (unfold run in refl),
        refl,
        end,
        subst (λ k. Published this k r.static_impl) end b3.published,
        refl,
      )

  -- stop does not wait for handlers. SIGPROF reaches its handler on one thread while another thread
  -- calls stop on the object that profiles, and the signal finds the array and the trace in order. If all
  -- of stop runs behind the handler's reading of the disposition and before its last sigaction, with the
  -- call of the handler that `oldact` names anywhere among its steps, then both return without a
  -- fault or a data race and nothing is published, but the profiler's own handler is the disposition of
  -- SIGPROF, and starts of any objects, one after another, are all refused as long as nothing
  -- else changes the disposition. In the schedule where stop restores the disposition and clears
  -- static_impl behind the handler's test of it, the handler calls through NULL.
  pub late_handler :
      (file : Bytes) (p : Process Other) (n m : ℕ) (attempts : List (Bool × ℕ))
      → IsContext ctx
      → Running this file p
      → length maps + length maps + 6 ≤ n + m
      → ((s : Threads Other) × (run foreign ctx this maps (late_turns n m) (both_enter p) ≡ ends s)
          × (s.handling ≡ returned)
          × (s.stopping ≡ stopped)
          × (s.process.static_impl ≡ none)
          × (s.process.action ≡ record { handler = static_handler; siginfo = true })
          × AllRefused attempts s.process)
        × ((s : Threads Other) × (run foreign ctx this maps null_turns (both_enter p) ≡ ends s)
            × (s.handling ≡ null_call))
  unfolding unpublish
  late_handler file p n m attempts good r enough =
      let (s, chain, back, done, nothing, left) =
        run-chained (p.impls this).initact file (words_bytes (sample (context_stack ctx))) n m
          p.action (with_sample foreign ctx this p) (saved-Between file p r) enough in
      let own = left ∙ r.installed in
      let gone = unpublish (restore this p) in
      (
        (
          s,
          run-saved file p _ good r ∙ chain,
          back,
          done,
          nothing,
          own,
          all_refused attempts s.process nothing (ap (λ (a : SigAction). a.siginfo) own),
        ),
        (
          record { handling = null_call; stopping = writing (trailer_writes maps); process = gone },
          run-handler foreign ctx this maps (stop_turn ∷ stop_turn ∷ handler_turn ∷ []) entered
                tested called p p refl (enter_some foreign ctx this p r.published)
              ∙ run-cleared foreign ctx this maps (handler_turn ∷ []) p
              ∙ run-handler foreign ctx this maps [] tested null_call
                  (writing (trailer_writes maps)) gone gone refl (tested_none foreign ctx gone refl)
              ∙ (unfold run in refl),
          refl,
        ),
      )
