-- ===== src/Profiler/Machine/Laws.antt =====
-- src/profiler.cpp, what holds of every process that the steps reach.
use jointprof.Profiler.Again.{IsForeign}
use jointprof.Profiler.Defs.{SigAction, Process, Context, sigprof, start, stop, static_handle}
use jointprof.Profiler.Machine.{Step, stopped, changed, Reach, here, take_step, IsInitial, IsSound}
use jointprof.Profiler.Machine.Steps.{Step-IsSound, static_handle_idle}
use jointprof.Profiler.Session.{
  IsContext, Profiling, CanStart, context_stack, static_handle-Profiling, start-Running,
}
use jointprof.Profiler.Trace.Laws.{sample}
use jointprof.Profiler.Words.{words_bytes}
use mathlib.Core.Option
use mathlib.Core.Option.{none-ne-some, some-injective}
use jointprof.Common.{ℕ, [], ◌≡◌, refl, sym, ap, ◌∙◌, true, Option, none, some, ◌++◌, Bytes}

-- The bytes in the file of the object that profiles.
unfoldable pub running_file : {Other : Type 0} → Process Other → Option Bytes
running_file p = elim p.static_impl [ none ↦ none | some this ↦ some (p.impls this).ofs.contents ]

running_file_lem :
    {Other : Type 0} (this : ℕ) (file : Bytes) (p : Process Other)
    → Profiling this file p
    → running_file p ≡ some file
unfolding running_file
running_file_lem this file p r =
    simp (r.published, running_file) (ap (λ s. some s.contents) r.stream)

running_file-none :
    {Other : Type 0} (p : Process Other) → p.static_impl ≡ none → running_file p ≡ none
unfolding running_file
running_file-none p idle = simp (idle, running_file)

module _ {Other : Type 0} (foreign : ℕ → SigAction × Other → SigAction × Other) where
  initial-IsSound : (p : Process Other) → IsInitial p → IsSound p
  initial-IsSound p i = record {
    proper = i.proper;
    found = λ q l. let clash = sym (i.no_objects q) ∙ l in absurd (cc);
    running = λ q e. absurd (none-ne-some q (sym i.idle ∙ e));
    closed = λ q l idle. let clash = sym (i.no_objects q) ∙ l in absurd (cc);
  }

  -- Only the object that profiles is stopped, it is not destroyed, and other code never installs the profiler's
  -- handler as one of one argument: in every process that such steps reach from the start of the program, a handler of one argument, as it
  -- is installed or as a live object found it, is not that of the profiler; an object that profiles is
  -- live, chains another handler, and has its file open and in a good state; and every other live
  -- object has its file closed.
  pub Reach-IsSound : (p p' : Process Other) → IsInitial p → Reach foreign p p' → IsSound p'
  Reach-IsSound p p' i here = initial-IsSound p i
  Reach-IsSound p p' i (take_step {q = q} r st) =
      Step-IsSound foreign q p' st (Reach-IsSound p q i r)

  -- In no process that the steps reach is a call of static_handler for SIGPROF a fault, if it finds the array and
  -- the trace in order. It
  -- leaves the disposition and the running object as they are, and appends one sample to the file of the
  -- object that profiles, if there is one.
  pub Reach-static_handle :
      (p p' : Process Other) (ctx : Context)
      → IsInitial p
      → Reach foreign p p'
      → IsContext ctx
      → (p'' : Process Other) × (static_handle foreign sigprof ctx p' ≡ some p'')
        × (p''.action ≡ p'.action)
        × (p''.static_impl ≡ p'.static_impl)
        × (running_file p''
            ≡ Option.map
                (λ file. file ++ words_bytes (sample (context_stack ctx)))
                (running_file p'))
  unfolding running_file
  Reach-static_handle p p' ctx i r c = go p'.static_impl refl
    where
      s : IsSound p'
      s = Reach-IsSound p p' i r

      longer : Bytes → Bytes
      longer file = file ++ words_bytes (sample (context_stack ctx))

      Goal : Type 0
      Goal =
          (p'' : Process Other) × (static_handle foreign sigprof ctx p' ≡ some p'')
          × (p''.action ≡ p'.action)
          × (p''.static_impl ≡ p'.static_impl)
          × (running_file p'' ≡ Option.map longer (running_file p'))

      busy : (this : ℕ) → p'.static_impl ≡ some this → Goal
      busy this published =
          let (file, r) = s.running this published in
          let (p'', e, r', same, action) = static_handle-Profiling foreign this file ctx p' r c in
          (
            p'',
            e,
            action,
            r'.published ∙ sym published,
            running_file_lem this (longer file) p'' r'
                ∙ ap (Option.map longer) (sym (running_file_lem this file p' r)),
          )

      go : (o : Option ℕ) → p'.static_impl ≡ o → Goal
      go none idle = (
        p',
        static_handle_idle foreign ctx p' idle,
        refl,
        refl,
        running_file-none p' idle ∙ ap (Option.map longer) (sym (running_file-none p' idle)),
      )
      go (some this) published = busy this published

  -- The object `this` can start in the process, once another code has taken the signal.
  idle-CanStart :
      (this : ℕ) (action : SigAction) (p : Process Other)
      → IsSound p
      → p.static_impl ≡ none
      → p.live this ≡ true
      → IsForeign action
      → CanStart this (record p { action = action })
  idle-CanStart this action p s idle alive f = record {
    idle = idle;
    one_argument = f.one_argument;
    not_ours = f.not_ours;
    closed = s.closed this alive (λ e. none-ne-some this (sym idle ∙ e));
    alive = alive;
  }

  -- From every process that the steps reach, and for each live object in it, there are further steps behind which
  -- that object can be started without an error. Other
  -- code may install a handler of one argument on the way.
  pub Reach-CanStart :
      (p p' : Process Other) (this : ℕ) (action : SigAction)
      → IsInitial p
      → Reach foreign p p'
      → p'.live this ≡ true
      → IsForeign action
      → (q : Process Other) × Reach foreign p' q
        × (q.action ≡ action)
        × ((start true this q).1 ≡ none)
  unfolding stop
  Reach-CanStart p p' this action i r alive f = go p'.static_impl refl
    where
      Goal : Type 0
      Goal =
          (q : Process Other) × Reach foreign p' q
          × (q.action ≡ action)
          × ((start true this q).1 ≡ none)

      from :
          (q : Process Other)
          → Reach foreign p' q
          → IsSound q
          → q.static_impl ≡ none
          → q.live this ≡ true
          → Goal
      from q r' s idle alive' =
          let c = idle-CanStart this action q s idle alive' f in
          (
            record q { action = action },
            take_step r' (changed action (λ e. f.not_ours) refl),
            refl,
            (start-Running this (record q { action = action }) c).0,
          )

      s : IsSound p'
      s = Reach-IsSound p p' i r

      go : (o : Option ℕ) → p'.static_impl ≡ o → Goal
      go none idle = from p' here s idle alive
      go (some that) published =
          let st : Step foreign p' (stop [] that p') = stopped [] that published refl in
          from (stop [] that p') (take_step here st)
            (Step-IsSound foreign p' (stop [] that p') st s) refl alive
