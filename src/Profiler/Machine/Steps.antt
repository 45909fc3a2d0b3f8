-- ===== src/Profiler/Machine/Steps.antt =====
-- src/profiler.cpp, every step of the process keeps it sound.
use jointprof.Profiler.Machine.Objects.{
  IsSound-update, construct-IsSound, destruct-IsSound, change-IsSound,
}
use jointprof.Profiler.Defs.{
  SigAction, Stream, Impl, Process, Context, sigprof, update, begin, is_running, set_impl,
  open_stream, write_header, start, stop, remove_handler, static_handle, header_words,
}
use jointprof.Profiler.Guards.{update_other, static_handle-Outside}
use jointprof.Profiler.Machine.{
  IsProper, Step, made, started, stopped, destroyed, removed, signalled, changed, IsSound,
}
use jointprof.Profiler.Session.{
  IsContext, context_stack, Profiling, CanStart, static_handle-Profiling, stop-Profiling, opened,
  Running-Profiling, begin-Running, start-begin,
}
use jointprof.Profiler.Again.{stop_initact}
use jointprof.Profiler.Trace.Laws.{sample}
use jointprof.Profiler.Words.{words_bytes}
use mathlib.Core.Option.{none-ne-some, some-injective}
use jointprof.Common.{
  ==-cases, ℕ, ◌≡◌, ◌≢◌, refl, sym, ap, ◌∙◌, subst, Bool, true, false, Option, none, some,
  Bool-cases, inl, inr, Bytes, ◌++◌,
}

module _ {Other : Type 0} where
  running_lem : (this : ℕ) (p : Process Other) → p.static_impl ≡ some this → is_running p ≡ true
  unfolding is_running
  running_lem this p e = simp (e, is_running)

  not_running_lem : (p : Process Other) → is_running p ≡ false → (q : ℕ) → p.static_impl ≢ some q
  not_running_lem p e q e' = let clash = sym e ∙ running_lem q p e' in absurd (cc)

  is_running-idle : (p : Process Other) → is_running p ≡ false → p.static_impl ≡ none
  unfolding is_running
  is_running-idle p e = go p.static_impl e
    where
      go : (o : Option ℕ) → elim o [ none ↦ false | some impl ↦ true ] ≡ false → o ≡ none
      go none e = refl
      go (some impl) e = absurd (cc)

  -- A start in front of a handler of three arguments.
  start_oops :
      (can_create : Bool) (this : ℕ) (p : Process Other)
      → is_running p ≡ false
      → p.action.siginfo ≡ true
      → (start can_create this p).0 ≡ set_impl p this (record (p.impls this) { oldact = p.action })
  unfolding start
  start_oops can_create this p still three = simp (still, three)

  -- A start whose file can not be made.
  start_refused :
      (this : ℕ) (p : Process Other)
      → is_running p ≡ false
      → p.action.siginfo ≡ false
      → (p.impls this).ofs.is_open ≡ false
      → (start false this p).0
        ≡ set_impl p this (record (p.impls this) {
          oldact = p.action;
          ofs = record (p.impls this).ofs { is_open = false; failed = false };
        })
  unfolding start open_stream
  start_refused this p still one shut = simp (still, one, shut)

  -- begin makes an object that can start the one that profiles.
  begin-IsSound :
      (this : ℕ) (p : Process Other)
      → IsSound p
      → CanStart this p
      → IsSound (begin this (opened this p) p)
  unfolding begin
  begin-IsSound this p s c =
      let (r, same) = begin-Running this p c in
      let nobody : (q : ℕ) → p.static_impl ≢ some q = λ q e. none-ne-some q (sym c.idle ∙ e) in
      record {
        proper = λ e. absurd (cc);
        found = λ q l. elim (==-cases q this) [
          | inl e ↦
              subst (λ t. IsProper (update p.impls this (write_header (opened this p)) t).initact)
                (sym e) (subst IsProper (sym same) (s.found this c.alive))
          | inr ne ↦
              subst (λ (i : Impl). IsProper i.initact) (sym (update_other p.impls this _ q ne))
                (s.found q l)
        ];
        running = λ q e.
            let same_object : this ≡ q = some-injective this q e in
            (
              words_bytes header_words,
              subst (λ t. Profiling t (words_bytes header_words) (begin this (opened this p) p))
                  same_object
                  (Running-Profiling this (words_bytes header_words) (begin this (opened this p) p)
                    (begin this (opened this p) p).action r),
            );
        closed = λ q l idle.
            let ne : q ≢ this = λ h. idle (ap some (sym h)) in
            ap (λ (i : Impl). i.ofs.is_open) (update_other p.impls this _ q ne)
            ∙ s.closed q l (nobody q);
      }

  start-IsSound :
      (can_create : Bool) (this : ℕ) (p : Process Other)
      → p.live this ≡ true
      → IsSound p
      → IsSound (start can_create this p).0
  unfolding start
  start-IsSound can_create this p alive s = elim (Bool-cases (is_running p)) [
    | inl runs ↦ rw runs s
    | inr still ↦
        let nobody = not_running_lem p still in
        let shut = s.closed this alive (nobody this) in
        elim (Bool-cases p.action.siginfo) [
          | inl three ↦ rw (start_oops can_create this p still three) (
              IsSound-update this _ p.live p s (nobody this) (s.found this alive) shut
                (λ q ne. refl))
          | inr one ↦ at can_create still one nobody shut
        ]
  ]
    where
      can_start :
          is_running p ≡ false
          → p.action.siginfo ≡ false
          → (p.impls this).ofs.is_open ≡ false
          → CanStart this p
      can_start still one shut = record {
        idle = is_running-idle p still;
        one_argument = one;
        not_ours = s.proper one;
        closed = shut;
        alive = alive;
      }

      at :
          (can_create : Bool)
          → is_running p ≡ false
          → p.action.siginfo ≡ false
          → ((q : ℕ) → p.static_impl ≢ some q)
          → (p.impls this).ofs.is_open ≡ false
          → IsSound (start can_create this p).0
      at true still one nobody shut =
          let c = can_start still one shut in rw (start-begin this p c) (begin-IsSound this p s c)
      at false still one nobody shut =
          rw (start_refused this p still one shut) (
            IsSound-update this _ p.live p s (nobody this) (s.found this alive) refl (λ q ne. refl))

  stop-IsSound :
      (maps : Bytes) (this : ℕ) (p : Process Other)
      → p.static_impl ≡ some this
      → IsSound p
      → IsSound (stop maps this p)
  unfolding stop
  stop-IsSound maps this p published s =
      let (file, r) = s.running this published in
      let ended = stop-Profiling this file maps p r in
      record {
        proper = s.found this r.alive;
        found = λ q l. elim (==-cases q this) [
          | inl e ↦
              subst (λ t. IsProper ((stop maps this p).impls t).initact) (sym e)
                (subst IsProper (sym (stop_initact this maps p)) (s.found this r.alive))
          | inr ne ↦
              subst (λ (i : Impl). IsProper i.initact) (sym (update_other p.impls this _ q ne))
                (s.found q l)
        ];
        running = λ q e. absurd (none-ne-some q e);
        closed = λ q l idle. elim (==-cases q this) [
          | inl e ↦
              ap (λ t. ((stop maps this p).impls t).ofs.is_open) e
              ∙ ap (λ (t : Stream). t.is_open) ended.0
          | inr ne ↦
              ap (λ (i : Impl). i.ofs.is_open) (update_other p.impls this _ q ne)
              ∙ s.closed q l (λ e. ne (some-injective q this (sym e ∙ published)))
        ];
      }

  -- Where nothing runs, the handler of the profiler returns at once.
  pub static_handle_idle :
      (foreign : ℕ → SigAction × Other → SigAction × Other) (ctx : Context) (p : Process Other)
      → p.static_impl ≡ none
      → static_handle foreign sigprof ctx p ≡ some p
  unfolding static_handle
  static_handle_idle foreign ctx p idle = simp (idle, static_handle)

  -- A handled signal changes only the stream of the object that profiles.
  signal-IsSound :
      (foreign : ℕ → SigAction × Other → SigAction × Other) (ctx : Context) (p p' : Process Other)
      → IsContext ctx
      → static_handle foreign sigprof ctx p ≡ some p'
      → IsSound p
      → IsSound p'
  signal-IsSound foreign ctx p p' c handled s = go p.static_impl refl
    where
      handled_by : (this : ℕ) → p.static_impl ≡ some this → IsSound p'
      handled_by this published =
          let (file, r) = s.running this published in
          let outside = static_handle-Outside foreign this sigprof ctx p p' published handled in
          let (q, e, r', same, _) = static_handle-Profiling foreign this file ctx p r c in
          let it : q ≡ p' = some-injective q p' (sym e ∙ handled) in
          let new_file = file ++ words_bytes (sample (context_stack ctx)) in
          let r'' : Profiling this new_file p' = subst (Profiling this new_file) it r' in
          let initact : (p'.impls this).initact ≡ (p.impls this).initact =
            subst (λ (t : Process Other). (t.impls this).initact ≡ (p.impls this).initact) it
              same in
          record {
            proper = subst IsProper (sym outside.same_action) s.proper;
            found = λ q l. elim (==-cases q this) [
              | inl e ↦
                  subst (λ t. IsProper (p'.impls t).initact) (sym e)
                    (subst IsProper (sym initact) (s.found this r.alive))
              | inr ne ↦
                  subst (λ (i : Impl). IsProper i.initact) (sym (outside.same_objects q ne))
                    (s.found q (ap (λ f. f q) (sym outside.same_live) ∙ l))
            ];
            running = λ q e.
                let same_object : this ≡ q = some-injective this q (sym r''.published ∙ e) in
                (new_file, subst (λ t. Profiling t new_file p') same_object r'');
            closed = λ q l idle.
                let ne : q ≢ this = λ h. idle (r''.published ∙ ap some (sym h)) in
                ap (λ (i : Impl). i.ofs.is_open) (outside.same_objects q ne)
                ∙ s.closed q (ap (λ f. f q) (sym outside.same_live) ∙ l)
                    (λ e. idle (outside.same_impl ∙ e));
          }

      go : (o : Option ℕ) → p.static_impl ≡ o → IsSound p'
      go none idle =
          subst IsSound
            (some-injective p p' (sym (static_handle_idle foreign ctx p idle) ∙ handled)) s
      go (some this) published = handled_by this published

  pub Step-IsSound :
      (foreign : ℕ → SigAction × Other → SigAction × Other) (p p' : Process Other)
      → Step foreign p p'
      → IsSound p
      → IsSound p'
  unfolding remove_handler
  Step-IsSound foreign p p' (made this dead e) s =
      subst IsSound (sym e) (construct-IsSound this p dead s)
  Step-IsSound foreign p p' (started can_create this alive e) s =
      subst IsSound (sym e) (start-IsSound can_create this p alive s)
  Step-IsSound foreign p p' (stopped maps this published e) s =
      subst IsSound (sym e) (stop-IsSound maps this p published s)
  Step-IsSound foreign p p' (destroyed this other e) s =
      subst IsSound (sym e) (destruct-IsSound this p other s)
  Step-IsSound foreign p p' (removed e) s = subst IsSound (sym e) (change-IsSound _ p (λ _ h. cc) s)
  Step-IsSound foreign p p' (signalled ctx c e) s = signal-IsSound foreign ctx p p' c e s
  Step-IsSound foreign p p' (changed action proper e) s =
      subst IsSound (sym e) (change-IsSound action p proper s)
