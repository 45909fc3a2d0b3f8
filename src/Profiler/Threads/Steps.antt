-- ===== src/Profiler/Threads/Steps.antt =====
-- The steps of a handler of SIGPROF on one thread, while another thread runs stop.
use jointprof.Profiler.Defs.{
  sigprof, Handler, sig_dfl, sig_ign, static_handler, function, SigAction, Process, Context,
  write_stream, update,
}
use jointprof.Profiler.Session.{IsContext, context_stack, trace_lem}
use jointprof.Profiler.Threads.{
  in_write, HandlerPoint, entered, tested, in_handler, sampled, saved, chained, returned, null_call,
  StopPoint, call_old, handler_step,
}
use jointprof.Profiler.Threads.Between.{
  remaining, handler_left, Between, Published-cases, write-OpenUntil,
}
use jointprof.Profiler.Threads.Stop.{moved, streamed}
use jointprof.Profiler.Trace.Laws.{sample}
use jointprof.Profiler.Race.Writes.{joined}
use jointprof.Profiler.Words.{words_bytes}
use jointprof.Common.{
  ℕ, ◌-◌, ◌≤◌, ◌≡◌, ◌≢◌, refl, sym, ap, ◌∙◌, subst, inl, inr, true, none, some, bind_some, List, [],
  ◌++◌, append_assoc, append-nil, Bytes, arith, if◌then◌else◌,
}

module _ {Other : Type 0} (foreign : ℕ → SigAction × Other → SigAction × Other)
    (ctx : Context) where
  pub enter_some :
      (this : ℕ) (p : Process Other)
      → p.static_impl ≡ some this
      → handler_step foreign sigprof ctx entered p ≡ some (tested, p)
  unfolding handler_step
  enter_some this p e = simp (e, handler_step)

  pub tested_elim :
      (this : ℕ) (p : Process Other)
      → p.static_impl ≡ some this
      → handler_step foreign sigprof ctx tested p
        ≡ (if p.live this then some (in_handler this, p) else none)
  unfolding handler_step
  tested_elim this p e = simp (e, handler_step)

  pub tested_some :
      (this : ℕ) (p : Process Other)
      → p.static_impl ≡ some this
      → p.live this ≡ true
      → handler_step foreign sigprof ctx tested p ≡ some (in_handler this, p)
  tested_some this p e alive = tested_elim this p e ∙ rw alive refl

  pub tested_none :
      (p : Process Other)
      → p.static_impl ≡ none
      → handler_step foreign sigprof ctx tested p ≡ some (null_call, p)
  unfolding handler_step
  tested_none p e = simp (e, handler_step)

  -- The process after the sample is written.
  abbrev pub with_sample : ℕ → Process Other → Process Other
  with_sample this p = record p {
    impls = update p.impls this (record (p.impls this) {
      ofs = write_stream (p.impls this).ofs (words_bytes (sample (context_stack ctx)));
    });
  }

  pub begin_some :
      (this : ℕ) (p : Process Other)
      → IsContext ctx
      → handler_step foreign sigprof ctx (in_handler this) p
        ≡ some (in_write this (sample (context_stack ctx)), p)
  unfolding handler_step
  begin_some this p good =
      let trace = trace_lem ctx.stack ctx.pc ctx.frames good.array good.limit in
      rw (trace, handler_step) refl

  pub call_old_lem :
      (old : Handler) (p : Process Other)
      → old ≢ static_handler
      → (action : SigAction) × (other : Other) × (call_old foreign old p
          ≡ some (record p { action = action; other = other }))
  unfolding call_old
  call_old_lem sig_dfl p ne = (p.action, p.other, refl)
  call_old_lem sig_ign p ne = (p.action, p.other, refl)
  call_old_lem static_handler p ne = absurd (ne refl)
  call_old_lem (function n) p ne =
      ((foreign n (p.action, p.other)).0, (foreign n (p.action, p.other)).1, refl)

module _ {Other : Type 0} (foreign : ℕ → SigAction × Other → SigAction × Other) (ctx : Context)
    (good : IsContext ctx) (this : ℕ) (init : SigAction) (file : Bytes) (maps : List Bytes) where
  abbrev pub one : Bytes
  one = words_bytes (sample (context_stack ctx))

  abbrev pub Sound : HandlerPoint → StopPoint → Process Other → Type 0
  Sound h k p = Between this init file one maps h k p

  abbrev pub Steps : HandlerPoint → StopPoint → Process Other → Type 0
  Steps h k p =
      (h' : HandlerPoint) × (p' : Process Other) × (handler_step foreign sigprof ctx h p
        ≡ some (h', p'))
      × Sound h' k p'
      × (handler_left h' ≤ handler_left h - 1)

  enter-Steps : (k : StopPoint) (p : Process Other) → Sound entered k p → Steps entered k p
  unfolding handler_step handler_left
  enter-Steps k p b = elim (Published-cases this k p.static_impl b.published) [
    | inl e ↦ (
      tested,
      p,
      enter_some foreign ctx this p e,
      moved this init file one maps entered tested k k p p.action p.static_impl p.other b
          b.published b.at b.taken refl b.stream,
      omega arith,
    )
    | inr e ↦ (
      returned,
      p,
      simp (e, handler_step),
      moved this init file one maps entered returned k k p p.action p.static_impl p.other b
          b.published b.at (inl b.taken) refl b.stream,
      omega arith,
    )
  ]

  test-Steps : (k : StopPoint) (p : Process Other) → Sound tested k p → Steps tested k p
  unfolding handler_step handler_left
  test-Steps k p b = elim (Published-cases this k p.static_impl b.published) [
    | inl e ↦ (
      in_handler this,
      p,
      tested_some foreign ctx this p e b.alive,
      moved this init file one maps tested (in_handler this) k k p p.action p.static_impl p.other b
          b.published (refl, b.at) b.taken refl b.stream,
      omega arith,
    )
    | inr e ↦ (
      null_call,
      p,
      tested_none foreign ctx p e,
      moved this init file one maps tested null_call k k p p.action p.static_impl p.other b
          b.published tt (inl b.taken) refl b.stream,
      omega arith,
    )
  ]

  begin-Steps :
      (k : StopPoint) (p : Process Other)
      → Sound (in_handler this) k p
      → Steps (in_handler this) k p
  unfolding handler_left
  begin-Steps k p b = (
    in_write this (sample (context_stack ctx)),
    p,
    begin_some foreign ctx this p good,
    moved this init file one maps (in_handler this) (in_write this (sample (context_stack ctx))) k k
        p p.action p.static_impl p.other b b.published (refl, b.at.1) (b.taken, refl) refl b.stream,
    omega arith,
  )

  sample-Steps :
      (words : List ℕ) (k : StopPoint) (p : Process Other)
      → Sound (in_write this words) k p
      → Steps (in_write this words) k p
  unfolding handler_step handler_left
  sample-Steps words k p b =
      let ofs = (p.impls this).ofs in
      let text = words_bytes words in
      let (open', how) = write-OpenUntil k ofs text b.stream in
      let put =
        streamed this init file one maps (in_write this words) (sampled this) k k p
          (write_stream ofs text) in
      let empty = b.contents ∙ ap (λ x. file ++ (b.front ++ (x ++ b.back))) b.taken.0 in
      (
        sampled this,
        _,
        refl,
        elim how [
          | inl lost ↦
              put b.front [] b.back b b.published b.at (lost ∙ empty) b.written (inl refl) open'
          | inr added ↦
              put (b.front ++ b.back) text [] b b.published b.at
                (added ∙ ap (λ t. t ++ text) empty ∙ simp (append_assoc, append-nil))
                (ap (λ t. t ++ joined (remaining maps k)) (append-nil (b.front ++ b.back))
                  ∙ b.written)
                (inr b.taken.1) open'
        ],
        omega arith,
      )

  pub handler_step-Steps :
      (h : HandlerPoint) (k : StopPoint) (p : Process Other) → Sound h k p → Steps h k p
  unfolding handler_step handler_left
  handler_step-Steps entered k p b = enter-Steps k p b
  handler_step-Steps tested k p b = test-Steps k p b
  handler_step-Steps (in_handler q) k p b =
      let e = sym b.at.0 in
      subst (λ r. Sound (in_handler r) k p → Steps (in_handler r) k p) e (begin-Steps k p) b
  handler_step-Steps (in_write q words) k p b =
      let e = sym b.at.0 in
      subst (λ r. Sound (in_write r words) k p → Steps (in_write r words) k p) e
        (sample-Steps words k p) b
  handler_step-Steps (sampled q) k p b = (
    saved q p.action,
    p,
    refl,
    moved this init file one maps (sampled q) (saved q p.action) k k p p.action p.static_impl
        p.other b b.published (b.at.0, b.at.1, b.at.1) b.taken refl b.stream,
    omega arith,
  )
  handler_step-Steps (saved q myact) k p b =
      let ne = λ (e : (p.impls q).oldact.handler ≡ static_handler).
        b.old (subst (λ r. (p.impls r).oldact.handler ≡ static_handler) b.at.0 e) in
      let (action, other, e) = call_old_lem foreign ctx (p.impls q).oldact.handler p ne in
      (
        chained myact,
        _,
        bind_some _ e,
        moved this init file one maps (saved q myact) (chained myact) k k p action p.static_impl
            other b b.published b.at.1 b.taken refl b.stream,
        omega arith,
      )
  handler_step-Steps (chained myact) k p b = (
    returned,
    _,
    refl,
    moved this init file one maps (chained myact) returned k k p myact p.static_impl p.other b
        b.published b.at b.taken refl b.stream,
    omega arith,
  )
  handler_step-Steps returned k p b = (returned, p, refl, b, omega arith)
  handler_step-Steps null_call k p b = (null_call, p, refl, b, omega arith)
