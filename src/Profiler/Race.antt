-- ===== src/Profiler/Race.antt =====
-- src/profiler.cpp, start and stop as sequences of steps with SIGPROF arriving between them.
pub mod Writes
use jointprof.Profiler.Defs.{
  Handler, sig_dfl, sig_ign, static_handler, function, SigAction, Impl, Process, write_header,
  close_stream, write_stream, trailer_words, set_impl, sigprof, Context, update, begin,
  static_handle,
}
use jointprof.Profiler.Words.{words_bytes}
use jointprof.Common.{
  ℕ, ◌≡◌, refl, ap, ◌∙◌, true, Option, none, some, ◌>>=◌, bind_some, List, [], ◌∷◌, Bytes,
}

-- A handler that runs on SIGPROF without ending the process, and is not the profiler's own.
abbrev pub Harmless : Handler → Type 0
Harmless sig_dfl = ⊥
Harmless sig_ign = Unit
Harmless static_handler = ⊥
Harmless (function n) = Unit

module _ {Other : Type 0} where
  -- The steps of the end of start: write_header, sigaction, `static_impl = this`.
  unfoldable pub put_header : ℕ → Impl → Process Other → Process Other
  put_header this impl p = record p { impls = update p.impls this (write_header impl) }

  unfoldable pub install : Process Other → Process Other
  install p = record p { action = record { handler = static_handler; siginfo = true } }

  unfoldable pub publish : ℕ → Process Other → Process Other
  publish this p = record p { static_impl = some this }

  -- The steps of stop: sigaction, `static_impl = NULL`, the writes of write_trailer, `ofs.close()`.
  unfoldable pub restore : ℕ → Process Other → Process Other
  restore this p = record p { action = (p.impls this).initact }

  unfoldable pub unpublish : Process Other → Process Other
  unpublish p = record p { static_impl = none }

  -- One write of write_trailer.
  unfoldable pub write_chunk : ℕ → Bytes → Process Other → Process Other
  write_chunk this chunk p =
      let impl = p.impls this in set_impl p this (record impl { ofs = write_stream impl.ofs chunk })

  -- `ofs.close()`
  unfoldable pub close_file : ℕ → Process Other → Process Other
  close_file this p =
      let impl = p.impls this in set_impl p this (record impl { ofs = close_stream impl.ofs })

module _ {Other : Type 0} (foreign : ℕ → SigAction × Other → SigAction × Other) where
  -- SIGPROF reaches the handler of its disposition; SIG_DFL ends the process.
  unfoldable pub deliver : Context → Process Other → Option (Process Other)
  deliver ctx p = elim p.action.handler [
    | sig_dfl ↦ none
    | sig_ign ↦ some p
    | static_handler ↦ static_handle foreign sigprof ctx p
    | function n ↦
        let (action, other) = foreign n (p.action, p.other) in
        some (record p { action = action; other = other })
  ]

  unfoldable pub deliver_all : List Context → Process Other → Option (Process Other)
  deliver_all [] p = some p
  deliver_all (ctx ∷ ctxs) p = do p' ← deliver ctx p; deliver_all ctxs p'

  -- The end of start, with signals in front of each of its steps.
  unfoldable pub interrupted_begin :
      List Context → List Context → List Context → ℕ → Impl → Process Other → Option (Process Other)
  interrupted_begin before_header before_install before_publish this impl p = do
    p ← deliver_all before_header p
    p ← deliver_all before_install (put_header this impl p)
    p ← deliver_all before_publish (install p)
    some (publish this p)

  -- Writes, each with the signals behind it.
  unfoldable pub interrupted_writes :
      ℕ → List (Bytes × List Context) → Process Other → Option (Process Other)
  interrupted_writes this [] p = some p
  interrupted_writes this ((chunk, ctxs) ∷ more) p = do
    p ← deliver_all ctxs (write_chunk this chunk p)
    interrupted_writes this more p

  -- stop, with signals behind each of its steps: sigaction, `static_impl = NULL`, each write of
  -- write_trailer (its words, then a text for each entry of the maps), and close.
  unfoldable pub interrupted_stop :
      List Context
      → List Context
      → List Context
      → List (Bytes × List Context)
      → List Context
      → ℕ
      → Process Other
      → Option (Process Other)
  interrupted_stop after_restore after_unpublish after_words maps after_close this p = do
    p ← deliver_all after_restore (restore this p)
    p ← deliver_all after_unpublish (unpublish p)
    p ← interrupted_writes this ((words_bytes trailer_words, after_words) ∷ maps) p
    deliver_all after_close (close_file this p)

  -- Handlers of other code leave the disposition of SIGPROF alone.
  abbrev pub KeepsAction : Type 0
  KeepsAction =
      (n : ℕ) (action : SigAction) (other : Other) → (foreign n (action, other)).0 ≡ action

  -- Only the state of other code changes.
  abbrev pub Foreign : Process Other → Option (Process Other) → Type 0
  Foreign p r = (other : Other) × (r ≡ some (record p { other = other }))

  deliver-Foreign :
      (keeps : KeepsAction) (ctx : Context) (p : Process Other)
      → Harmless p.action.handler
      → Foreign p (deliver ctx p)
  unfolding deliver
  deliver-Foreign keeps ctx p h = go p.action.handler h
    where
      go :
          (hd : Handler)
          → Harmless hd
          → Foreign p (elim hd [
            | sig_dfl ↦ none
            | sig_ign ↦ some p
            | static_handler ↦ static_handle foreign sigprof ctx p
            | function n ↦
                let (action, other) = foreign n (p.action, p.other) in
                some (record p { action = action; other = other })
          ])
      go sig_dfl h = absurd h
      go sig_ign h = (p.other, refl)
      go static_handler h = absurd h
      go (function n) h = (
        (foreign n (p.action, p.other)).1,
        ap
            (λ (a : SigAction).
              some (record p { action = a; other = (foreign n (p.action, p.other)).1 }))
            (keeps n p.action p.other),
      )

  pub deliver_all-Foreign :
      (keeps : KeepsAction) (ctxs : List Context) (p : Process Other)
      → Harmless p.action.handler
      → Foreign p (deliver_all ctxs p)
  unfolding deliver_all
  deliver_all-Foreign keeps [] p h = (p.other, refl)
  deliver_all-Foreign keeps (ctx ∷ ctxs) p h =
      let (one, e) = deliver-Foreign keeps ctx p h in
      let (other, e') = deliver_all-Foreign keeps ctxs (record p { other = one }) h in
      (other, bind_some _ e ∙ e')

  -- Our handler does nothing while no object is published.
  deliver-install :
      (ctx : Context) (p : Process Other)
      → p.static_impl ≡ none
      → deliver ctx (install p) ≡ some (install p)
  unfolding deliver install static_handle
  deliver-install ctx p idle = simp (idle, static_handle)

  deliver_all-install :
      (ctxs : List Context) (p : Process Other)
      → p.static_impl ≡ none
      → deliver_all ctxs (install p) ≡ some (install p)
  unfolding deliver_all
  deliver_all-install [] p idle = refl
  deliver_all-install (ctx ∷ ctxs) p idle =
      bind_some _ (deliver-install ctx p idle) ∙ deliver_all-install ctxs p idle

  -- Signals that arrive between the steps of start, before the object is published, do not fault and
  -- write no sample: start ends as it does without them, up to the state of other code. The handler
  -- found is one of other code or SIG_IGN, handlers of other code leave the disposition alone, and no
  -- object was published before.
  pub interrupted_begin-begin :
      (keeps : KeepsAction) (first second third : List Context) (this : ℕ) (impl : Impl)
      (p : Process Other)
      → Harmless p.action.handler
      → p.static_impl ≡ none
      → (other : Other) × (interrupted_begin first second third this impl p
          ≡ some (record (begin this impl p) { other = other }))
  unfolding interrupted_begin begin put_header install publish
  interrupted_begin-begin keeps first second third this impl p h idle =
      let (one, e) = deliver_all-Foreign keeps first p h in
      let (other, e') =
        deliver_all-Foreign keeps second (put_header this impl (record p { other = one })) h in
      (
        other,
        bind_some _ e
            ∙ bind_some _ e'
            ∙ bind_some _ (
                deliver_all-install third
                  (record (put_header this impl (record p { other = one })) { other = other })
                  idle),
      )
