-- ===== src/Profiler/Session/Signals.antt =====
-- src/profiler.cpp, any number of SIGPROF signals while an object profiles.
use jointprof.Profiler.Defs.{
  Handler, sig_dfl, sig_ign, static_handler, function, SigAction, Impl, Process, write_stream,
  sigprof, Context, update, chain, handler, static_handle,
}
use jointprof.Profiler.Trace.Laws.{sample, recorded, write_stack_trace-sample}
use jointprof.Profiler.Trace.{k_max_stack_depth, write_stack_trace}
use jointprof.Profiler.Words.{words_bytes}
use jointprof.Common.{
  ℕ, ◌+◌, ◌-◌, ◌≤◌, ◌≡◌, ◌≢◌, refl, sym, ap, ◌∙◌, subst, true, false, Option, some, ◌>>=◌,
  bind_some, List, [], ◌∷◌, ◌++◌, append_assoc, append-nil, arith, ==-refl, Bytes, length, All,
}

-- The array of write_stack_trace has its size, and the trace obeys its limit.
pub record IsContext (ctx : Context) : Type 0 where
  pub array : length ctx.stack ≡ k_max_stack_depth + 2
  pub limit : length ctx.frames ≤ k_max_stack_depth - 1

-- The stack that the sample of a signal records.
abbrev pub recorded_stack : List ℕ → ℕ → List ℕ → List ℕ
recorded_stack (a ∷ b ∷ rest) pc frames = recorded a b pc frames
recorded_stack (a ∷ []) pc frames = pc ∷ frames
recorded_stack [] pc frames = pc ∷ frames

abbrev pub context_stack : Context → List ℕ
context_stack ctx = recorded_stack ctx.stack ctx.pc ctx.frames

-- The bytes of the samples of several signals.
unfoldable pub samples_bytes : List Context → Bytes
samples_bytes [] = []
samples_bytes (ctx ∷ ctxs) = words_bytes (sample (context_stack ctx)) ++ samples_bytes ctxs

pub trace_lem :
    (stack : List ℕ) (pc : ℕ) (frames : List ℕ)
    → length stack ≡ k_max_stack_depth + 2
    → length frames ≤ k_max_stack_depth - 1
    → write_stack_trace stack pc frames ≡ some (sample (recorded_stack stack pc frames))
trace_lem [] pc frames size fits = absurd (omega arith)
trace_lem (a ∷ []) pc frames size fits = absurd (omega arith)
trace_lem (a ∷ b ∷ rest) pc frames size fits =
    write_stack_trace-sample a b rest pc frames (omega arith) fits

pub update_self : (impls : ℕ → Impl) (this : ℕ) (impl : Impl) → update impls this impl this ≡ impl
unfolding update
update_self impls this impl = rw (==-refl this)

-- `this` is published, and its file holds `file` so far; the disposition may have changed since it started.
pub record Profiling {Other : Type 0} (this : ℕ) (file : Bytes) (p : Process Other) : Type 0 where
  pub published : p.static_impl ≡ some this
  pub alive : p.live this ≡ true
  pub stream : (p.impls this).ofs ≡ record { is_open = true; failed = false; contents = file }
  pub chained : (p.impls this).oldact.handler ≢ static_handler

-- `this` is profiling, and its file holds `file` so far.
pub record Running {Other : Type 0} (this : ℕ) (file : Bytes) (p : Process Other) : Type 0 where
  pub published : p.static_impl ≡ some this
  pub alive : p.live this ≡ true
  pub installed : p.action ≡ record { handler = static_handler; siginfo = true }
  pub stream : (p.impls this).ofs ≡ record { is_open = true; failed = false; contents = file }
  pub chained : (p.impls this).oldact.handler ≢ static_handler

pub Running-Profiling :
    {Other : Type 0} (this : ℕ) (file : Bytes) (p : Process Other) (action : SigAction)
    → Running this file p
    → Profiling this file (record p { action = action })
Running-Profiling this file p action r = record {
  published = r.published;
  alive = r.alive;
  stream = r.stream;
  chained = r.chained;
}

module _ {Other : Type 0} (foreign : ℕ → SigAction × Other → SigAction × Other) where
  -- SIGPROF arrives several times.
  unfoldable pub signals : List Context → Process Other → Option (Process Other)
  signals [] p = some p
  signals (ctx ∷ ctxs) p = do p' ← static_handle foreign sigprof ctx p; signals ctxs p'

  -- The call of the other handler changes nothing but the state of the other code.
  chain_lem :
      (h : Handler) (p : Process Other)
      → h ≢ static_handler
      → (other : Other) × (chain foreign h p ≡ some (record p { other = other }))
  unfolding chain
  chain_lem sig_dfl p ne = (p.other, refl)
  chain_lem sig_ign p ne = (p.other, refl)
  chain_lem static_handler p ne = absurd (ne refl)
  chain_lem (function n) p ne = ((foreign n (p.action, p.other)).1, refl)

  static_handle_lem :
      (this signal : ℕ) (ctx : Context) (p : Process Other)
      → p.static_impl ≡ some this
      → p.live this ≡ true
      → static_handle foreign signal ctx p ≡ handler foreign this signal ctx p
  unfolding static_handle
  static_handle_lem this signal ctx p published alive =
      simp (published, static_handle) (simp (alive))

  -- The process after the sample of `ctx` is written, before the other handler is called.
  abbrev sampled : ℕ → Context → Process Other → Process Other
  sampled this ctx p = record p {
    impls = update p.impls this (record (p.impls this) {
      ofs = write_stream (p.impls this).ofs (words_bytes (sample (context_stack ctx)));
    });
  }

  handler_lem :
      (this : ℕ) (ctx : Context) (p : Process Other)
      → IsContext ctx
      → handler foreign this sigprof ctx p
        ≡ chain foreign (p.impls this).oldact.handler (sampled this ctx p)
  unfolding handler
  handler_lem this ctx p c = rw (trace_lem ctx.stack ctx.pc ctx.frames c.array c.limit, handler)

  sampled-Profiling :
      (this : ℕ) (file : Bytes) (ctx : Context) (p : Process Other) (other : Other)
      → Profiling this file p
      → Profiling this
          (file ++ words_bytes (sample (context_stack ctx)))
          (record (sampled this ctx p) { other = other })
  sampled-Profiling this file ctx p other r =
      let at = update_self p.impls this (record (p.impls this) {
        ofs = write_stream (p.impls this).ofs (words_bytes (sample (context_stack ctx)));
      }) in
      record {
        published = r.published;
        alive = r.alive;
        stream = rw (at, r.stream) (unfold write_stream in refl);
        chained = rw at r.chained;
      }

  -- One signal adds its sample to the file, and the session goes on.
  pub static_handle-Profiling :
      (this : ℕ) (file : Bytes) (ctx : Context) (p : Process Other)
      → Profiling this file p
      → IsContext ctx
      → (p' : Process Other) × (static_handle foreign sigprof ctx p ≡ some p')
        × Profiling this (file ++ words_bytes (sample (context_stack ctx))) p'
        × ((p'.impls this).initact ≡ (p.impls this).initact)
        × (p'.action ≡ p.action)
  static_handle-Profiling this file ctx p r c =
      let (other, e) = chain_lem (p.impls this).oldact.handler (sampled this ctx p) r.chained in
      (
        record (sampled this ctx p) { other = other },
        static_handle_lem this sigprof ctx p r.published r.alive ∙ handler_lem this ctx p c ∙ e,
        sampled-Profiling this file ctx p other r,
        ap (λ (i : Impl). i.initact) (update_self p.impls this _),
        refl,
      )

  pub static_handle-Running :
      (this : ℕ) (file : Bytes) (ctx : Context) (p : Process Other)
      → Running this file p
      → IsContext ctx
      → (p' : Process Other) × (static_handle foreign sigprof ctx p ≡ some p')
        × Running this (file ++ words_bytes (sample (context_stack ctx))) p'
        × ((p'.impls this).initact ≡ (p.impls this).initact)
  static_handle-Running this file ctx p r c =
      let (p', e, profiling, same, action) =
        static_handle-Profiling this file ctx p (Running-Profiling this file p p.action r) c in
      (
        p',
        e,
        record {
          published = profiling.published;
          alive = profiling.alive;
          installed = action ∙ r.installed;
          stream = profiling.stream;
          chained = profiling.chained;
        },
        same,
      )

  -- Several signals add their samples in order.
  pub signals-Running :
      (ctxs : List Context) (this : ℕ) (file : Bytes) (p : Process Other)
      → Running this file p
      → All IsContext ctxs
      → (p' : Process Other) × (signals ctxs p ≡ some p')
        × Running this (file ++ samples_bytes ctxs) p'
        × ((p'.impls this).initact ≡ (p.impls this).initact)
  unfolding signals samples_bytes
  signals-Running [] this file p r _ =
      (p, refl, subst (λ t. Running this t p) (sym (append-nil file)) r, refl)
  signals-Running (ctx ∷ ctxs) this file p r (c, cs) =
      let (q, e, r', same) = static_handle-Running this file ctx p r c in
      let (p', e', r'', same') =
        signals-Running ctxs this (file ++ words_bytes (sample (context_stack ctx))) q r' cs in
      (
        p',
        bind_some (signals ctxs) e ∙ e',
        subst (λ t. Running this t p')
            (append_assoc file (words_bytes (sample (context_stack ctx))) (samples_bytes ctxs)) r'',
        same' ∙ same,
      )
