-- ===== src/Profiler/Threads/Outcomes.antt =====
-- What a handler of SIGPROF on one thread and stop on another leave, for every schedule.
use jointprof.Profiler.Defs.{SigAction, Stream, Process, Context, trailer_words}
use jointprof.Profiler.Session.{IsContext, Running, context_stack}
use jointprof.Profiler.Threads.{
  entered, sampled, chained, returned, null_call, called, stopped, Threads,
}
use jointprof.Profiler.Threads.Between.{stop_left, handler_left, own_action, Between}
use jointprof.Profiler.Threads.Steps.{Sound}
use jointprof.Profiler.Trace.Laws.{sample}
use jointprof.Profiler.Race.Writes.{joined}
use jointprof.Profiler.Words.{words_bytes}
use jointprof.Common.{
  ℕ, ◌≡◌, refl, sym, ap, ◌∙◌, ◌⊎◌, inl, false, none, List, [], ◌++◌, append-nil, Bytes,
}

module _ {Other : Type 0} (ctx : Context) (this : ℕ) (init : SigAction) (file : Bytes)
    (maps : List Bytes) where
  -- What is left behind when both threads are at their ends.
  pub record Ended (p : Process Other) : Type 0 where
    pub nothing : p.static_impl ≡ none
    pub disposition : (p.action ≡ own_action) ⊎ (p.action ≡ init)
    pub closed : (p.impls this).ofs.is_open ≡ false
    pub front : Bytes
    pub inside : Bytes
    pub back : Bytes
    pub contents : (p.impls this).ofs.contents ≡ file ++ (front ++ (inside ++ back))
    pub trailer : front ++ back ≡ words_bytes trailer_words ++ joined maps
    pub sampled : (inside ≡ []) ⊎ (inside ≡ words_bytes (sample (context_stack ctx)))

  -- The process after a schedule in which both threads come to their ends.
  abbrev pub AtEnd : Threads Other → Type 0
  AtEnd s =
      (s.handling ≡ null_call)
      ⊎ ((s.handling ≡ returned) × (s.stopping ≡ stopped) × Ended s.process)

module _ {Other : Type 0} (foreign : ℕ → SigAction × Other → SigAction × Other) (ctx : Context)
    (good : IsContext ctx) (this : ℕ) (init : SigAction) (file : Bytes) (maps : List Bytes) where
  abbrev Done : Threads Other → Type 0
  Done s =
      Sound foreign ctx good this init file maps s.handling s.stopping s.process
      × (handler_left s.handling ≡ 0)
      × (stop_left maps s.stopping ≡ 0)

module _ {Other : Type 0} (foreign : ℕ → SigAction × Other → SigAction × Other) where
  pub enter-Between :
      (this : ℕ) (file text : Bytes) (maps : List Bytes) (p : Process Other)
      → Running this file p
      → Between this (p.impls this).initact file text maps entered called p
  enter-Between this file text maps p r = record {
    alive = r.alive;
    published = r.published;
    initact = refl;
    old = r.chained;
    at = inl r.installed;
    front = [];
    inside = [];
    back = [];
    contents = ap (λ (o : Stream). o.contents) r.stream ∙ sym (append-nil file);
    written = refl;
    taken = refl;
    stream = (ap (λ (o : Stream). o.is_open) r.stream, ap (λ (o : Stream). o.failed) r.stream);
  }
