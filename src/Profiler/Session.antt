-- ===== src/Profiler/Session.antt =====
-- A profiling session: start, any number of SIGPROF signals, stop.
mod Signals
unfoldable pub use Signals.*
use jointprof.Profiler.Defs.{
  Handler, sig_dfl, sig_ign, static_handler, function, SigAction, Stream, Impl, Process,
  open_stream, write_stream, close_stream, header_words, trailer_words, write_header, write_trailer,
  sigprof, Context, update, is_running, begin, start, stop, chain, handler, static_handle,
}
use jointprof.Profiler.Trace.Laws.{sample, recorded, write_stack_trace-sample}
use jointprof.Profiler.Trace.{k_max_stack_depth, write_stack_trace}
use jointprof.Profiler.Words.{words_bytes}
use jointprof.Common.{
  ℕ, ◌+◌, ◌-◌, ◌≤◌, ◌≡◌, ◌≢◌, refl, sym, ap, ◌∙◌, subst, true, false, Option, none, some, ◌>>=◌,
  bind_some, List, [], ◌∷◌, ◌++◌, append_assoc, append-nil, arith, ==-refl, Bytes, length, All,
}

open_stream_closed :
    (ofs : Stream)
    → ofs.is_open ≡ false
    → open_stream true ofs ≡ record { is_open = true; failed = false; contents = [] }
unfolding open_stream
open_stream_closed ofs e = rw e

module _ {Other : Type 0} where
  -- The object can start: nothing is running, the handler takes one argument and is not ours, and
  -- the object's stream is closed.
  pub record CanStart (this : ℕ) (p : Process Other) : Type 0 where
    pub idle : p.static_impl ≡ none
    pub one_argument : p.action.siginfo ≡ false
    pub not_ours : p.action.handler ≢ static_handler
    pub closed : (p.impls this).ofs.is_open ≡ false
    pub alive : p.live this ≡ true

  -- The object as `begin` gets it.
  abbrev pub opened : ℕ → Process Other → Impl
  opened this p = record (p.impls this) {
    oldact = p.action;
    ofs = record { is_open = true; failed = false; contents = [] };
  }

  pub is_running-none : (p : Process Other) → p.static_impl ≡ none → is_running p ≡ false
  unfolding is_running
  is_running-none p e = simp (e, is_running)

  pub start-begin :
      (this : ℕ) (p : Process Other)
      → CanStart this p
      → start true this p ≡ (begin this (opened this p) p, none)
  unfolding start
  start-begin this p c =
      simp
        (is_running-none p c.idle, c.one_argument, open_stream_closed (p.impls this).ofs c.closed)

  pub begin-Running :
      (this : ℕ) (p : Process Other)
      → CanStart this p
      → Running this (words_bytes header_words) (begin this (opened this p) p)
        × (((begin this (opened this p) p).impls this).initact ≡ (p.impls this).initact)
  unfolding begin write_header write_stream
  begin-Running this p c =
      let at = update_self p.impls this (write_header (opened this p)) in
      (
        record {
          published = refl;
          alive = c.alive;
          installed = refl;
          stream = ap (λ (i : Impl). i.ofs) at;
          chained = λ e. c.not_ours (ap (λ (i : Impl). i.oldact.handler) (sym at) ∙ e);
        },
        ap (λ (i : Impl). i.initact) at,
      )

  pub start-Running :
      (this : ℕ) (p : Process Other)
      → CanStart this p
      → ((start true this p).1 ≡ none)
        × Running this (words_bytes header_words) (start true this p).0
        × (((start true this p).0.impls this).initact ≡ (p.impls this).initact)
  start-Running this p c =
      rw (start-begin this p c) (refl, (begin-Running this p c).0, (begin-Running this p c).1)

  pub stop-Profiling :
      (this : ℕ) (file maps : Bytes) (p : Process Other)
      → Profiling this file p
      → let p' = stop maps this p in
        ((p'.impls this).ofs ≡ record {
          is_open = false;
          failed = false;
          contents = file ++ (words_bytes trailer_words ++ maps);
        })
        × (p'.action ≡ (p.impls this).initact)
        × (p'.static_impl ≡ none)
  unfolding stop
  stop-Profiling this file maps p r = (
    ap (λ (i : Impl). i.ofs) (update_self p.impls this _)
        ∙ unfold write_trailer write_stream close_stream in
          rw r.stream (
            ap (λ (t : Bytes). record { is_open = false; failed = false; contents = t })
              (append_assoc file (words_bytes trailer_words) maps)),
    refl,
    refl,
  )

  pub stop-Running :
      (this : ℕ) (file maps : Bytes) (p : Process Other)
      → Running this file p
      → let p' = stop maps this p in
        ((p'.impls this).ofs ≡ record {
          is_open = false;
          failed = false;
          contents = file ++ (words_bytes trailer_words ++ maps);
        })
        × (p'.action ≡ (p.impls this).initact)
        × (p'.static_impl ≡ none)
  stop-Running this file maps p r =
      stop-Profiling this file maps p (Running-Profiling this file p p.action r)

module _ {Other : Type 0} (foreign : ℕ → SigAction × Other → SigAction × Other) where
  -- start, the signals, stop.
  unfoldable pub session : ℕ → Bytes → List Context → Process Other → Option (Process Other)
  session this maps ctxs p = do
    p' ← signals foreign ctxs (start true this p).0
    some (stop maps this p')

  -- If nothing is published, the handler of SIGPROF takes one argument and is not the profiler's, the object is
  -- live and its stream closed, the file can be made, and the signals find the array and the trace in
  -- order, then start gives no error and the session ends without a fault. Its file
  -- holds the header, a sample for each signal in order, the trailer, and the text of the maps; it is
  -- closed. The disposition of SIGPROF is the one that the constructor found, and nothing runs.
  pub session_lem :
      (this : ℕ) (maps : Bytes) (ctxs : List Context) (p : Process Other)
      → CanStart this p
      → All IsContext ctxs
      → (p' : Process Other) × (session this maps ctxs p ≡ some p')
        × ((p'.impls this).ofs ≡ record {
          is_open = false;
          failed = false;
          contents =
              words_bytes header_words
              ++ (samples_bytes ctxs ++ (words_bytes trailer_words ++ maps));
        })
        × (p'.action ≡ (p.impls this).initact)
        × (p'.static_impl ≡ none)
        × ((start true this p).1 ≡ none)
  unfolding session
  session_lem this maps ctxs p c cs =
      let (fine, running, same) = start-Running this p c in
      let (q, e, r, same') =
        signals-Running foreign ctxs this (words_bytes header_words) (start true this p).0 running
          cs in
      let (file, action, idle) =
        stop-Running this (words_bytes header_words ++ samples_bytes ctxs) maps q r in
      (
        stop maps this q,
        bind_some _ e,
        file
            ∙ ap (λ (t : Bytes). record { is_open = false; failed = false; contents = t })
                (append_assoc (words_bytes header_words) (samples_bytes ctxs)
                  (words_bytes trailer_words ++ maps)),
        action ∙ same' ∙ same,
        idle,
        fine,
      )
