-- ===== src/Profiler/Again.antt =====
-- src/profiler.cpp, an object from its construction through several sessions.
use jointprof.Profiler.Defs.{
  static_handler, SigAction, Process, Context, update, construct, start, header_words, stop,
  write_trailer,
}
use jointprof.Profiler.Session.{
  IsContext, Running, CanStart, start-Running, signals-Running, stop-Running, session,
}
use jointprof.Profiler.Words.{words_bytes}
use jointprof.Common.{
  ℕ, ◌≡◌, ◌≢◌, refl, ap, ◌∙◌, true, false, Option, none, some, ◌>>=◌, bind_some, List, [], ◌∷◌,
  ==-refl, Bytes, All,
}

-- The handler takes one argument, and is not the profiler's own.
pub record IsForeign (a : SigAction) : Type 0 where
  pub one_argument : a.siginfo ≡ false
  pub not_ours : a.handler ≢ static_handler

pub construct_impl :
    {Other : Type 0} (this : ℕ) (p : Process Other)
    → ((construct this p).impls this).initact ≡ p.action
unfolding construct update
construct_impl this p = rw (==-refl this) refl

pub construct-CanStart :
    {Other : Type 0} (this : ℕ) (p : Process Other)
    → p.static_impl ≡ none
    → IsForeign p.action
    → CanStart this (construct this p)
unfolding construct update
construct-CanStart this p idle f = record {
  idle = idle;
  one_argument = f.one_argument;
  not_ours = f.not_ours;
  closed = rw (==-refl this) refl;
  alive = rw (==-refl this) refl;
}

stop-CanStart :
    {Other : Type 0} (this : ℕ) (file maps : Bytes) (p : Process Other)
    → Running this file p
    → IsForeign (p.impls this).initact
    → CanStart this (stop maps this p)
unfolding stop
stop-CanStart this file maps p r f = record {
  idle = refl;
  one_argument = f.one_argument;
  not_ours = f.not_ours;
  closed = ap (λ s. s.is_open) (stop-Running this file maps p r).0;
  alive = r.alive;
}

pub stop_initact :
    {Other : Type 0} (this : ℕ) (maps : Bytes) (p : Process Other)
    → ((stop maps this p).impls this).initact ≡ (p.impls this).initact
unfolding stop update write_trailer
stop_initact this maps p = rw (==-refl this) refl

-- `this` can start, and both the disposition and the one that the constructor found are `a`.
record IsReady {Other : Type 0} (this : ℕ) (a : SigAction) (p : Process Other) : Type 0 where
  pub can_start : CanStart this p
  pub found : (p.impls this).initact ≡ a
  pub current : p.action ≡ a

module _ {Other : Type 0} (foreign : ℕ → SigAction × Other → SigAction × Other) where
  session-IsReady :
      (this : ℕ) (a : SigAction) (maps : Bytes) (ctxs : List Context) (p : Process Other)
      → IsForeign a
      → IsReady this a p
      → All IsContext ctxs
      → (p' : Process Other) × (session foreign this maps ctxs p ≡ some p') × IsReady this a p'
  unfolding session
  session-IsReady this a maps ctxs p f ready cs =
      let (_, running, same) = start-Running this p ready.can_start in
      let (q, e, r, same') =
        signals-Running foreign ctxs this (words_bytes header_words) (start true this p).0 running
          cs in
      let found : (q.impls this).initact ≡ a = same' ∙ same ∙ ready.found in
      (
        stop maps this q,
        bind_some _ e,
        record {
          can_start = stop-CanStart this _ maps q r (rw found f);
          found = stop_initact this maps q ∙ found;
          current = (stop-Running this _ maps q r).1 ∙ found;
        },
      )

  -- One session after the other; each has its text of the maps and its signals.
  unfoldable pub sessions : ℕ → List (Bytes × List Context) → Process Other → Option (Process Other)
  sessions this [] p = some p
  sessions this ((maps, ctxs) ∷ later) p = do
    p' ← session foreign this maps ctxs p
    sessions this later p'

  sessions-IsReady :
      (this : ℕ) (a : SigAction) (runs : List (Bytes × List Context)) (p : Process Other)
      → IsForeign a
      → IsReady this a p
      → All (λ run. All IsContext run.1) runs
      → (p' : Process Other) × (sessions this runs p ≡ some p') × IsReady this a p'
  unfolding sessions
  sessions-IsReady this a [] p f ready cs = (p, refl, ready)
  sessions-IsReady this a ((maps, ctxs) ∷ later) p f ready (c, cs) =
      let (q, e, ready') = session-IsReady this a maps ctxs p f ready c in
      let (p', e', ready'') = sessions-IsReady this a later q f ready' cs in
      (p', bind_some _ e ∙ e', ready'')

  -- An object that is made while nothing runs and the handler of SIGPROF is foreign, takes one
  -- argument, can run any number of sessions, one after the other, if the signals of each find the
  -- array and the trace in order. No session faults, the object can start again
  -- afterwards, and the disposition of SIGPROF is the one from before the object was made.
  pub construct-sessions :
      (this : ℕ) (runs : List (Bytes × List Context)) (p : Process Other)
      → p.static_impl ≡ none
      → IsForeign p.action
      → All (λ run. All IsContext run.1) runs
      → (p' : Process Other) × (sessions this runs (construct this p) ≡ some p')
        × CanStart this p'
        × (p'.action ≡ p.action)
  unfolding construct
  construct-sessions this runs p idle f cs =
      let (p', e, ready) =
        sessions-IsReady this p.action runs (construct this p) f
          (record {
            can_start = construct-CanStart this p idle f;
            found = construct_impl this p;
            current = refl;
          })
          cs in
      (p', e, ready.can_start, ready.current)
