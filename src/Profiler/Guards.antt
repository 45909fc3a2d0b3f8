-- ===== src/Profiler/Guards.antt =====
-- src/profiler.cpp, the guards of start and stop, the handler, and objects that are destroyed.
use jointprof.Profiler.Defs.{
  Handler, sig_dfl, sig_ign, static_handler, function, SigAction, Impl, Process, Error,
  already_running, oops, cannot_create, Context, sigprof, set_impl, write_stream, update, destruct,
  is_running, begin, start, open_stream, stop, chain, handler, static_handle,
}
use jointprof.Profiler.Session.{Running}
use jointprof.Profiler.Trace.Laws.{sample, write_stack_trace-sample}
use jointprof.Profiler.Trace.{k_max_stack_depth, write_stack_trace}
use mathlib.Core.Option.{none-ne-some, some-injective}
use jointprof.Profiler.Words.{words_bytes}
use jointprof.Common.{
  ℕ, ◌+◌, ◌-◌, ◌≤◌, ◌≡◌, ◌≢◌, refl, sym, ap, subst, suc, ◌∙◌, Bool, true, false, not, ltb, ◌&&◌,
  Option, none, some, List, ◌∷◌, ◌==◌, ==-refl, ==-ne, if◌then◌else◌, Bytes, length, arith,
}

pub update_other :
    (impls : ℕ → Impl) (this : ℕ) (impl : Impl) (q : ℕ)
    → q ≢ this
    → update impls this impl q ≡ impls q
unfolding update
update_other impls this impl q ne = rw (==-ne q this ne) refl

module _ {Other : Type 0} where
  -- The process is as before, up to the object `this`.
  pub record Outside (this : ℕ) (p p' : Process Other) : Type 0 where
    pub same_action : p'.action ≡ p.action
    pub same_impl : p'.static_impl ≡ p.static_impl
    pub same_live : p'.live ≡ p.live
    pub same_objects : (q : ℕ) → q ≢ this → p'.impls q ≡ p.impls q

  pub Outside-refl : (this : ℕ) (p : Process Other) → Outside this p p
  Outside-refl this p = record {
    same_action = refl;
    same_impl = refl;
    same_live = refl;
    same_objects = λ q ne. refl;
  }

  Outside-update :
      (this : ℕ) (impl : Impl) (p : Process Other) (other : Other)
      → Outside this p (record p { impls = update p.impls this impl; other = other })
  Outside-update this impl p other = record {
    same_action = refl;
    same_impl = refl;
    same_live = refl;
    same_objects = λ q ne. update_other p.impls this impl q ne;
  }

  -- A choice among refusals, each of which leaves the process as it is outside.
  refused :
      (this : ℕ) (p x y z w : Process Other) (a b c : Bool) (f g h e : Error)
      → Outside this p x
      → Outside this p y
      → Outside this p z
      → let result : Process Other × Option Error =
          if a
          then (x, some f)
          else if b
          then (y, some g)
          else if c
          then (z, some h)
          else (w, none) in
        result.1 ≡ some e → Outside this p result.0
  refused this p x y z w true b c f g h e ox oy oz eq = ox
  refused this p x y z w false true c f g h e ox oy oz eq = oy
  refused this p x y z w false false true f g h e ox oy oz eq = oz
  refused this p x y z w false false false f g h e ox oy oz eq = absurd (none-ne-some _ eq)

  running_lem : (this : ℕ) (p : Process Other) → p.static_impl ≡ some this → is_running p ≡ true
  unfolding is_running
  running_lem this p e = simp (e, is_running)

  -- A start that is refused leaves the disposition of SIGPROF, the running object and all other objects
  -- as they are, whatever the reason.
  pub start-Outside :
      (can_create : Bool) (this : ℕ) (p : Process Other) (e : Error)
      → (start can_create this p).1 ≡ some e
      → Outside this p (start can_create this p).0
  unfolding start
  start-Outside can_create this p e =
      let queried = record (p.impls this) { oldact = p.action } in
      let opened = record queried { ofs = open_stream can_create queried.ofs } in
      let cleared = record opened { ofs = record opened.ofs { failed = false } } in
      refused this p p (set_impl p this queried) (set_impl p this cleared) (begin this opened p)
        (is_running p) p.action.siginfo opened.ofs.failed already_running oops cannot_create e
        (Outside-refl this p) (Outside-update this queried p p.other)
        (Outside-update this cleared p p.other)

  -- If a second object is stopped while `this` profiles, and the second object found a handler of one
  -- argument, then `this` can not be started again: its file is still open.
  pub stop-start :
      (can_create : Bool) (this that : ℕ) (file maps : Bytes) (p : Process Other)
      → Running this file p
      → this ≢ that
      → (p.impls that).initact.siginfo ≡ false
      → (start can_create this (stop maps that p)).1 ≡ some cannot_create
  unfolding start is_running stop open_stream
  stop-start can_create this that file maps p r ne one =
      simp (one, update_other p.impls that _ this ne, r.stream)

module _ {Other : Type 0} (foreign : ℕ → SigAction × Other → SigAction × Other) where
  chain-Outside :
      (this : ℕ) (h : Handler) (p q p' : Process Other)
      → ((other : Other) → Outside this p (record q { other = other }))
      → chain foreign h q ≡ some p'
      → Outside this p p'
  unfolding chain
  chain-Outside this sig_dfl p q p' o e = subst (Outside this p) (some-injective q p' e) (o q.other)
  chain-Outside this sig_ign p q p' o e = subst (Outside this p) (some-injective q p' e) (o q.other)
  chain-Outside this static_handler p q p' o e = absurd (none-ne-some _ e)
  chain-Outside this (function n) p q p' o e =
      subst (Outside this p) (some-injective _ p' e) (o (foreign n (q.action, q.other)).1)

  handler-Outside :
      (this signal : ℕ) (ctx : Context) (p p' : Process Other)
      → handler foreign this signal ctx p ≡ some p'
      → Outside this p p'
  unfolding handler
  handler-Outside this signal ctx p p' e =
      go (not (signal == sigprof)) (write_stack_trace ctx.stack ctx.pc ctx.frames) e
    where
      go :
          (skip : Bool) (trace : Option (List ℕ))
          → (if skip then some p else elim trace [
            | none ↦ none
            | some words ↦ chain foreign (p.impls this).oldact.handler (
                set_impl p this (record (p.impls this) {
                  ofs = write_stream (p.impls this).ofs (words_bytes words);
                }))
          ])
            ≡ some p'
          → Outside this p p'
      go true trace e = subst (Outside this p) (some-injective p p' e) (Outside-refl this p)
      go false none e = absurd (none-ne-some _ e)
      go false (some words) e =
          chain-Outside this (p.impls this).oldact.handler p _ p'
            (λ other. Outside-update this _ p other) e

  pub static_handle_live :
      (this signal : ℕ) (ctx : Context) (p : Process Other)
      → p.static_impl ≡ some this
      → static_handle foreign signal ctx p
        ≡ (if p.live this then handler foreign this signal ctx p else none)
  unfolding static_handle
  static_handle_live this signal ctx p published = simp (published, static_handle)

  -- Whatever the chained handler does, a signal that is handled without a fault leaves the disposition of
  -- SIGPROF and the running object as they are, and changes no other object.
  pub static_handle-Outside :
      (this signal : ℕ) (ctx : Context) (p p' : Process Other)
      → p.static_impl ≡ some this
      → static_handle foreign signal ctx p ≡ some p'
      → Outside this p p'
  static_handle-Outside this signal ctx p p' published e =
      go (p.live this) (sym (static_handle_live this signal ctx p published) ∙ e)
    where
      go :
          (alive : Bool)
          → (if alive then handler foreign this signal ctx p else none) ≡ some p'
          → Outside this p p'
      go true e = handler-Outside this signal ctx p p' e
      go false e = absurd (none-ne-some _ e)

  -- After the object that profiles is destroyed, the next signal is a fault.
  pub destruct-static_handle :
      (this signal : ℕ) (file : Bytes) (ctx : Context) (p : Process Other)
      → Running this file p
      → static_handle foreign signal ctx (destruct this p) ≡ none
  unfolding static_handle destruct
  destruct-static_handle this signal file ctx p r =
      simp (r.published, static_handle) (rw (==-refl this) refl)

some_frame : (frames : List ℕ) (t : Bool) → (ltb 0 (suc (length frames)) && t) ≡ t
some_frame frames t = let more : ltb 0 (suc (length frames)) ≡ true = ground arith in rw more refl

-- The words that the array holds before the trace decide which frames a sample has: with two
-- different words in front, a program counter that is also the first frame is recorded twice; with
-- two equal words, the program counter is lost, if there is a frame.
pub write_stack_trace-garbage :
    (a b : ℕ) (rest : List ℕ) (pc frame : ℕ) (frames : List ℕ)
    → a ≢ b
    → length rest ≡ k_max_stack_depth
    → length frames + 1 ≤ k_max_stack_depth - 1
    → (write_stack_trace (a ∷ b ∷ rest) pc (pc ∷ frames) ≡ some (sample (pc ∷ pc ∷ frames)))
      × (write_stack_trace (a ∷ a ∷ rest) pc (frame ∷ frames) ≡ some (sample (frame ∷ frames)))
write_stack_trace-garbage a b rest pc frame frames ne size fits = (
  write_stack_trace-sample a b rest pc (pc ∷ frames) size (omega arith)
      ∙ ap (λ t. some (sample (if t then pc ∷ frames else pc ∷ pc ∷ frames)))
          (some_frame frames (b == a) ∙ ==-ne b a (λ e. ne (sym e))),
  write_stack_trace-sample a a rest pc (frame ∷ frames) size (omega arith)
      ∙ ap (λ t. some (sample (if t then frame ∷ frames else pc ∷ frame ∷ frames)))
          (some_frame frames (a == a) ∙ ==-refl a),
)
