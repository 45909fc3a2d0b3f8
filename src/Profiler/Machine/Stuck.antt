-- ===== src/Profiler/Machine/Stuck.antt =====
-- src/profiler.cpp, an object that is made while another one profiles.
use jointprof.Profiler.Again.{IsForeign}
use jointprof.Profiler.Defs.{
  static_handler, SigAction, Impl, Process, oops, header_words, construct, start, stop,
}
use jointprof.Profiler.Guards.{update_other, start-Outside}
use jointprof.Profiler.Machine.Objects.{Profiling-elsewhere}
use jointprof.Profiler.Session.{
  Running-Profiling, Running, CanStart, update_self, stop-Running, start-Running, is_running-none,
}
use jointprof.Profiler.Words.{words_bytes}
use jointprof.Common.{
  ℕ, ◌≡◌, ◌≢◌, refl, sym, ap, ◌∙◌, Bool, true, false, none, some, List, [], ◌∷◌, ==-refl, ◌==◌,
  if◌then◌else◌, ==-ne, Bytes,
}

construct_other :
    {Other : Type 0} (q that : ℕ) (p : Process Other)
    → q ≢ that
    → (construct that p).impls q ≡ p.impls q
unfolding construct
construct_other q that p ne = update_other p.impls that _ q ne

construct-Running :
    {Other : Type 0} (this that : ℕ) (file : Bytes) (p : Process Other)
    → Running this file p
    → that ≢ this
    → Running this file (construct that p)
unfolding construct
construct-Running this that file p r ne =
    let ne' : this ≢ that = λ e. ne (sym e) in
    let profiling =
      Profiling-elsewhere that this file _ (λ q. if q == that then true else p.live q) p ne'
        (rw (==-ne this that ne') r.alive) (Running-Profiling this file p p.action r) in
    record {
      published = profiling.published;
      alive = profiling.alive;
      installed = r.installed;
      stream = profiling.stream;
      chained = profiling.chained;
    }

-- The object `that`, made while `this` profiles, after `this` is stopped.
stopped_other :
    {Other : Type 0} (this that : ℕ) (maps : Bytes) (p : Process Other)
    → that ≢ this
    → ((stop maps this (construct that p)).impls that).ofs.is_open ≡ false
unfolding stop construct
stopped_other this that maps p ne =
    ap (λ (i : Impl). i.ofs.is_open) (update_other _ this _ that ne ∙ update_self p.impls that _)

stopped_initact :
    {Other : Type 0} (this that : ℕ) (maps : Bytes) (p : Process Other)
    → that ≢ this
    → ((stop maps this (construct that p)).impls that).initact ≡ p.action
unfolding stop construct
stopped_initact this that maps p ne =
    ap (λ (i : Impl). i.initact) (update_other _ this _ that ne ∙ update_self p.impls that _)

stopped_alive :
    {Other : Type 0} (this that : ℕ) (maps : Bytes) (p : Process Other)
    → (stop maps this (construct that p)).live that ≡ true
unfolding stop construct
stopped_alive this that maps p = rw (==-refl that) refl

pub oops_lem :
    {Other : Type 0} (can_create : Bool) (this : ℕ) (p : Process Other)
    → p.static_impl ≡ none
    → p.action.siginfo ≡ true
    → (start can_create this p).1 ≡ some oops
unfolding start
oops_lem can_create this p idle three = simp (is_running-none p idle, three)

-- Starts one after another, each with whether its file can be made, and each is refused.
abbrev pub AllRefused : {Other : Type 0} → List (Bool × ℕ) → Process Other → Type 0
AllRefused [] p = Unit
AllRefused ((can_create, this) ∷ attempts) p =
    ((start can_create this p).1 ≡ some oops) × AllRefused attempts (start can_create this p).0

pub all_refused :
    {Other : Type 0} (attempts : List (Bool × ℕ)) (p : Process Other)
    → p.static_impl ≡ none
    → p.action.siginfo ≡ true
    → AllRefused attempts p
all_refused [] p idle three = tt
all_refused ((can_create, this) ∷ attempts) p idle three =
    let no = oops_lem can_create this p idle three in
    let same = start-Outside can_create this p oops no in
    (
      no,
      all_refused attempts (start can_create this p).0 (same.same_impl ∙ idle)
          (ap (λ (a : SigAction). a.siginfo) same.same_action ∙ three),
    )

-- An object that is made while another one profiles finds the profiler's own handler. Once that other one is
-- stopped, the object can run, but its stop puts that handler back: nothing profiles then, and
-- any number of starts, of any objects, are refused one after another, as long as nothing else changes the
-- disposition between them. The first object found a foreign handler of one argument.
pub start-construct :
    {Other : Type 0} (attempts : List (Bool × ℕ)) (this that : ℕ) (file maps maps' : Bytes)
    (p : Process Other)
    → Running this file p
    → that ≢ this
    → IsForeign (p.impls this).initact
    → let q = start true that (stop maps this (construct that p)) in
      let q' = stop maps' that q.0 in
      (q.1 ≡ none)
      × (q'.static_impl ≡ none)
      × (q'.action ≡ record { handler = static_handler; siginfo = true })
      × AllRefused attempts q'
start-construct attempts this that file maps maps' p r ne f =
    let made = construct that p in
    let first = stop maps this made in
    let r' : Running this file made = construct-Running this that file p r ne in
    let ended = stop-Running this file maps made r' in
    let same : made.impls this ≡ p.impls this = construct_other this that p (λ e. ne (sym e)) in
    let action : first.action ≡ (p.impls this).initact =
      ended.1 ∙ ap (λ (i : Impl). i.initact) same in
    let c : CanStart that first = record {
      idle = ended.2;
      one_argument = ap (λ (a : SigAction). a.siginfo) action ∙ f.one_argument;
      not_ours = λ e. f.not_ours (ap (λ (a : SigAction). a.handler) (sym action) ∙ e);
      closed = stopped_other this that maps p ne;
      alive = stopped_alive this that maps p;
    } in
    let (ok, r'', kept) = start-Running that first c in
    let again = stop-Running that (words_bytes header_words) maps' (start true that first).0 r'' in
    let found = again.1 ∙ (kept ∙ (stopped_initact this that maps p ne ∙ r.installed)) in
    (
      ok,
      again.2,
      found,
      all_refused attempts (stop maps' that (start true that first).0) again.2
          (ap (λ (a : SigAction). a.siginfo) found),
    )
