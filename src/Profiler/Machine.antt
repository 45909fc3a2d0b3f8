-- ===== src/Profiler/Machine.antt =====
-- src/profiler.cpp, the process as a machine: the calls of any number of profiler objects, the signals, and
-- the changes that other code makes to the disposition of SIGPROF, in any order that keeps three rules: only
-- the object that profiles is stopped, it is not destroyed, and other code does not install the profiler's own
-- handler as one of one argument (the step `changed`, and the disposition when the program starts).
pub mod Objects
pub mod Steps
pub mod Laws
pub mod Stuck
mod Examples
use jointprof.Profiler.Defs.{
  Handler, static_handler, SigAction, Process, Context, sigprof, construct, destruct, start, stop,
  remove_handler, static_handle,
}
use jointprof.Profiler.Session.{IsContext, Profiling}
use jointprof.Common.{ℕ, ◌≡◌, ◌≢◌, Bool, true, false, Option, none, some, Bytes}

-- A handler of one argument is not the profiler's.
abbrev pub IsProper : SigAction → Type 0
IsProper a = a.siginfo ≡ false → a.handler ≢ static_handler

-- One step of the process.
pub data Step {Other : Type 0} (foreign : ℕ → SigAction × Other → SigAction × Other)
    (p p' : Process Other) : Type 0 where
  made : (this : ℕ) → p.live this ≡ false → p' ≡ construct this p → Step foreign p p'
  started :
      (can_create : Bool) (this : ℕ)
      → p.live this ≡ true
      → p' ≡ (start can_create this p).0
      → Step foreign p p'
  stopped :
      (maps : Bytes) (this : ℕ)
      → p.static_impl ≡ some this
      → p' ≡ stop maps this p
      → Step foreign p p'
  destroyed : (this : ℕ) → p.static_impl ≢ some this → p' ≡ destruct this p → Step foreign p p'
  removed : p' ≡ remove_handler p → Step foreign p p'
  signalled :
      (ctx : Context)
      → IsContext ctx
      → static_handle foreign sigprof ctx p ≡ some p'
      → Step foreign p p'
  changed :
      (action : SigAction) → IsProper action → p' ≡ record p { action = action } → Step foreign p p'

-- Any number of steps.
pub data Reach {Other : Type 0} (foreign : ℕ → SigAction × Other → SigAction × Other)
    (p : Process Other) : Process Other → Type 0 where
  here : Reach foreign p p
  take_step : {q p' : Process Other} → Reach foreign p q → Step foreign q p' → Reach foreign p p'

-- When the program starts there is no object.
pub record IsInitial {Other : Type 0} (p : Process Other) : Type 0 where
  pub proper : IsProper p.action
  pub idle : p.static_impl ≡ none
  pub no_objects : (q : ℕ) → p.live q ≡ false

-- What holds after every step.
pub record IsSound {Other : Type 0} (p : Process Other) : Type 0 where
  pub proper : IsProper p.action
  pub found : (q : ℕ) → p.live q ≡ true → IsProper (p.impls q).initact
  pub running : (q : ℕ) → p.static_impl ≡ some q → (file : Bytes) × Profiling q file p
  pub closed : (q : ℕ) → p.live q ≡ true → p.static_impl ≢ some q → (p.impls q).ofs.is_open ≡ false
