-- ===== src/Profiler/Defs.antt =====
-- src/profiler.cpp, ProfilerDaisyChain and its Impl. The process holds the disposition of SIGPROF,
-- the static pointer `static_impl`, and the Impl objects by address.
use jointprof.Profiler.Trace.{write_stack_trace}
use jointprof.Profiler.Words.{words_bytes}
use jointprof.Common.{
  ℕ, Bool, true, false, not, ◌&&◌, ◌||◌, Option, none, some, List, [], ◌∷◌, ◌++◌, ◌==◌,
  if◌then◌else◌, Bytes,
}

-- The union sa_handler / sa_sigaction: SIG_DFL, SIG_IGN, a function of the rest of the process, or
-- static_handler.
pub data Handler : Type 0 where
  sig_dfl sig_ign static_handler : Handler
  function : ℕ → Handler

-- `struct sigaction`; of its flags the code uses SA_SIGINFO.
pub record SigAction : Type 0 where
  pub handler : Handler
  pub siginfo : Bool

-- After `memset(&myact, 0, sizeof(myact))`, and after the initialiser `oldact()`.
abbrev pub zero_action : SigAction
zero_action = record { handler = sig_dfl; siginfo = false }

-- An output file stream, with the bytes that the file holds which it opened last.
pub record Stream : Type 0 where
  pub is_open : Bool
  pub failed : Bool
  pub contents : Bytes

-- The fields of Impl.
pub record Impl : Type 0 where
  pub initact : SigAction
  pub oldact : SigAction
  pub ofs : Stream

-- The process. `other` is the state of the code that owns the other handlers; `live` says which
-- addresses hold an Impl.
pub record Process (Other : Type 0) : Type 0 where
  pub action : SigAction
  pub static_impl : Option ℕ
  pub impls : ℕ → Impl
  pub live : ℕ → Bool
  pub other : Other

pub data Error : Type 0 where
  already_running oops cannot_create : Error

-- `std::ofstream::open(path, out | binary)`: it fails on an open stream, and where the file cannot
-- be made; else the file is empty and the state is good.
unfoldable pub open_stream : Bool → Stream → Stream
open_stream can_create ofs =
    if ofs.is_open || not can_create
    then record ofs { failed = true }
    else record { is_open = true; failed = false; contents = [] }

-- `ofs.write`: nothing reaches the file through a stream that is closed or in a bad state. On an open
-- stream in a good state it succeeds.
unfoldable pub write_stream : Stream → Bytes → Stream
write_stream ofs bytes =
    if ofs.is_open && not ofs.failed
    then record ofs { contents = ofs.contents ++ bytes }
    else record ofs { failed = true }

-- `ofs.close()`
unfoldable pub close_stream : Stream → Stream
close_stream ofs =
    if ofs.is_open then record ofs { is_open = false } else record ofs { failed = true }

-- `header` of write_header
abbrev pub header_words : List ℕ
header_words = 0 ∷ 3 ∷ 0 ∷ 20000 ∷ 0 ∷ []

-- `binary_trailer` of write_trailer
abbrev pub trailer_words : List ℕ
trailer_words = 0 ∷ 1 ∷ 0 ∷ []

-- write_header
unfoldable pub write_header : Impl → Impl
write_header impl = record impl { ofs = write_stream impl.ofs (words_bytes header_words) }

-- write_trailer; `maps` is the text that its loop over the memory maps writes.
unfoldable pub write_trailer : Bytes → Impl → Impl
write_trailer maps impl = record impl {
  ofs = write_stream (write_stream impl.ofs (words_bytes trailer_words)) maps;
}

-- SIGPROF on Linux
abbrev pub sigprof : ℕ
sigprof = 27

-- What a handler sees of the interrupted code: the array of write_stack_trace as it is found, the
-- program counter, and the frames that GetStackTraceWithContext stores.
pub record Context : Type 0 where
  pub stack : List ℕ
  pub pc : ℕ
  pub frames : List ℕ

-- A change of the object at one address.
unfoldable pub update : (ℕ → Impl) → ℕ → Impl → ℕ → Impl
update impls this impl p = if p == this then impl else impls p

module _ {Other : Type 0} where
  abbrev pub set_impl : Process Other → ℕ → Impl → Process Other
  set_impl p this impl = record p { impls = update p.impls this impl }

  -- The constructor, at a new address: sigaction(SIGPROF, NULL, &impl->initact).
  unfoldable pub construct : ℕ → Process Other → Process Other
  construct this p = record p {
    impls = update p.impls this (record {
      initact = p.action;
      oldact = zero_action;
      ofs = record { is_open = false; failed = false; contents = [] };
    });
    live = λ q. if q == this then true else p.live q;
  }

  -- The destructor: the Impl goes, and its stream is closed with it.
  unfoldable pub destruct : ℕ → Process Other → Process Other
  destruct this p = record p { live = λ q. if q == this then false else p.live q }

  -- The end of Impl::start, behind the checks: write_header, sigaction, `static_impl = this`.
  unfoldable pub begin : ℕ → Impl → Process Other → Process Other
  begin this impl p = record p {
    impls = update p.impls this (write_header impl);
    action = record { handler = static_handler; siginfo = true };
    static_impl = some this;
  }

  unfoldable pub is_running : Process Other → Bool
  is_running p = elim p.static_impl [ none ↦ false | some impl ↦ true ]

  -- Impl::start. `can_create` says whether the file of that path can be made.
  unfoldable pub start : Bool → ℕ → Process Other → Process Other × Option Error
  start can_create this p =
      let queried = record (p.impls this) { oldact = p.action } in
      let opened = record queried { ofs = open_stream can_create queried.ofs } in
      let cleared = record opened { ofs = record opened.ofs { failed = false } } in
      if is_running p
      then (p, some already_running)
      else if p.action.siginfo
      then (set_impl p this queried, some oops)
      else if opened.ofs.failed
      then (set_impl p this cleared, some cannot_create)
      else (begin this opened p, none)

  -- Impl::stop
  unfoldable pub stop : Bytes → ℕ → Process Other → Process Other
  stop maps this p =
      let ended = write_trailer maps (p.impls this) in
      record p {
        action = (p.impls this).initact;
        static_impl = none;
        impls = update p.impls this (record ended { ofs = close_stream ended.ofs });
      }

  -- remove_handler
  unfoldable pub remove_handler : Process Other → Process Other
  remove_handler p = record p { action = record { handler = sig_ign; siginfo = false } }

  -- `foreign n` is what the handler `n` of other code does to its state and to the disposition of
  -- SIGPROF.
  module _ (foreign : ℕ → SigAction × Other → SigAction × Other) where
    -- `if (oldact.sa_handler != SIG_DFL && oldact.sa_handler != SIG_IGN) oldact.sa_handler(SIGPROF)`,
    -- then `sigaction(SIGPROF, &myact, NULL)` with the disposition that was read before. A call of
    -- static_handler with one argument is a fault.
    unfoldable pub chain : Handler → Process Other → Option (Process Other)
    chain sig_dfl p = some p
    chain sig_ign p = some p
    chain static_handler p = none
    chain (function n) p =
        let (after, other) = foreign n (p.action, p.other) in
        some (record p { action = p.action; other = other })

    -- Impl::handler; `none` is a fault.
    unfoldable pub handler : ℕ → ℕ → Context → Process Other → Option (Process Other)
    handler this signal ctx p =
        let impl = p.impls this in
        if not (signal == sigprof)
        then some p
        else elim (write_stack_trace ctx.stack ctx.pc ctx.frames) [
          | none ↦ none
          | some words ↦
              chain impl.oldact.handler
                (set_impl p this (record impl { ofs = write_stream impl.ofs (words_bytes words) }))
        ]

    -- Impl::static_handler; a static_impl that points to a destroyed object is a fault.
    unfoldable pub static_handle : ℕ → Context → Process Other → Option (Process Other)
    static_handle signal ctx p = elim p.static_impl [
      | none ↦ some p
      | some this ↦ if p.live this then handler this signal ctx p else none
    ]
