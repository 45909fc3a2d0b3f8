-- ===== src/Profiler/Threads.antt =====
-- src/profiler.cpp, SIGPROF handled on one thread while another thread runs stop. Each thread takes
-- its steps in order, a schedule says whose turn it is, and a step is one access to what they
-- share. A call on the stream begins with one step and ends with another; where two of them overlap in
-- time, the schedule ends as a data race.
pub mod Between
pub mod Stop
pub mod Steps
pub mod Outcomes
pub mod Quiet
pub mod Late
mod Examples
use jointprof.Profiler.Defs.{
  Handler, sig_dfl, sig_ign, static_handler, function, SigAction, Process, Context, set_impl,
  write_stream, close_stream, trailer_words, sigprof,
}
use jointprof.Profiler.Race.{restore, unpublish, write_chunk, close_file}
use jointprof.Profiler.Trace.{write_stack_trace}
use jointprof.Profiler.Words.{words_bytes}
use jointprof.Common.{
  ℕ, ◌+◌, not, ◌==◌, if◌then◌else◌, Bool, true, false, Option, none, some, ◌>>=◌, List, [], ◌∷◌,
  Bytes,
}

-- Where the thread of the handler stands: in static_handler in front of the test of static_impl, or
-- in front of the call through it; in handler in front of write_stack_trace, inside its `ofs.write` of
-- the words of the sample, behind that, behind the first sigaction, or in front of the last one; behind
-- the return; or in a call through NULL.
pub data HandlerPoint : Type 0 where
  entered tested : HandlerPoint
  in_handler sampled : ℕ → HandlerPoint
  in_write : ℕ → List ℕ → HandlerPoint
  saved : ℕ → SigAction → HandlerPoint
  chained : SigAction → HandlerPoint
  returned null_call : HandlerPoint

-- Where the thread of stop stands: in front of sigaction, in front of `static_impl = NULL`, in front
-- of the writes that are left of write_trailer, inside one of them, inside `ofs.close()`, or behind
-- that.
pub data StopPoint : Type 0 where
  called restored : StopPoint
  writing : List Bytes → StopPoint
  in_chunk : Bytes → List Bytes → StopPoint
  closing : StopPoint
  stopped : StopPoint

-- Both threads, and the process.
pub record Threads (Other : Type 0) : Type 0 where
  pub handling : HandlerPoint
  pub stopping : StopPoint
  pub process : Process Other

pub data Turn : Type 0 where
  handler_turn stop_turn : Turn

-- The turns of each thread.
abbrev pub handler_turns : List Turn → ℕ
handler_turns [] = 0
handler_turns (handler_turn ∷ turns) = handler_turns turns + 1
handler_turns (stop_turn ∷ turns) = handler_turns turns

abbrev pub stop_turns : List Turn → ℕ
stop_turns [] = 0
stop_turns (handler_turn ∷ turns) = stop_turns turns
stop_turns (stop_turn ∷ turns) = stop_turns turns + 1

-- Both threads are inside a call on the stream, which has no lock.
abbrev pub overlaps : HandlerPoint → StopPoint → Bool
overlaps entered k = false
overlaps tested k = false
overlaps (in_handler this) k = false
overlaps (in_write this words) (in_chunk chunk more) = true
overlaps (in_write this words) closing = true
overlaps (in_write this words) called = false
overlaps (in_write this words) restored = false
overlaps (in_write this words) (writing more) = false
overlaps (in_write this words) stopped = false
overlaps (sampled this) k = false
overlaps (saved this myact) k = false
overlaps (chained myact) k = false
overlaps returned k = false
overlaps null_call k = false

-- How a schedule goes: to its end; into a fault; or into a data race, behind which nothing is said.
pub data Ran (Other : Type 0) : Type 0 where
  ends : Threads Other → Ran Other
  fault data_race : Ran Other

-- The writes of write_trailer: its words, then a text for each entry of the maps.
unfoldable pub trailer_writes : List Bytes → List Bytes
trailer_writes maps = words_bytes trailer_words ∷ maps

module _ {Other : Type 0} where
  -- A step of stop.
  unfoldable pub stop_step : ℕ → List Bytes → StopPoint → Process Other → StopPoint × Process Other
  stop_step this maps called p = (restored, restore this p)
  stop_step this maps restored p = (writing (trailer_writes maps), unpublish p)
  stop_step this maps (writing (chunk ∷ more)) p = (in_chunk chunk more, p)
  stop_step this maps (in_chunk chunk more) p = (writing more, write_chunk this chunk p)
  stop_step this maps (writing []) p = (closing, p)
  stop_step this maps closing p = (stopped, close_file this p)
  stop_step this maps stopped p = (stopped, p)

module _ {Other : Type 0} (foreign : ℕ → SigAction × Other → SigAction × Other) where
  -- The call of the handler that `oldact` names, which may change the disposition.
  unfoldable pub call_old : Handler → Process Other → Option (Process Other)
  call_old sig_dfl p = some p
  call_old sig_ign p = some p
  call_old static_handler p = none
  call_old (function n) p =
      let (action, other) = foreign n (p.action, p.other) in
      some (record p { action = action; other = other })

  -- A step of static_handler and handler on a signal. static_handler reads static_impl twice.
  unfoldable pub handler_step :
      ℕ → Context → HandlerPoint → Process Other → Option (HandlerPoint × Process Other)
  handler_step signal ctx entered p =
      some (elim p.static_impl [ none ↦ returned | some this ↦ tested ], p)
  handler_step signal ctx tested p = elim p.static_impl [
    | none ↦ some (null_call, p)
    | some this ↦ if p.live this then some (in_handler this, p) else none
  ]
  handler_step signal ctx (in_handler this) p =
      if not (signal == sigprof)
      then some (returned, p)
      else elim (write_stack_trace ctx.stack ctx.pc ctx.frames) [
        | none ↦ none
        | some words ↦ some (in_write this words, p)
      ]
  handler_step signal ctx (in_write this words) p =
      let impl = p.impls this in
      some (
        sampled this,
        set_impl p this (record impl { ofs = write_stream impl.ofs (words_bytes words) }),
      )
  handler_step signal ctx (sampled this) p = some (saved this p.action, p)
  handler_step signal ctx (saved this myact) p = do
    q ← call_old (p.impls this).oldact.handler p
    some (chained myact, q)
  handler_step signal ctx (chained myact) p = some (returned, record p { action = myact })
  handler_step signal ctx returned p = some (returned, p)
  handler_step signal ctx null_call p = some (null_call, p)

  unfoldable pub turn : Context → ℕ → List Bytes → Turn → Threads Other → Option (Threads Other)
  turn ctx this maps handler_turn s = do
    (handling, process) ← handler_step sigprof ctx s.handling s.process
    some (record s { handling = handling; process = process })
  turn ctx this maps stop_turn s =
      let (stopping, process) = stop_step this maps s.stopping s.process in
      some (record s { stopping = stopping; process = process })

  -- The turns of a schedule, in order.
  unfoldable pub run : Context → ℕ → List Bytes → List Turn → Threads Other → Ran Other
  run ctx this maps [] s = ends s
  run ctx this maps (t ∷ turns) s = elim (turn ctx this maps t s) [
    | none ↦ fault
    | some s' ↦
        let rest = run ctx this maps turns s' in
        if overlaps s'.handling s'.stopping then data_race else rest
  ]

-- A signal has reached its handler, and stop is called.
abbrev pub both_enter : {Other : Type 0} → Process Other → Threads Other
both_enter p = record { handling = entered; stopping = called; process = p }
