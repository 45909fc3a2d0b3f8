-- ===== src/Profiler/Threads/Between.antt =====
-- What holds between the steps of a handler on one thread and of stop on another.
use jointprof.Profiler.Defs.{static_handler, SigAction, Stream, Process, write_stream, close_stream}
use jointprof.Profiler.Threads.{
  in_write, in_chunk, closing, HandlerPoint, entered, tested, in_handler, sampled, saved, chained,
  returned, null_call, StopPoint, called, restored, writing, stopped, trailer_writes,
}
use jointprof.Profiler.Race.Writes.{joined}
use jointprof.Profiler.Words.{words_bytes}
use jointprof.Common.{
  ℕ, ◌+◌, ◌≡◌, ◌≢◌, refl, ◌⊎◌, inl, inr, true, false, Option, none, some, List, [], ◌∷◌, ◌++◌,
  Bytes, length,
}

-- What stop has not written yet.
abbrev pub remaining : List Bytes → StopPoint → List Bytes
remaining maps called = trailer_writes maps
remaining maps restored = trailer_writes maps
remaining maps (writing more) = more
remaining maps (in_chunk chunk more) = chunk ∷ more
remaining maps closing = []
remaining maps stopped = []

-- The steps of stop that are left, and those of the handler.
unfoldable pub stop_left : List Bytes → StopPoint → ℕ
stop_left maps called = length maps + length maps + 6
stop_left maps restored = length maps + length maps + 5
stop_left maps (writing more) = length more + length more + 2
stop_left maps (in_chunk chunk more) = length more + length more + 3
stop_left maps closing = 1
stop_left maps stopped = 0

unfoldable pub handler_left : HandlerPoint → ℕ
handler_left entered = 7
handler_left tested = 6
handler_left (in_handler this) = 5
handler_left (in_write this words) = 4
handler_left (sampled this) = 3
handler_left (saved this myact) = 2
handler_left (chained myact) = 1
handler_left returned = 0
handler_left null_call = 0

abbrev pub own_action : SigAction
own_action = record { handler = static_handler; siginfo = true }

-- The stream is open until stop has closed it.
abbrev pub OpenUntil : StopPoint → Stream → Type 0
OpenUntil stopped ofs = ofs.is_open ≡ false
OpenUntil called ofs = (ofs.is_open ≡ true) × (ofs.failed ≡ false)
OpenUntil restored ofs = (ofs.is_open ≡ true) × (ofs.failed ≡ false)
OpenUntil (writing more) ofs = (ofs.is_open ≡ true) × (ofs.failed ≡ false)
OpenUntil (in_chunk chunk more) ofs = (ofs.is_open ≡ true) × (ofs.failed ≡ false)
OpenUntil closing ofs = (ofs.is_open ≡ true) × (ofs.failed ≡ false)

abbrev pub Published : ℕ → StopPoint → Option ℕ → Type 0
Published this called pointer = pointer ≡ some this
Published this restored pointer = pointer ≡ some this
Published this (writing more) pointer = pointer ≡ none
Published this (in_chunk chunk more) pointer = pointer ≡ none
Published this closing pointer = pointer ≡ none
Published this stopped pointer = pointer ≡ none

module _ (this : ℕ) (init : SigAction) where
  -- The profiler's own disposition, or the one from before.
  abbrev pub IsOne : SigAction → Type 0
  IsOne action = (action ≡ own_action) ⊎ (action ≡ init)

  -- What the handler holds at each point, with the disposition of the process.
  abbrev pub AtPoint : HandlerPoint → SigAction → Type 0
  AtPoint entered action = IsOne action
  AtPoint tested action = IsOne action
  AtPoint (in_handler q) action = (q ≡ this) × IsOne action
  AtPoint (in_write q words) action = (q ≡ this) × IsOne action
  AtPoint (sampled q) action = (q ≡ this) × IsOne action
  AtPoint (saved q myact) action = (q ≡ this) × IsOne myact × IsOne action
  AtPoint (chained myact) action = IsOne myact
  AtPoint returned action = IsOne action
  AtPoint null_call action = Unit

  pub AtPoint-init : (h : HandlerPoint) (action : SigAction) → AtPoint h action → AtPoint h init
  AtPoint-init entered action a = inr refl
  AtPoint-init tested action a = inr refl
  AtPoint-init (in_handler q) action a = (a.0, inr refl)
  AtPoint-init (in_write q words) action a = (a.0, inr refl)
  AtPoint-init (sampled q) action a = (a.0, inr refl)
  AtPoint-init (saved q myact) action a = (a.0, a.1, inr refl)
  AtPoint-init (chained myact) action a = a
  AtPoint-init returned action a = inr refl
  AtPoint-init null_call action a = tt

-- The sample in the file: none before it is written, and later it or none.
abbrev pub Sampled : Bytes → HandlerPoint → Bytes → Type 0
Sampled one entered x = x ≡ []
Sampled one tested x = x ≡ []
Sampled one (in_handler q) x = x ≡ []
Sampled one (in_write q words) x = (x ≡ []) × (words_bytes words ≡ one)
Sampled one (sampled q) x = (x ≡ []) ⊎ (x ≡ one)
Sampled one (saved q myact) x = (x ≡ []) ⊎ (x ≡ one)
Sampled one (chained myact) x = (x ≡ []) ⊎ (x ≡ one)
Sampled one returned x = (x ≡ []) ⊎ (x ≡ one)
Sampled one null_call x = (x ≡ []) ⊎ (x ≡ one)

-- What holds after every turn. The file held `file`; `one` is the sample, and `maps` the texts of the maps.
pub record Between {Other : Type 0} (this : ℕ) (init : SigAction) (file one : Bytes)
    (maps : List Bytes) (h : HandlerPoint) (k : StopPoint) (p : Process Other) : Type 0 where
  pub alive : p.live this ≡ true
  pub published : Published this k p.static_impl
  pub initact : (p.impls this).initact ≡ init
  pub old : (p.impls this).oldact.handler ≢ static_handler
  pub at : AtPoint this init h p.action
  pub front : Bytes
  pub inside : Bytes
  pub back : Bytes
  pub contents : (p.impls this).ofs.contents ≡ file ++ (front ++ (inside ++ back))
  pub written : (front ++ back) ++ joined (remaining maps k) ≡ joined (trailer_writes maps)
  pub taken : Sampled one h inside
  pub stream : OpenUntil k (p.impls this).ofs

pub Published-cases :
    (this : ℕ) (k : StopPoint) (pointer : Option ℕ)
    → Published this k pointer
    → (pointer ≡ some this) ⊎ (pointer ≡ none)
Published-cases this called pointer e = inl e
Published-cases this restored pointer e = inl e
Published-cases this (writing more) pointer e = inr e
Published-cases this (in_chunk chunk more) pointer e = inr e
Published-cases this closing pointer e = inr e
Published-cases this stopped pointer e = inr e

-- A write goes to the end of the contents, or nowhere if the stream is closed.
pub write-OpenUntil :
    (k : StopPoint) (ofs : Stream) (text : Bytes)
    → OpenUntil k ofs
    → OpenUntil k (write_stream ofs text)
      × (((write_stream ofs text).contents ≡ ofs.contents)
          ⊎ ((write_stream ofs text).contents ≡ ofs.contents ++ text))
unfolding write_stream
write-OpenUntil called ofs text (o, f) = rw (o, f) ((refl, refl), inr refl)
write-OpenUntil restored ofs text (o, f) = rw (o, f) ((refl, refl), inr refl)
write-OpenUntil (writing more) ofs text (o, f) = rw (o, f) ((refl, refl), inr refl)
write-OpenUntil (in_chunk chunk more) ofs text (o, f) = rw (o, f) ((refl, refl), inr refl)
write-OpenUntil closing ofs text (o, f) = rw (o, f) ((refl, refl), inr refl)
write-OpenUntil stopped ofs text o = rw o (refl, inl refl)

pub write_open :
    (ofs : Stream) (text : Bytes)
    → ofs.is_open ≡ true
    → ofs.failed ≡ false
    → (write_stream ofs text).contents ≡ ofs.contents ++ text
unfolding write_stream
write_open ofs text o f = rw (o, f) refl

pub close_open :
    (ofs : Stream)
    → ofs.is_open ≡ true
    → ((close_stream ofs).is_open ≡ false) × ((close_stream ofs).contents ≡ ofs.contents)
unfolding close_stream
close_open ofs o = rw o (refl, refl)
