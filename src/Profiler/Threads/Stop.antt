-- ===== src/Profiler/Threads/Stop.antt =====
-- The steps of stop on one thread, while a handler of SIGPROF runs on another.
use jointprof.Profiler.Defs.{SigAction, Stream, Impl, Process, write_stream, close_stream, update}
use jointprof.Profiler.Race.{restore, unpublish}
use jointprof.Profiler.Session.{update_self}
use jointprof.Profiler.Threads.{
  in_chunk, closing, HandlerPoint, StopPoint, called, restored, writing, stopped, trailer_writes,
  stop_step,
}
use jointprof.Profiler.Threads.Between.{
  remaining, stop_left, OpenUntil, Published, AtPoint, AtPoint-init, Sampled, Between,
  write-OpenUntil, write_open, close_open,
}
use jointprof.Profiler.Race.Writes.{joined}
use jointprof.Profiler.Race.{write_chunk, close_file}
use jointprof.Common.{
  ℕ, ◌-◌, ◌≤◌, ◌≡◌, refl, sym, ap, ◌∙◌, subst, Option, none, List, [], ◌∷◌, ◌++◌, append_assoc,
  Bytes, arith,
}

regroup :
    (front back chunk more : Bytes)
    → (front ++ (back ++ chunk)) ++ more ≡ (front ++ back) ++ (chunk ++ more)
regroup front back chunk more = simp append_assoc

module _ {Other : Type 0} (this : ℕ) (init : SigAction) (file one : Bytes) (maps : List Bytes) where
  -- A step that leaves the objects alone.
  pub moved :
      (h h' : HandlerPoint) (k k' : StopPoint) (p : Process Other) (action : SigAction)
      (pointer : Option ℕ) (other : Other) (b : Between this init file one maps h k p)
      → Published this k' pointer
      → AtPoint this init h' action
      → Sampled one h' b.inside
      → remaining maps k' ≡ remaining maps k
      → OpenUntil k' (p.impls this).ofs
      → Between this init file one maps h' k'
          (record p { action = action; static_impl = pointer; other = other })
  moved h h' k k' p action pointer other b published at taken same stream = record {
    alive = b.alive;
    published = published;
    initact = b.initact;
    old = b.old;
    at = at;
    front = b.front;
    inside = b.inside;
    back = b.back;
    contents = b.contents;
    written = ap (λ c. (b.front ++ b.back) ++ joined c) same ∙ b.written;
    taken = taken;
    stream = stream;
  }

  -- A step that changes the stream of the object.
  pub streamed :
      (h h' : HandlerPoint) (k k' : StopPoint) (p : Process Other) (ofs : Stream)
      (front inside back : Bytes)
      → Between this init file one maps h k p
      → Published this k' p.static_impl
      → AtPoint this init h' p.action
      → ofs.contents ≡ file ++ (front ++ (inside ++ back))
      → (front ++ back) ++ joined (remaining maps k') ≡ joined (trailer_writes maps)
      → Sampled one h' inside
      → OpenUntil k' ofs
      → Between this init file one maps h' k'
          (record p { impls = update p.impls this (record (p.impls this) { ofs = ofs }) })
  streamed h h' k k' p ofs front inside back b published at contents written taken stream =
      let impl : Impl = record (p.impls this) { ofs = ofs } in
      let same : update p.impls this impl this ≡ impl = update_self p.impls this impl in
      record {
        alive = b.alive;
        published = published;
        initact = ap (λ (i : Impl). i.initact) same ∙ b.initact;
        old = λ e. b.old (ap (λ (i : Impl). i.oldact.handler) (sym same) ∙ e);
        at = at;
        front = front;
        inside = inside;
        back = back;
        contents = ap (λ (i : Impl). i.ofs.contents) same ∙ contents;
        written = written;
        taken = taken;
        stream = subst (λ (i : Impl). OpenUntil k' i.ofs) (sym same) stream;
      }

  pub stop_step-Between :
      (h : HandlerPoint) (k : StopPoint) (p : Process Other)
      → Between this init file one maps h k p
      → let (k', p') = stop_step this maps k p in
        Between this init file one maps h k' p' × (stop_left maps k' ≤ stop_left maps k - 1)
  unfolding stop_step restore unpublish write_chunk close_file joined trailer_writes stop_left
  stop_step-Between h called p b = (
    moved h h called restored p (p.impls this).initact p.static_impl p.other b b.published
        (subst (AtPoint this init h) (sym b.initact) (AtPoint-init this init h p.action b.at))
        b.taken refl b.stream,
    omega arith,
  )
  stop_step-Between h restored p b = (
    moved h h restored (writing (trailer_writes maps)) p p.action none p.other b refl b.at b.taken
        refl b.stream,
    omega arith,
  )
  stop_step-Between h (writing (chunk ∷ more)) p b = (
    moved h h (writing (chunk ∷ more)) (in_chunk chunk more) p p.action p.static_impl p.other b
        b.published b.at b.taken refl b.stream,
    omega arith,
  )
  stop_step-Between h (in_chunk chunk more) p b = (
    streamed h h (in_chunk chunk more) (writing more) p (write_stream (p.impls this).ofs chunk)
        b.front b.inside (b.back ++ chunk) b b.published b.at
        (write_open (p.impls this).ofs chunk b.stream.0 b.stream.1
          ∙ ap (λ t. t ++ chunk) b.contents
          ∙ simp append_assoc)
        (regroup b.front b.back chunk (joined more) ∙ b.written) b.taken
        (write-OpenUntil (writing more) (p.impls this).ofs chunk b.stream).0,
    omega arith,
  )
  stop_step-Between h (writing []) p b = (
    moved h h (writing []) closing p p.action p.static_impl p.other b b.published b.at b.taken refl
        b.stream,
    omega arith,
  )
  stop_step-Between h closing p b = (
    streamed h h closing stopped p (close_stream (p.impls this).ofs) b.front b.inside b.back b
        b.published b.at ((close_open (p.impls this).ofs b.stream.0).1 ∙ b.contents) b.written
        b.taken (close_open (p.impls this).ofs b.stream.0).0,
    omega arith,
  )
  stop_step-Between h stopped p b = (b, omega arith)
