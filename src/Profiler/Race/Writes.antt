-- ===== src/Profiler/Race/Writes.antt =====
-- src/profiler.cpp, the writes of write_trailer one by one, with SIGPROF arriving between them.
use mathlib.Core.Path.{fun_ext}
use jointprof.Profiler.Defs.{
  SigAction, Stream, Impl, Process, Context, set_impl, write_stream, close_stream, write_trailer,
  update, stop, trailer_words,
}
use jointprof.Profiler.Race.{
  Harmless, restore, unpublish, write_chunk, close_file, deliver_all, interrupted_writes,
  interrupted_stop, KeepsAction, deliver_all-Foreign,
}
use jointprof.Profiler.Session.{update_self}
use jointprof.Profiler.Words.{words_bytes}
use jointprof.Common.{
  ℕ, ◌≡◌, ◌≢◌, refl, sym, ap, ◌∙◌, ◌⊎◌, inl, inr, Bool, true, false, ==-cases, ==-refl, ==-ne, some,
  bind_some, List, [], ◌∷◌, ◌++◌, append_assoc, append-nil, map, Bytes,
}

-- The bytes of several writes.
unfoldable pub joined : List Bytes → Bytes
joined [] = []
joined (chunk ∷ more) = chunk ++ joined more

-- Two writes are one.
pub write_stream-write_stream :
    (ofs : Stream) (first second : Bytes)
    → write_stream (write_stream ofs first) second ≡ write_stream ofs (first ++ second)
unfolding write_stream
write_stream-write_stream ofs first second = go ofs.is_open ofs.failed
  where
    go :
        (is_open failed : Bool)
        → let s : Stream = record ofs { is_open = is_open; failed = failed } in
          write_stream (write_stream s first) second ≡ write_stream s (first ++ second)
    go true true = refl
    go true false =
        ap (λ (t : Bytes). record { is_open = true; failed = false; contents = t })
          (append_assoc ofs.contents first second)
    go false true = refl
    go false false = refl

update_twice :
    (impls : ℕ → Impl) (this : ℕ) (first second : Impl)
    → update (update impls this first) this second ≡ update impls this second
unfolding update
update_twice impls this first second = fun_ext (λ q. go q (==-cases q this))
  where
    go :
        (q : ℕ)
        → (q ≡ this) ⊎ (q ≢ this)
        → update (update impls this first) this second q ≡ update impls this second q
    go q (inl e) = rw e (rw (==-refl this) refl)
    go q (inr ne) = rw (==-ne q this ne) refl

module _ {Other : Type 0} (this : ℕ) (q : Process Other) where
  -- The process with another object at the address.
  abbrev put : Impl → Process Other
  put impl = record q { impls = update q.impls this impl }

  -- A change of the object that has been put there.
  put_twice :
      (f : Impl → Impl) (impl : Impl)
      → set_impl (put impl) this (f ((put impl).impls this)) ≡ put (f impl)
  put_twice f impl =
      ap (λ (i : Impl). set_impl (put impl) this (f i)) (update_self q.impls this impl)
      ∙ ap (λ (g : ℕ → Impl). record q { impls = g }) (update_twice q.impls this impl (f impl))

  write_chunk-put :
      (chunk : Bytes) (impl : Impl)
      → write_chunk this chunk (put impl) ≡ put (record impl { ofs = write_stream impl.ofs chunk })
  unfolding write_chunk
  write_chunk-put chunk impl = put_twice (λ i. record i { ofs = write_stream i.ofs chunk }) impl

  close_file-put :
      (impl : Impl) → close_file this (put impl) ≡ put (record impl { ofs = close_stream impl.ofs })
  unfolding close_file
  close_file-put impl = put_twice (λ i. record i { ofs = close_stream i.ofs }) impl

module _ {Other : Type 0} (foreign : ℕ → SigAction × Other → SigAction × Other)
    (keeps : KeepsAction foreign) (this : ℕ) where
  -- The writes behind the bytes `first`.
  interrupted_writes_lem :
      (writes : List (Bytes × List Context)) (q : Process Other) (impl : Impl) (first : Bytes)
      → Harmless q.action.handler
      → (other : Other) × (interrupted_writes foreign this writes
            (put this q (record impl { ofs = write_stream impl.ofs first }))
          ≡ some
              (record (put this q (record impl {
                ofs = write_stream impl.ofs (first ++ joined (map (λ w. w.0) writes));
              })) { other = other }))
  unfolding interrupted_writes joined
  interrupted_writes_lem [] q impl first h = (
    q.other,
    ap (λ t. some (put this q (record impl { ofs = write_stream impl.ofs t })))
        (sym (append-nil first)),
  )
  interrupted_writes_lem ((chunk, ctxs) ∷ more) q impl first h =
      let written =
        write_chunk-put this q chunk (record impl { ofs = write_stream impl.ofs first }) in
      let both =
        written
        ∙ ap (λ (o : Stream). put this q (record impl { ofs = o }))
            (write_stream-write_stream impl.ofs first chunk) in
      let after = put this q (record impl { ofs = write_stream impl.ofs (first ++ chunk) }) in
      let (other, e) = deliver_all-Foreign foreign keeps ctxs after h in
      let (last, e') =
        interrupted_writes_lem more (record q { other = other }) impl (first ++ chunk) h in
      (
        last,
        bind_some _ (ap (deliver_all foreign ctxs) both ∙ e)
            ∙ e'
            ∙ ap
                (λ t. some (record (put this q (record impl { ofs = write_stream impl.ofs t })) {
                  other = last;
                }))
                (append_assoc first chunk (joined (map (λ w. w.0) more))),
      )

  -- Signals that arrive between the steps of stop, and so between the writes of the trailer and
  -- in front of close, do not fault and write no sample: stop ends as it does without them, up to the state of
  -- other code. The handler that the constructor found is one of other code or SIG_IGN, and handlers of
  -- other code leave the disposition alone.
  pub interrupted_stop-stop :
      (first second third : List Context) (maps : List (Bytes × List Context)) (last : List Context)
      (p : Process Other)
      → Harmless (p.impls this).initact.handler
      → (other : Other) × (interrupted_stop foreign first second third maps last this p
          ≡ some (record (stop (joined (map (λ w. w.0) maps)) this p) { other = other }))
  unfolding interrupted_stop interrupted_writes write_chunk stop restore unpublish write_trailer
  interrupted_stop-stop first second third maps last p h =
      let (one, e) = deliver_all-Foreign foreign keeps first (restore this p) h in
      let (two, e2) =
        deliver_all-Foreign foreign keeps second
          (unpublish (record (restore this p) { other = one })) h in
      let q = record (unpublish (restore this p)) { other = two } in
      let impl = p.impls this in
      let words = words_bytes trailer_words in
      let text = joined (map (λ w. w.0) maps) in
      let (three, e3) =
        deliver_all-Foreign foreign keeps third
          (put this q (record impl { ofs = write_stream impl.ofs words })) h in
      let (four, e4) = interrupted_writes_lem maps (record q { other = three }) impl words h in
      let closed =
        close_file-put this (record q { other = four })
          (record impl { ofs = write_stream impl.ofs (words ++ text) })
        ∙ ap
            (λ (o : Stream).
              put this (record q { other = four }) (record impl { ofs = close_stream o }))
            (sym (write_stream-write_stream impl.ofs words text)) in
      let (other, e5) =
        deliver_all-Foreign foreign keeps last (record (stop text this p) { other = four }) h in
      (
        other,
        bind_some _ e
            ∙ bind_some _ e2
            ∙ bind_some _ (bind_some _ e3 ∙ e4)
            ∙ ap (deliver_all foreign last) closed
            ∙ e5,
      )
