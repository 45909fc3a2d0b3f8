-- ===== src/Profiler/Trailer/Pieces.antt =====
-- src/profiler.cpp, the loop of write_trailer over the memory maps of any file.
use jointprof.Maps.Entries.{entries}
use jointprof.Maps.File.Laws.{NoFailure, Fails, Fails-cases}
use jointprof.Maps.File.{File}
use jointprof.Maps.Init.{k_buf_size, k_buf_size_large, self_file, init, init-Holds, init_fd}
use jointprof.Maps.Iterator.Next.{text_ahead}
use jointprof.Maps.Iterator.Pieces.{Pieces, Steady, Gives}
use jointprof.Maps.Iterator.Pieces.Calls.{next_ext-Gives}
use jointprof.Maps.Iterator.{Iterator, Outcome, entry, finished, fault, no_fuel, next}
use jointprof.Maps.Platform.{Platform}
use jointprof.Profiler.Trailer.{
  write_entry, write_maps, entries_text, entries_text-cons, trailer_maps,
}
use jointprof.Common.{
  ℕ, zero, suc, ◌-◌, ◌<◌, ◌≡◌, refl, sym, ap, ◌∙◌, subst, ◌⊎◌, true, false, some, List, [], ◌++◌,
  append-nil, append_assoc, arith, Bytes, length, ℤ, pos,
}

module _ (F : Type 0) (ebuf : ℕ) (positive : 0 < ebuf) (os : Platform)
    (lines_left bufsize : ℕ) where
  -- The loop writes the canonical lines of the entries of the pieces of the text ahead.
  abbrev Writes : ℕ → Iterator → Bytes → Bytes → Type 0
  Writes fuel it out text =
      (pieces : List Bytes) × (left : Bytes) × Pieces F ebuf text pieces left
      × (F ⊎ (left ≡ []))
      × (write_maps os fuel lines_left bufsize it out
          ≡ some (out ++ entries_text bufsize (entries os pieces)))

  -- One round of the loop, given the rest of it.
  round :
      (fuel : ℕ) (text out : Bytes)
      → ((it : Iterator) (pending out' : Bytes)
          → Steady F ebuf it pending
          → length (text_ahead it pending) < length text
          → Writes fuel it out' (text_ahead it pending))
      → (o : Outcome) → Gives os F ebuf text o
      → (it : Iterator) → next os lines_left it ≡ o
      → Writes (suc fuel) it out text
  unfolding write_maps
  round fuel text out ih (entry e it') (pending, s, less, continue) it o =
      let (later, left, cut, done, ends) = ih it' pending (out ++ write_entry bufsize e) s less in
      let (all, cut', same) = continue later left cut in
      (
        all,
        left,
        cut',
        done,
        rw (o, write_maps)
            (ends
              ∙ ap some (
                  append_assoc out (write_entry bufsize e) _
                  ∙ ap (λ t. out ++ t)
                      (sym (entries_text-cons bufsize e (entries os later))
                        ∙ ap (entries_text bufsize) (sym same)))),
      )
  round fuel text out ih (finished it') (all, left, cut, none_found, done) it o = (
    all,
    left,
    cut,
    done,
    rw (o, write_maps)
        (rw none_found (ap some (sym (append-nil out) ∙ unfold entries_text in refl))),
  )
  round fuel text out ih fault g it o = absurd g
  round fuel text out ih no_fuel g it o = absurd g

  write_maps-Writes :
      (fuel : ℕ) (it : Iterator) (pending out : Bytes)
      → Steady F ebuf it pending
      → length (text_ahead it pending) < fuel
      → length (text_ahead it pending) < lines_left
      → Writes fuel it out (text_ahead it pending)
  write_maps-Writes zero it pending out s less enough = absurd (omega arith)
  write_maps-Writes (suc fuel) it pending out s less enough =
      round fuel (text_ahead it pending) out
        (λ it' pending' out' s' shorter.
          write_maps-Writes fuel it' pending' out' s' (omega arith) (omega arith))
        (next os lines_left it) (next_ext-Gives F ebuf positive os lines_left it pending s enough)
        it refl

module _ (os : Platform) (path_max : ℕ) (own_pid : ℤ) (open_file : Bytes → File) where
  init-Steady :
      (buf : Bytes)
      → length buf ≡ k_buf_size os path_max
      → Steady
          (Fails (open_file (self_file os)))
          (k_buf_size os path_max - 1)
          (init os path_max own_pid open_file buf (pos 0) false)
          []
  unfolding init
  init-Steady buf full =
      let file = open_file (self_file os) in
      let same = init_fd os path_max own_pid open_file buf in
      record {
        holds = init-Holds os path_max own_pid open_file buf full;
        mode = refl;
        same_ebuf = refl;
        safe =
            subst (λ (f : File). Fails file ⊎ ((f.is_open ≡ true) × NoFailure f.script)) (sym same)
              (Fails-cases file);
      }

  -- The loop of write_trailer over the maps ends without a fault whatever the file does: it may not
  -- open, its reads may fail, be short or interrupted, and its lines may be longer than the buffer. Fuel
  -- above the number of bytes of the file is enough; the iterator's buffer has the right size, with anything
  -- in it. The file falls into pieces without a newline, in order, and a rest that was not read: behind a
  -- piece stands a newline, or the piece is not empty and the next one follows at once. What the loop
  -- writes are the canonical lines of the entries of these pieces, those that fit into the line buffer. Unless the file does
  -- not open or a read fails, the rest is empty, and a piece without a newline behind it fills the
  -- buffer or is the end of the file.
  pub trailer_maps-Pieces :
      (fuel : ℕ) (iterbuf : Bytes)
      → let file = open_file (self_file os) in
        let size = k_buf_size os path_max in
        length iterbuf ≡ size
        → length file.unread < fuel
        → (pieces : List Bytes) × (left : Bytes) × Pieces
            (Fails file)
            (size - 1)
            file.unread
            pieces
            left
          × (Fails file ⊎ (left ≡ []))
          × (trailer_maps os path_max own_pid open_file fuel iterbuf
              ≡ some (entries_text size (entries os pieces)))
  unfolding trailer_maps
  trailer_maps-Pieces fuel iterbuf full enough =
      let it = init os path_max own_pid open_file iterbuf (pos 0) false in
      let file = open_file (self_file os) in
      let size = k_buf_size os path_max in
      let same = ap (λ (f : File). f.unread) (init_fd os path_max own_pid open_file iterbuf) in
      let bound : length (text_ahead it []) < fuel = omega (arith, ap length same) in
      let (pieces, left, cut, done, ends) =
        write_maps-Writes (Fails file) (size - 1) (omega (arith, k_buf_size_large os path_max)) os
          fuel size fuel it [] [] (init-Steady iterbuf full) bound bound in
      (pieces, left, subst (λ t. Pieces (Fails file) (size - 1) t pieces left) same cut, done, ends)
