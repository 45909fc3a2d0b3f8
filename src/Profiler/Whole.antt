-- ===== src/Profiler/Whole.antt =====
-- A whole profile: start, the signals, and stop with the memory maps of the process.
use jointprof.Profiler.Defs.{SigAction, Process, Context, header_words, trailer_words}
use jointprof.Profiler.Session.{IsContext, CanStart, samples_bytes, session, session_lem}
use jointprof.Profiler.Trailer.{entries_text, trailer_maps, trailer_maps-entries_text}
use jointprof.Profiler.Words.{words_bytes}
use jointprof.Maps.Entries.{entries}
use jointprof.Maps.File.Laws.{NoFailure}
use jointprof.Maps.File.{File}
use jointprof.Maps.Platform.{Platform}
use jointprof.Maps.Init.{k_buf_size, self_file}
use jointprof.Maps.Stream.{lines}
use jointprof.Common.{
  ℕ, ◌-◌, ◌<◌, ◌≡◌, ◌∙◌, true, false, Option, none, some, ◌>>=◌, bind_some, List, ◌++◌, Bytes,
  length, ℤ, All,
}

module _ {Other : Type 0} (foreign : ℕ → SigAction × Other → SigAction × Other) (os : Platform)
    (path_max : ℕ) (own_pid : ℤ) (open_file : Bytes → File) where
  -- start and the signals; then stop, which reads the memory maps. `fuel` bounds the lines of the
  -- maps, and `iterbuf` is what the buffer of write_trailer holds before.
  unfoldable pub profile : ℕ → Bytes → ℕ → List Context → Process Other → Option (Process Other)
  profile fuel iterbuf this ctxs p = do
    maps ← trailer_maps os path_max own_pid open_file fuel iterbuf
    session foreign this maps ctxs p

  -- A whole profile ends without a fault and within the fuel, if the object can start, each signal
  -- finds the array of 66 words and at most 63 frames, the maps file opens, no read of it fails, its
  -- lines are shorter than the buffer, and the fuel is above their number. Its file holds the header,
  -- one sample for each signal in order, the trailer words, and the canonical lines of the entries of
  -- the process's own maps that fit into the line buffer, and is closed. The disposition of SIGPROF is the one the constructor found, and
  -- nothing runs any more.
  pub profile_lem :
      (fuel this : ℕ) (iterbuf : Bytes) (ctxs : List Context) (p : Process Other)
      → CanStart this p
      → All IsContext ctxs
      → let file = open_file (self_file os) in
        let size = k_buf_size os path_max in
        length iterbuf ≡ size
        → file.is_open ≡ true
        → NoFailure file.script
        → All (λ line. length line < size - 1) (lines file.unread)
        → length (lines file.unread) < fuel
        → (p' : Process Other) × (profile fuel iterbuf this ctxs p ≡ some p')
          × ((p'.impls this).ofs ≡ record {
            is_open = false;
            failed = false;
            contents =
                words_bytes header_words
                ++ (samples_bytes ctxs
                    ++ (words_bytes trailer_words
                        ++ entries_text size (entries os (lines file.unread))));
          })
          × (p'.action ≡ (p.impls this).initact)
          × (p'.static_impl ≡ none)
  unfolding profile
  profile_lem fuel this iterbuf ctxs p c cs size opened safe fits enough =
      let text =
        entries_text (k_buf_size os path_max)
          (entries os (lines (open_file (self_file os)).unread)) in
      let (p', e, file, action, idle, _) = session_lem foreign this text ctxs p c cs in
      (
        p',
        bind_some _ (
              trailer_maps-entries_text os path_max own_pid open_file fuel iterbuf size opened safe
                fits enough)
            ∙ e,
        file,
        action,
        idle,
      )
