-- ===== src/Profiler/Readback.antt =====
-- src/profiler.cpp, a whole profile on Linux, and what a reader finds in its file.
mod Examples
use jointprof.Maps.Entries.{entries}
use jointprof.Maps.File.{File}
use jointprof.Maps.File.Laws.{NoFailure}
use jointprof.Maps.Init.{k_buf_size, self_file}
use jointprof.Maps.Platform.{linux}
use jointprof.Maps.Stream.{lines}
use jointprof.Profiler.Defs.{SigAction, Process, Context}
use jointprof.Profiler.Profile.{read_profile}
use jointprof.Profiler.Profile.RoundTrip.{HasWords, session_samples, read_profile-contents}
use jointprof.Profiler.Session.{IsContext, CanStart}
use jointprof.Profiler.Trailer.{entry_line, entries_text}
use jointprof.Profiler.Trailer.Listing.{kept, entries-entries_text}
use jointprof.Profiler.Trailer.Mappings.{lines-Lacks_each, entries-IsMapping}
use jointprof.Profiler.Whole.{profile, profile_lem}
use jointprof.Common.{ℕ, ◌-◌, ◌<◌, ◌≡◌, ap, ◌∙◌, true, some, List, map, Bytes, length, ℤ, All}

module _ {Other : Type 0} (foreign : ℕ → SigAction × Other → SigAction × Other) (path_max : ℕ)
    (own_pid : ℤ) (open_file : Bytes → File) where
  -- On Linux, a reader of the file of a whole profile finds the sampling period 20000, one sample for each
  -- signal in order, with its stack, and a text of maps; and a reader of that text finds every mapping of
  -- the process in order, with the permissions of its flags and the device zero. The object can start; each
  -- signal finds the array of 66 words and at most 63 frames, and its program counter and frames
  -- are 64-bit words; the maps file opens, no read of it fails, its lines are shorter than the buffer, and the fuel
  -- is above their number; and the line that FormatLine makes of each mapping is shorter than the line
  -- buffer.
  pub read_profile-profile :
      (fuel this : ℕ) (iterbuf : Bytes) (ctxs : List Context) (p : Process Other)
      → CanStart this p
      → All IsContext ctxs
      → All HasWords ctxs
      → let file = open_file (self_file linux) in
        let size = k_buf_size linux path_max in
        length iterbuf ≡ size
        → file.is_open ≡ true
        → NoFailure file.script
        → All (λ line. length line < size - 1) (lines file.unread)
        → All (λ e. length (entry_line e) < size) (entries linux (lines file.unread))
        → length (lines file.unread) < fuel
        → (p' : Process Other) × (maps : Bytes) × (profile foreign linux path_max own_pid open_file
              fuel iterbuf this ctxs p
            ≡ some p')
          × (read_profile (p'.impls this).ofs.contents
              ≡ some (record { period = 20000; samples = session_samples ctxs; maps = maps }))
          × (entries linux (lines maps) ≡ map kept (entries linux (lines file.unread)))
  read_profile-profile fuel this iterbuf ctxs p c cs ws size opened safe fits good enough =
      let all = entries linux (lines (open_file (self_file linux)).unread) in
      let maps = entries_text (k_buf_size linux path_max) all in
      let (p', e, file, action, idle) =
        profile_lem foreign linux path_max own_pid open_file fuel this iterbuf ctxs p c cs size
          opened safe fits enough in
      (
        p',
        maps,
        e,
        ap (λ s. read_profile s.contents) file ∙ read_profile-contents ctxs maps cs ws,
        entries-entries_text (k_buf_size linux path_max) all (
            entries-IsMapping (k_buf_size linux path_max)
              (lines (open_file (self_file linux)).unread)
              (lines-Lacks_each (open_file (self_file linux)).unread) good),
      )
