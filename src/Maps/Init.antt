-- ===== src/Maps/Init.antt =====
-- src/sysinfo.cpp, the construction of a ProcMapsIterator on Linux, Cygwin and FreeBSD.
use jointprof.Clib.Printf.{write_signed}
use jointprof.Maps.File.{File}
use jointprof.Maps.Iterator.Next.{Ready}
use jointprof.Maps.Iterator.Shift.{Holds}
use jointprof.Maps.Iterator.{Iterator}
use jointprof.Maps.Memory.{store, c_string}
use jointprof.Maps.Memory.Laws.{c_string-append}
use jointprof.Maps.Stream.{lines}
use jointprof.Maps.File.Laws.{NoFailure}
use jointprof.Maps.Platform.{Platform, linux, cygwin, free_bsd}
use jointprof.Common.{
  ◌≤◌, ◌&&◌, Lacks, append_assoc, length-append, drop, ℕ, zero, suc, ◌+◌, ◌-◌, ◌<◌, ◌≡◌, refl, Bool,
  true, false, [], ◌∷◌, ◌++◌, sym, ap, ◌∙◌, subst, take_all, length-drop, arith, if◌then◌else◌,
  Bytes, codes, length, take, All, ℤ, pos, negsuc,
}

is_zero : ℤ → Bool
is_zero (pos zero) = true
is_zero (pos (suc n)) = false
is_zero (negsuc n) = false

-- Buffer::kBufSize
abbrev pub k_buf_size : Platform → ℕ → ℕ
k_buf_size linux path_max = path_max + 1024
k_buf_size cygwin path_max = path_max + 1024
k_buf_size free_bsd path_max = 102400

-- The maps of the process itself, and those of another one behind its number.
abbrev pub self_file : Platform → Bytes
self_file linux = codes "/proc/self/maps"
self_file cygwin = codes "/proc/self/maps"
self_file free_bsd = codes "/proc/curproc/map"

abbrev other_file : Platform → Bytes
other_file linux = codes "/maps"
other_file cygwin = codes "/maps"
other_file free_bsd = codes "/map"

-- "We don't support maps_backing on freebsd"
abbrev has_maps_backing : Platform → Bool
has_maps_backing linux = true
has_maps_backing cygwin = true
has_maps_backing free_bsd = false

self_file-short : (os : Platform) → length (self_file os) ≤ 17
self_file-short linux = omega arith
self_file-short cygwin = omega arith
self_file-short free_bsd = omega arith

self_file-Lacks : (os : Platform) → Lacks 0 (self_file os)
self_file-Lacks linux = omega arith
self_file-Lacks cygwin = omega arith
self_file-Lacks free_bsd = omega arith

pub k_buf_size_large : (os : Platform) (path_max : ℕ) → 1024 ≤ k_buf_size os path_max
k_buf_size_large linux path_max = omega arith
k_buf_size_large cygwin path_max = omega arith
k_buf_size_large free_bsd path_max = omega arith

-- PATH_MAX, `getpid()` and `open` belong to the system.
module _ (os : Platform) (path_max : ℕ) (own_pid : ℤ) (open_file : Bytes → File) where
  abbrev size : ℕ
  size = k_buf_size os path_max

  -- ConstructFilename with a `%d` between two pieces of text: the C string that snprintf leaves at
  -- the front of the buffer.
  construct_filename : Bytes → Bytes → ℤ → Bytes → Bytes
  unfolding is_zero
  construct_filename front back pid buf =
      let text = front ++ (write_signed (if is_zero pid then own_pid else pid) ++ back) in
      store buf 0 (take (size - 1) text ++ (0 ∷ []))

  -- The name that Init leaves in the buffer.
  name_file : Bytes → ℤ → Bool → Bytes
  unfolding is_zero construct_filename
  name_file buf pid use_maps_backing =
      if has_maps_backing os && use_maps_backing
      then construct_filename (codes "/proc/") (codes "/maps_backing") pid buf
      else if is_zero pid
      then store buf 0 (take (size - 1) (self_file os) ++ (0 ∷ []))
      else construct_filename (codes "/proc/") (other_file os) pid buf

  -- Init, on a buffer with any contents. (A buffer that the caller does not pass is allocated.)
  unfoldable pub init : Bytes → ℤ → Bool → Iterator
  unfolding name_file
  init buf pid use_maps_backing =
      let named = name_file buf pid use_maps_backing in
      record {
        ibuf = named;
        stext = 0;
        etext = 0;
        nextline = 0;
        ebuf = size - 1;
        fd = open_file (c_string named 0);
        flags = [];
        using_maps_backing = use_maps_backing;
      }

  own_name : (buf : Bytes) → name_file buf (pos 0) false ≡ store buf 0 (self_file os ++ (0 ∷ []))
  unfolding name_file
  own_name buf =
      let fits =
        take_all (size - 1) (self_file os)
          (omega (arith, self_file-short os, k_buf_size_large os path_max)) in
      go (has_maps_backing os) fits
    where
      go :
          (b : Bool)
          → take (size - 1) (self_file os) ≡ self_file os
          → (if b && false
              then construct_filename (codes "/proc/") (codes "/maps_backing") (pos 0) buf
              else store buf 0 (take (size - 1) (self_file os) ++ (0 ∷ [])))
            ≡ store buf 0 (self_file os ++ (0 ∷ []))
      go true fits = rw fits
      go false fits = rw fits

  -- The file name of "self", left in a buffer that has room for it.
  self_name : (buf : Bytes) → c_string (name_file buf (pos 0) false) 0 ≡ self_file os
  unfolding store
  self_name buf =
      ap (λ t. c_string t 0) (own_name buf ∙ append_assoc (self_file os) (0 ∷ []) _)
      ∙ c_string-append [] (self_file os) _ (self_file-Lacks os)

  length-name_file : (buf : Bytes) → length buf ≡ size → length (name_file buf (pos 0) false) ≡ size
  unfolding store
  length-name_file buf e =
      ap length (own_name buf)
      ∙ omega (
        arith,
        e,
        self_file-short os,
        k_buf_size_large os path_max,
        length-append (self_file os ++ (0 ∷ [])) (drop (0 + length (self_file os ++ (0 ∷ []))) buf),
        length-append (self_file os) (0 ∷ []),
        length-drop (0 + length (self_file os ++ (0 ∷ []))) buf,
      )

  -- A new iterator over the maps of the process itself has nothing in its buffer, whatever the file.
  pub init-Holds : (buf : Bytes) → length buf ≡ size → Holds (init buf (pos 0) false) []
  unfolding init
  init-Holds buf full = record {
    before = [];
    after = name_file buf (pos 0) false;
    buffer = refl;
    line_at = refl;
    end_at = refl;
    size = length-name_file buf full ∙ omega (arith, k_buf_size_large os path_max);
    within = omega (arith, k_buf_size_large os path_max);
  }

  -- It reads the file of that name.
  pub init_fd : (buf : Bytes) → (init buf (pos 0) false).fd ≡ open_file (self_file os)
  unfolding init
  init_fd buf = ap open_file (self_name buf)

  -- A new iterator over the maps of the process itself, on a buffer with anything in it, stands in
  -- front of the whole file (/proc/self/maps, and /proc/curproc/map on FreeBSD), ready to be read, if that file opens, its reads do not
  -- fail, and its lines are shorter than the buffer.
  pub init-Ready :
      (buf : Bytes)
      → let file = open_file (self_file os) in
        length buf ≡ size
        → file.is_open ≡ true
        → NoFailure file.script
        → All (λ line. length line < size - 1) (lines file.unread)
        → Ready (size - 1) (init buf (pos 0) false) []
          × ((init buf (pos 0) false).fd.unread ≡ file.unread)
  unfolding init
  init-Ready buf full opened safe fits =
      let same = init_fd buf in
      let fits_all = λ (g : File). All (λ line. length line < size - 1) (lines g.unread) in
      (
        record {
          holds = init-Holds buf full;
          mode = refl;
          opened = ap (λ (g : File). g.is_open) same ∙ opened;
          safe = subst (λ (g : File). NoFailure g.script) (sym same) safe;
          same_ebuf = refl;
          fits = subst fits_all (sym same) fits;
        },
        ap (λ (g : File). g.unread) same,
      )
