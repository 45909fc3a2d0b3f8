-- ===== src/Maps/Solaris.antt =====
-- src/sysinfo.cpp, ProcMapsIterator on Solaris, where the maps are a file of prmap_t structures.
mod Laws
mod Examples
use Prim.Native.Nat.{bit_and}
use jointprof.Clib.Printf.{write_signed}
use jointprof.Clib.Scanf.{Directive, literal, store, skip, decimal, Value, number, text, sscanf}
use jointprof.Clib.Strto.{clamp_signed}
use jointprof.Maps.Backing.{Pages}
use jointprof.Maps.File.{File, read_no_intr}
use jointprof.Maps.Iterator.{Entry}
use jointprof.Common.{
  ℕ, zero, suc, ◌+◌, ◌-◌, ◌%◌, ◌^◌, Option, none, some, List, [], ◌∷◌, ◌++◌, ltb, ◌==◌,
  if◌then◌else◌, Bytes, codes, length, get_or, take, ℤ, pos, negsuc,
}

-- The fields of prmap_t that are used.
pub record Prmap : Type 0 where
  pub vaddr : ℕ
  pub size : ℕ
  pub mapname : Bytes
  pub offset : ℕ
  pub mflags : ℕ

-- The fields of ProcMapsIterator that Next uses.
pub record SolarisIterator : Type 0 where
  pub fd : File
  pub pid : ℤ
  pub current_filename : Bytes

-- kPerms
abbrev pub k_perms : List Bytes
k_perms =
    codes "---"
    ∷ codes "--x"
    ∷ codes "-w-"
    ∷ codes "-wx"
    ∷ codes "r--"
    ∷ codes "r-x"
    ∷ codes "rw-"
    ∷ codes "rwx"
    ∷ []

-- "ufs.%*d.%*d.%ld"
abbrev ufs_format : List Directive
ufs_format =
    literal b'u'
    ∷ literal b'f'
    ∷ literal b's'
    ∷ literal b'.'
    ∷ skip decimal
    ∷ literal b'.'
    ∷ skip decimal
    ∷ literal b'.'
    ∷ store decimal
    ∷ []

-- inode_from_mapname, which is 0 before the sscanf.
stored_inode : List Value → ℤ
stored_inode (number minus n ∷ values) = clamp_signed minus n
stored_inode (text s ∷ values) = pos 0
stored_inode [] = pos 0

unfoldable pub inode_from_mapname : Bytes → ℤ
unfolding stored_inode
inode_from_mapname mapname = stored_inode (sscanf mapname ufs_format).0

-- "/proc/self/path/%s", or "/proc/%d/path/%s" for a process that is not "self"; cut off at the buffer.
unfoldable pub object_path : ℕ → ℤ → Bytes → Bytes
object_path size (pos zero) mapname = take (size - 1) (codes "/proc/self/path/" ++ mapname)
object_path size pid mapname =
    take (size - 1) (codes "/proc/" ++ (write_signed pid ++ (codes "/path/" ++ mapname)))

-- ConstructFilename with "/proc/self/map", or with "/proc/%d/map" for a process that is not "self"; cut off
-- at the buffer.
unfoldable pub solaris_file : ℕ → ℤ → Bytes
solaris_file size (pos zero) = take (size - 1) (codes "/proc/self/map")
solaris_file size pid = take (size - 1) (codes "/proc/" ++ (write_signed pid ++ codes "/map"))

-- Init on Solaris; `name` is what current_filename_ holds before.
unfoldable pub init_solaris : ℕ → (Bytes → File) → Bytes → ℤ → SolarisIterator
init_solaris path_max open_file name pid = record {
  fd = open_file (solaris_file (path_max + 1024) pid);
  pid = pid;
  current_filename = name;
}

-- What is handed out.
unfoldable pub prmap_entry : Prmap → Bytes → Entry
prmap_entry map filename = record {
  start = map.vaddr;
  end = (map.vaddr + map.size) % 2 ^ 64;
  flags = get_or k_perms (bit_and map.mflags 7) [];
  offset = map.offset;
  inode = inode_from_mapname map.mapname;
  filename = filename;
  dev = 0;
  pages = record {
    file_mapping = some 0;
    file_pages = some 0;
    anon_mapping = some 0;
    anon_pages = some 0;
  };
}

-- What a call of Next returns. A fault is the write of `current_filename_[len] = '\0'` behind the array.
pub data SolarisOutcome : Type 0 where
  mapping : Entry → SolarisIterator → SolarisOutcome
  no_mapping : SolarisIterator → SolarisOutcome
  overrun : SolarisOutcome

-- PATH_MAX, the size and the layout of prmap_t, and readlink belong to the system; `readlink` gives
-- `none` for -1.
module _ (path_max prmap_size : ℕ) (decode : Bytes → Prmap) (readlink : Bytes → Option Bytes) where
  -- `len = readlink(…, PATH_MAX)`, and 0 if that fails: the bytes that it stores.
  unfoldable pub link_text : ℤ → Bytes → Bytes
  link_text pid mapname = elim (readlink (object_path (path_max + 1024) pid mapname)) [
    | none ↦ []
    | some name ↦ take path_max name
  ]

  -- From a whole structure on.
  unfoldable pub take_prmap : SolarisIterator → Prmap → SolarisOutcome
  take_prmap it map =
      let name = link_text it.pid map.mapname in
      if ltb (length name) path_max
      then mapping (prmap_entry map name) (record it { current_filename = name })
      else overrun

  -- `if (nread == sizeof(prmap_t))`
  unfoldable pub after_prmap : SolarisIterator → Option Bytes → SolarisOutcome
  after_prmap it none = no_mapping it
  after_prmap it (some bytes) =
      if length bytes == prmap_size then take_prmap it (decode bytes) else no_mapping it

  -- NextExt on Solaris.
  unfoldable pub next_ext_solaris : SolarisIterator → SolarisOutcome
  next_ext_solaris it =
      let (bytes, fd) = read_no_intr it.fd prmap_size in after_prmap (record it { fd = fd }) bytes

  -- A caller's loop `while (it.Next(…))`, for at most `fuel` rounds.
  unfoldable pub list_solaris : ℕ → SolarisIterator → Option (List Entry)
  list_solaris zero it = none
  list_solaris (suc fuel) it = elim (next_ext_solaris it) [
    | no_mapping it' ↦ some []
    | overrun ↦ none
    | mapping e it' ↦ elim (list_solaris fuel it') [ none ↦ none | some es ↦ some (e ∷ es) ]
  ]
