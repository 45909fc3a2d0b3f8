-- ===== src/Maps/Solaris/Laws.antt =====
-- src/sysinfo.cpp, the listing on Solaris against the structures of the file.
use Prim.Native.Nat.{bit_and}
use jointprof.Maps.File.{File, read_script, read_no_intr}
use jointprof.Maps.Iterator.{Entry}
use jointprof.Maps.Solaris.{
  Prmap, SolarisIterator, overrun, link_text, take_prmap, after_prmap, next_ext_solaris,
  object_path, inode_from_mapname,
}
use jointprof.Common.{
  ℕ, ◌+◌, ◌≤◌, ◌<◌, ◌≡◌, refl, ap, sym, ◌∙◌, true, false, Option, some, List, [], ◌∷◌, ◌++◌, length,
  ◌==◌, ==-refl, ltb, map, arith, Bytes, take, drop, take_append, drop_append, ℤ, length-take, none,
  ◌⊎◌, ◌%◌, ◌^◌, if◌then◌else◌,
}

-- The file of some structures, each as the system lays it out.
abbrev pub encoded : (Prmap → Bytes) → List Prmap → Bytes
encoded encode [] = []
encoded encode (m ∷ maps) = encode m ++ encoded encode maps

-- The letters of the low three bits: 4 reads, 2 writes and 1 executes.
abbrev pub permission_letters : ℕ → Bytes
permission_letters bits =
    if ltb bits 8
    then (if ltb 3 bits then b'r' else b'-')
      ∷ (if ltb 1 (bits % 4) then b'w' else b'-')
      ∷ (if bits % 2 == 1 then b'x' else b'-')
      ∷ []
    else []

-- What the caller gets for a structure whose link has that path.
abbrev pub mapped_entry : Prmap → Bytes → Entry
mapped_entry m path = record {
  start = m.vaddr;
  end = (m.vaddr + m.size) % 2 ^ 64;
  flags = permission_letters (bit_and m.mflags 7);
  offset = m.offset;
  inode = inode_from_mapname m.mapname;
  filename = path;
  dev = 0;
  pages = record {
    file_mapping = some 0;
    file_pages = some 0;
    anon_mapping = some 0;
    anon_pages = some 0;
  };
}

abbrev pub mapped_entries : List (Prmap × Bytes) → List Entry
mapped_entries = map (λ m. mapped_entry m.0 m.1)

module _ (path_max prmap_size : ℕ) (decode : Bytes → Prmap) (readlink : Bytes → Option Bytes)
    (encode : Prmap → Bytes) where
  -- The layout of a structure can be read back, and has the size that is read.
  abbrev pub IsLaid : Prmap → Type 0
  IsLaid m = (decode (encode m) ≡ m) × (length (encode m) ≡ prmap_size)

  -- The iterator in front of some structures, on a file whose reads give all that is asked for.
  abbrev pub before_maps : ℤ → Bytes → List Prmap → SolarisIterator
  before_maps pid name maps = record {
    fd = record { is_open = true; unread = encoded encode maps; script = [] };
    pid = pid;
    current_filename = name;
  }

  -- A mapping whose link has that path, which is short enough; or no link, and no path.
  abbrev pub IsLinked : ℤ → Prmap × Bytes → Type 0
  IsLinked pid (m, path) =
      IsLaid m
      × ((readlink (object_path (path_max + 1024) pid m.mapname) ≡ some path)
          ⊎ ((readlink (object_path (path_max + 1024) pid m.mapname) ≡ none) × (path ≡ [])))
      × (length path < path_max)

  -- The next structure is read whole.
  next_take :
      (pid : ℤ) (name : Bytes) (m : Prmap) (maps : List Prmap)
      → IsLaid m
      → next_ext_solaris path_max prmap_size decode readlink (before_maps pid name (m ∷ maps))
        ≡ take_prmap path_max prmap_size decode readlink (before_maps pid name maps) m
  unfolding next_ext_solaris read_no_intr read_script after_prmap
  next_take pid name m maps (decoded, sized) =
      let rest = encoded encode maps in
      let front : take prmap_size (encode m ++ rest) ≡ encode m =
        ap (λ k. take k (encode m ++ rest)) (sym sized) ∙ take_append (encode m) rest in
      let back : drop prmap_size (encode m ++ rest) ≡ rest =
        ap (λ k. drop k (encode m ++ rest)) (sym sized) ∙ drop_append (encode m) rest in
      let whole : (length (encode m) == prmap_size) ≡ true =
        ap (λ k. k == prmap_size) sized ∙ ==-refl prmap_size in
      rw (front, back) (rw (whole, decoded) refl)

  -- On Solaris, where the link of a mapping has a path of PATH_MAX bytes or more, Next writes the NUL
  -- of that path behind current_filename_.
  pub next_ext_solaris-overrun :
      (pid : ℤ) (before path : Bytes) (m : Prmap) (maps : List Prmap)
      → IsLaid m
      → readlink (object_path (path_max + 1024) pid m.mapname) ≡ some path
      → path_max ≤ length path
      → next_ext_solaris path_max prmap_size decode readlink (before_maps pid before (m ∷ maps))
        ≡ overrun
  unfolding take_prmap link_text
  next_ext_solaris-overrun pid before path m maps laid found long =
      let full : ltb (length (take path_max path)) path_max ≡ false =
        ground (arith, length-take path_max path) in
      next_take pid before m maps laid ∙ rw (found, link_text) (rw full refl)
