-- ===== src/Maps/Mach/Listed.antt =====
-- src/sysinfo.cpp, the listing on Mach against the load commands of the images, as they are laid out
-- behind each header.
use jointprof.Maps.Iterator.{Entry}
use jointprof.Maps.Mach.Laws.{
  is_segment, our_command, segments, segments_from, segments_below, list_mach_below,
}
use jointprof.Maps.Mach.{
  LoadCommand, MachHeader, Dyld, mh_magic_64, mh_magic, walk_commands, segment_entry, init_mach,
  list_mach,
}
use jointprof.Common.{
  ℕ, zero, suc, ◌+◌, ◌%◌, ◌^◌, ◌<◌, ◌≤◌, ◌≡◌, refl, sym, ap, ◌∙◌, subst, Bool, true, false, ◌&&◌,
  ◌||◌, Bool-cases, inl, inr, Option, none, some, List, [], ◌∷◌, ◌++◌, append-nil, append_assoc,
  length, take, take_all, get_or, ◌==◌, if◌then◌else◌, codes, ltb, pos, to_int, arith,
}

-- Load commands that stand one behind another from an address on, each as long as its cmdsize.
abbrev pub IsPlaced : Dyld → ℕ → List LoadCommand → Type 0
IsPlaced dyld at [] = Unit
IsPlaced dyld at (lc ∷ lcs) = (dyld.command_at at ≡ lc) × IsPlaced dyld (at + lc.cmdsize) lcs

-- An image whose load commands stand behind its header, of 32 bytes for 64 bits and of 28 for 32.
abbrev pub IsImage : Dyld → MachHeader → List LoadCommand → Type 0
IsImage dyld hdr lcs =
    IsPlaced dyld (hdr.address + (if hdr.magic == mh_magic_64 then 32 else 28)) lcs
    × (length lcs ≡ hdr.ncmds)
    × (hdr.ncmds < 2 ^ 31)

-- What the caller gets for a segment of an image.
abbrev pub loaded_segment : Dyld → MachHeader → ℕ → LoadCommand → Entry
loaded_segment dyld hdr image sc =
    let width = if hdr.magic == mh_magic_64 then 64 else 32 in
    record {
      start = (sc.vmaddr + dyld.vmaddr_slide image) % 2 ^ 64;
      end = ((sc.vmaddr + sc.vmsize) % 2 ^ width + dyld.vmaddr_slide image) % 2 ^ 64;
      flags = codes "r-xp";
      offset = sc.fileoff;
      inode = pos 0;
      filename = dyld.image_name image;
      dev = 0;
      pages = record {
        file_mapping = some 0;
        file_pages = some 0;
        anon_mapping = some 0;
        anon_pages = some 0;
      };
    }

-- The entry of a load command, if it is a segment of the format of its image.
abbrev pub listed_one : Dyld → MachHeader → ℕ → LoadCommand → List Entry
listed_one dyld hdr image lc =
    if (hdr.magic == mh_magic_64 && lc.cmd == 25) || (hdr.magic == mh_magic && lc.cmd == 1)
    then loaded_segment dyld hdr image lc ∷ []
    else []

-- Those of all load commands, the last one first.
abbrev pub listed : Dyld → MachHeader → ℕ → List LoadCommand → List Entry
listed dyld hdr image [] = []
listed dyld hdr image (lc ∷ lcs) = listed dyld hdr image lcs ++ listed_one dyld hdr image lc

-- Those of the first `n` images, the last one first.
abbrev pub listed_below : Dyld → (ℕ → List LoadCommand) → ℕ → List Entry
listed_below dyld commands zero = []
listed_below dyld commands (suc image) =
    let rest = listed_below dyld commands image in
    elim (dyld.image_header image) [
      | none ↦ rest
      | some hdr ↦ listed dyld hdr image (commands image) ++ rest
    ]

abbrev no_command : LoadCommand
no_command = record { cmd = 0; cmdsize = 0; vmaddr = 0; vmsize = 0; fileoff = 0 }

-- The walk comes to the load command behind `n` others.
walk_commands-get_or :
    (dyld : Dyld) (at n : ℕ) (lcs : List LoadCommand)
    → IsPlaced dyld at lcs
    → n < length lcs
    → dyld.command_at (walk_commands dyld at n) ≡ get_or lcs n no_command
unfolding walk_commands
walk_commands-get_or dyld at n [] placed h = absurd (omega arith)
walk_commands-get_or dyld at zero (lc ∷ lcs) (first, placed) h = first
walk_commands-get_or dyld at (suc n) (lc ∷ lcs) (first, placed) h =
    ap (λ (x : LoadCommand). dyld.command_at (walk_commands dyld (at + x.cmdsize) n)) first
    ∙ walk_commands-get_or dyld (at + lc.cmdsize) n lcs placed (omega arith)

-- A further load command comes first.
listed-take :
    (dyld : Dyld) (hdr : MachHeader) (image n : ℕ) (lcs : List LoadCommand)
    → n < length lcs
    → listed dyld hdr image (take (suc n) lcs)
      ≡ listed_one dyld hdr image (get_or lcs n no_command) ++ listed dyld hdr image (take n lcs)
listed-take dyld hdr image n [] h = absurd (omega arith)
listed-take dyld hdr image zero (lc ∷ lcs) h = sym (append-nil (listed_one dyld hdr image lc))
listed-take dyld hdr image (suc n) (lc ∷ lcs) h =
    ap (λ t. t ++ listed_one dyld hdr image lc) (listed-take dyld hdr image n lcs (omega arith))
    ∙ append_assoc (listed_one dyld hdr image (get_or lcs n no_command))
        (listed dyld hdr image (take n lcs)) (listed_one dyld hdr image lc)

module _ (dyld : Dyld) (hdr : MachHeader) (image : ℕ) (lcs : List LoadCommand)
    (laid : IsImage dyld hdr lcs) where
  our_command-get_or : (n : ℕ) → n < length lcs → our_command dyld hdr n ≡ get_or lcs n no_command
  unfolding our_command
  our_command-get_or n h = elim (Bool-cases (hdr.magic == mh_magic_64)) [
    | inl wide ↦
        let there : IsPlaced dyld (hdr.address + 32) lcs =
          subst (λ b. IsPlaced dyld (hdr.address + (if b then 32 else 28)) lcs) wide laid.0 in
        rw wide (walk_commands-get_or dyld (hdr.address + 32) n lcs there h)
    | inr narrow ↦
        let there : IsPlaced dyld (hdr.address + 28) lcs =
          subst (λ b. IsPlaced dyld (hdr.address + (if b then 32 else 28)) lcs) narrow laid.0 in
        rw narrow (walk_commands-get_or dyld (hdr.address + 28) n lcs there h)
  ]

  one_more :
      (b : Bool) (e : Entry) (rest : List Entry)
      → (if b then e ∷ rest else rest) ≡ (if b then e ∷ [] else []) ++ rest
  one_more true e rest = refl
  one_more false e rest = refl

  segments-listed :
      (n : ℕ) → n ≤ length lcs → segments dyld hdr image n ≡ listed dyld hdr image (take n lcs)
  unfolding segments is_segment segment_entry
  segments-listed zero h = refl
  segments-listed (suc n) h =
      one_more (is_segment hdr (our_command dyld hdr n))
        (loaded_segment dyld hdr image (our_command dyld hdr n)) (segments dyld hdr image n)
      ∙ ap (λ lc. listed_one dyld hdr image lc ++ segments dyld hdr image n)
          (our_command-get_or n (omega arith))
      ∙ ap (λ t. listed_one dyld hdr image (get_or lcs n no_command) ++ t)
          (segments-listed n (omega arith))
      ∙ sym (listed-take dyld hdr image n lcs (omega arith))

  segments_from-listed :
      segments_from dyld hdr image (to_int (pos hdr.ncmds)) ≡ listed dyld hdr image lcs
  unfolding segments_from
  segments_from-listed =
      let small : hdr.ncmds % 2 ^ 32 ≡ hdr.ncmds = omega (arith, laid.2) in
      let positive : ltb hdr.ncmds (2 ^ 31) ≡ true = ground (arith, laid.2) in
      let same : to_int (pos hdr.ncmds) ≡ pos hdr.ncmds = rw small (rw positive refl) in
      ap (segments_from dyld hdr image) same
      ∙ segments-listed hdr.ncmds (omega (arith, laid.1))
      ∙ ap (listed dyld hdr image) (take_all hdr.ncmds lcs (omega (arith, laid.1)))

segments_below-listed_below :
    (dyld : Dyld) (commands : ℕ → List LoadCommand)
    → ((image : ℕ) (hdr : MachHeader)
        → dyld.image_header image ≡ some hdr
        → IsImage dyld hdr (commands image))
    → (n : ℕ) → segments_below dyld n ≡ listed_below dyld commands n
unfolding segments_below
segments_below-listed_below dyld commands laid zero = refl
segments_below-listed_below dyld commands laid (suc image) =
    go (dyld.image_header image) (laid image) (segments_below-listed_below dyld commands laid image)
  where
    go :
        (h : Option MachHeader)
        → ((hdr : MachHeader) → h ≡ some hdr → IsImage dyld hdr (commands image))
        → segments_below dyld image ≡ listed_below dyld commands image
        → elim h [
          | none ↦ segments_below dyld image
          | some hdr ↦
              segments_from dyld hdr image (to_int (pos hdr.ncmds)) ++ segments_below dyld image
        ]
          ≡ elim h [
            | none ↦ listed_below dyld commands image
            | some hdr ↦ listed dyld hdr image (commands image) ++ listed_below dyld commands image
          ]
    go none placed ih = ih
    go (some hdr) placed ih =
        ap (λ t. t ++ segments_below dyld image)
          (segments_from-listed dyld hdr image (commands image) (placed hdr refl))
        ∙ ap (λ t. listed dyld hdr image (commands image) ++ t) ih

-- On Mach, the calls of Next from a new iterator on list the segments of all images that dyld knows,
-- image by image from the last, and in each image from the last load command to the first; then Next
-- returns false, and the loop ends within any fuel above the number of segments. A segment is a load
-- command whose number is that of the segments of the image's format; it is listed from its address, moved
-- by the image's slide, over its size. The load commands of each image stand one behind another behind
-- its header, as many as ncmds says, which is below 2^31.
pub list_mach-listed_below :
    (fuel : ℕ) (dyld : Dyld) (commands : ℕ → List LoadCommand)
    → ((image : ℕ) (hdr : MachHeader)
        → dyld.image_header image ≡ some hdr
        → IsImage dyld hdr (commands image))
    → length (listed_below dyld commands (suc dyld.image_count)) < fuel
    → list_mach fuel dyld (init_mach dyld)
      ≡ some (listed_below dyld commands (suc dyld.image_count))
list_mach-listed_below fuel dyld commands laid enough =
    let same = segments_below-listed_below dyld commands laid (suc dyld.image_count) in
    list_mach_below fuel dyld (omega (arith, ap length same)) ∙ ap some same
