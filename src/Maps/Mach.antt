-- ===== src/Maps/Mach.antt =====
-- src/sysinfo.cpp, ProcMapsIterator on Mach: NextExtMachHelper and the two loops of NextExt over the
-- images and their load commands.
pub mod Laws
pub mod Listed
mod Examples
use jointprof.Maps.Backing.{Pages}
use jointprof.Maps.Iterator.{Entry}
use jointprof.Common.{
  ℕ, zero, suc, ◌+◌, ◌%◌, ◌^◌, not, List, [], ◌∷◌, Option, none, some, ◌==◌, if◌then◌else◌, Bytes,
  codes, ℤ, pos, negsuc, to_int,
}

-- A load command, with the fields that it has if it is a segment command of either size.
pub record LoadCommand : Type 0 where
  pub cmd : ℕ
  pub cmdsize : ℕ
  pub vmaddr : ℕ
  pub vmsize : ℕ
  pub fileoff : ℕ

-- A Mach header, and the address at which it stands.
pub record MachHeader : Type 0 where
  pub magic : ℕ
  pub ncmds : ℕ
  pub address : ℕ

-- What dyld says of the images: their number, and for each its header (`none` for NULL), its slide as
-- the bits of an intptr_t, and its name. `command_at` is what memory holds at an address, read as a load command.
pub record Dyld : Type 0 where
  pub image_count : ℕ
  pub image_header : ℕ → Option MachHeader
  pub vmaddr_slide : ℕ → ℕ
  pub image_name : ℕ → Bytes
  pub command_at : ℕ → LoadCommand

abbrev pub mh_magic_64 : ℕ
mh_magic_64 = 4277009103

abbrev pub lc_segment_64 : ℕ
lc_segment_64 = 25

abbrev pub mh_magic : ℕ
mh_magic = 4277009102

abbrev pub lc_segment : ℕ
lc_segment = 1

-- sizeof(mach_header_64) and sizeof(mach_header)
abbrev pub mach_header_64_size : ℕ
mach_header_64_size = 32

abbrev pub mach_header_size : ℕ
mach_header_size = 28

-- The fields of ProcMapsIterator that count down.
pub record MachIterator : Type 0 where
  pub current_image : ℤ
  pub current_load_cmd : ℤ

-- Init: "count down from the top".
abbrev pub init_mach : Dyld → MachIterator
init_mach dyld = record { current_image = pos dyld.image_count; current_load_cmd = negsuc 0 }

-- What the helper hands out of a segment command, whose fields have `width` bits.
unfoldable pub segment_entry : ℕ → Dyld → ℕ → LoadCommand → Entry
segment_entry width dyld image sc = record {
  start = (sc.vmaddr + dyld.vmaddr_slide image) % 2 ^ 64;
  end = ((sc.vmaddr + sc.vmsize) % 2 ^ width + dyld.vmaddr_slide image) % 2 ^ 64;
  flags = codes "r-xp";
  offset = sc.fileoff;
  inode = pos 0;
  filename = dyld.image_name image;
  dev = 0;
  pages = record {
    file_mapping = some 0;
    file_pages = some 0;
    anon_mapping = some 0;
    anon_pages = some 0;
  };
}

-- The loop `for (int j = 0; j < current_load_cmd; j++)`, with `left` rounds to go, on the address `lc`.
unfoldable pub walk_commands : Dyld → ℕ → ℕ → ℕ
walk_commands dyld lc zero = lc
walk_commands dyld lc (suc left) = walk_commands dyld (lc + (dyld.command_at lc).cmdsize) left

-- NextExtMachHelper<magic, segment>, with headers of `header_size` bytes and segment commands of `width`
-- bits; `none` for false.
unfoldable pub next_ext_mach_helper : ℕ → ℕ → ℕ → ℕ → Dyld → MachHeader → ℕ → ℕ → Option Entry
next_ext_mach_helper width header_size magic segment dyld hdr image load_cmd =
    let lc = dyld.command_at (walk_commands dyld (hdr.address + header_size) load_cmd) in
    if not (hdr.magic == magic)
    then none
    else if lc.cmd == segment
    then some (segment_entry width dyld image lc)
    else none

-- The body of the inner loop: first the helper for 64 bits, then the one for 32.
unfoldable pub try_load_command : Dyld → MachHeader → ℕ → ℕ → Option Entry
try_load_command dyld hdr image load_cmd =
    let other =
      next_ext_mach_helper 32 mach_header_size mh_magic lc_segment dyld hdr image load_cmd in
    elim (next_ext_mach_helper 64 mach_header_64_size mh_magic_64 lc_segment_64 dyld hdr image
      load_cmd) [ none ↦ other | some e ↦ some e ]

-- The loop `for (current_load_cmd_--; current_load_cmd_ >= 0; current_load_cmd_--)`, from
-- current_load_cmd_ on: the entry, and the load command at which it stopped.
unfoldable pub scan_load_commands : Dyld → MachHeader → ℕ → ℕ → Option (Entry × ℕ)
scan_load_commands dyld hdr image zero = none
scan_load_commands dyld hdr image (suc load_cmd) =
    let rest = scan_load_commands dyld hdr image load_cmd in
    elim (try_load_command dyld hdr image load_cmd) [ none ↦ rest | some e ↦ some (e, load_cmd) ]

-- `if (current_load_cmd_ < 0) current_load_cmd_ = hdr->ncmds;`
unfoldable pub top_load_command : MachHeader → ℤ → ℤ
top_load_command hdr (pos n) = pos n
top_load_command hdr (negsuc n) = to_int (pos hdr.ncmds)

-- The inner loop on an `int`: below zero it has no round.
unfoldable pub scan_from : Dyld → MachHeader → ℕ → ℤ → Option (Entry × ℕ)
scan_from dyld hdr image (pos n) = scan_load_commands dyld hdr image n
scan_from dyld hdr image (negsuc n) = none

-- current_load_cmd_ when the inner loop has run out.
unfoldable pub after_scan : ℤ → ℤ
after_scan (pos n) = negsuc 0
after_scan (negsuc n) = negsuc (suc n)

-- What NextExt returns: true with an entry, or false.
pub data MachOutcome : Type 0 where
  segment : Entry → MachIterator → MachOutcome
  no_segment : MachIterator → MachOutcome

-- One round of the outer loop, where `go_on` is the rest of the loop.
unfoldable pub visit_image : Dyld → ℕ → ℤ → (ℤ → MachOutcome) → MachOutcome
visit_image dyld image load_cmd go_on = elim (dyld.image_header image) [
  | none ↦ go_on load_cmd
  | some hdr ↦
      let top = top_load_command hdr load_cmd in
      elim (scan_from dyld hdr image top) [
        | none ↦ go_on (after_scan top)
        | some (e, stopped) ↦
            segment e (record { current_image = pos image; current_load_cmd = pos stopped })
      ]
]

-- The loop `for (; current_image_ >= 0; current_image_--)`.
unfoldable pub visit_images : Dyld → ℕ → ℤ → MachOutcome
visit_images dyld zero load_cmd =
    visit_image dyld 0 load_cmd
      (λ left. no_segment (record { current_image = negsuc 0; current_load_cmd = left }))
visit_images dyld (suc image) load_cmd =
    visit_image dyld (suc image) load_cmd (visit_images dyld image)

-- NextExt on Mach.
unfoldable pub next_ext_mach : Dyld → MachIterator → MachOutcome
next_ext_mach dyld it = elim it.current_image [
  | negsuc n ↦ no_segment it
  | pos image ↦ visit_images dyld image it.current_load_cmd
]

-- A caller's loop `while (it.Next(…))`, for at most `fuel` rounds.
unfoldable pub list_mach : ℕ → Dyld → MachIterator → Option (List Entry)
list_mach zero dyld it = none
list_mach (suc fuel) dyld it = elim (next_ext_mach dyld it) [
  | no_segment it' ↦ some []
  | segment e it' ↦ elim (list_mach fuel dyld it') [ none ↦ none | some es ↦ some (e ∷ es) ]
]
