-- ===== src/Maps/Mach/Examples.antt =====
-- The theorem on the listing on Mach, at one image.
use jointprof.Maps.Mach.Listed.{IsImage, listed_below, list_mach-listed_below}
use jointprof.Maps.Mach.{
  LoadCommand, MachHeader, Dyld, mh_magic_64, lc_segment_64, init_mach, list_mach,
}
use jointprof.Common.{
  ℕ, zero, suc, ◌≡◌, refl, ap, subst, false, Option, none, some, List, [], ◌∷◌, ◌==◌, if◌then◌else◌,
  codes, arith,
}

-- Two segments of 72 bytes and a load command of 24 bytes between them, behind a header at 4096; dyld knows
-- no image behind it.
abbrev first_segment : LoadCommand
first_segment = record { cmd = lc_segment_64; cmdsize = 72; vmaddr = 0; vmsize = 4096; fileoff = 0 }

abbrev between_command : LoadCommand
between_command = record { cmd = 2; cmdsize = 24; vmaddr = 0; vmsize = 0; fileoff = 0 }

abbrev second_segment : LoadCommand
second_segment = record {
  cmd = lc_segment_64;
  cmdsize = 72;
  vmaddr = 8192;
  vmsize = 4096;
  fileoff = 4096;
}

abbrev one_header : MachHeader
one_header = record { magic = mh_magic_64; ncmds = 3; address = 4096 }

abbrev one_image : Dyld
one_image = record {
  image_count = 1;
  image_header = λ image. if image == 0 then some one_header else none;
  vmaddr_slide = λ image. 65536;
  image_name = λ image. codes "/usr/lib/dyld";
  command_at = λ at.
      if at == 4128 then first_segment else if at == 4200 then between_command else second_segment;
}

abbrev one_commands : ℕ → List LoadCommand
one_commands image = first_segment ∷ between_command ∷ second_segment ∷ []

one_header-IsImage : (hdr : MachHeader) → one_header ≡ hdr → IsImage one_image hdr (one_commands 0)
one_header-IsImage hdr e =
    subst (λ h. IsImage one_image h (one_commands 0)) e
      ((refl, (refl, (refl, tt))), refl, omega arith)

some-some : (hdr : MachHeader) → some one_header ≡ some hdr → one_header ≡ hdr
some-some hdr e = ap (λ (o : Option MachHeader). elim o [ none ↦ one_header | some h ↦ h ]) e

one_image-IsImage :
    (image : ℕ) (hdr : MachHeader)
    → one_image.image_header image ≡ some hdr
    → IsImage one_image hdr (one_commands image)
one_image-IsImage zero hdr e = one_header-IsImage hdr (some-some hdr e)
one_image-IsImage (suc image) hdr e = let later : (suc image == 0) ≡ false = ground arith in cc

list_mach-listed_below_example :
    list_mach 3 one_image (init_mach one_image) ≡ some (listed_below one_image one_commands 2)
list_mach-listed_below_example =
    list_mach-listed_below 3 one_image one_commands one_image-IsImage (omega arith)
