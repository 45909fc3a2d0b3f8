-- ===== src/Maps/Similar.antt =====
-- src/sysinfo.cpp, ParseProcMapsLine and the call of sscanf that its comment compares it to.
use jointprof.Clib.Chars.{is_space, digit_value, digit_of, StartsDark}
use jointprof.Clib.Numbers.{
  clamp_small, clamp_signed-parts, format_hex-IsDigitOf, format_hex-ne-nil, format_hex-StartsDark,
  write_signed-StartsDark, scan_digits-format_hex,
}
use jointprof.Clib.Numbers.Front.{Stops, scan-append, scan-signed}
use jointprof.Clib.Printf.{format_hex, format_left, write_signed}
use jointprof.Clib.Scanf.{
  Conversion, decimal, hexadecimal, word, Directive, literal, space, count, store, Value, number,
  text, take_word, convert, expect, convert-hexadecimal, convert-decimal, scan_directives, sscanf,
}
use jointprof.Clib.Strto.{skip_space, clamp_unsigned, clamp_signed}
use jointprof.Maps.Format.{permissions, line_text}
use jointprof.Maps.Line.{Fields, parse_proc_maps_line}
use jointprof.Maps.Platform.{counted, hex_int, cygwin_format}
use jointprof.Maps.RoundTrip.{permissions-StartsDark, parse-line_text}
use jointprof.Common.{
  ℕ, zero, suc, ◌-◌, ◌/◌, ◌%◌, ◌^◌, ◌<◌, ◌≡◌, refl, sym, ap, ◌∙◌, false, Option, none, some, List,
  [], ◌∷◌, ◌++◌, append_assoc, arith, Bytes, length, replicate, All, ℤ, pos, IsInt64, is_negative,
  magnitude, signed32,
}

-- What that call stores, if it returns 7.
similar_fields : List Value × Option ℕ → Option Fields
similar_fields
      (
        number ms start
            ∷ number me end
            ∷ text flags
            ∷ number mo offset
            ∷ number ma major
            ∷ number mi minor
            ∷ number minus inode
            ∷ [],
        n,
      ) =
    some (record {
      start = clamp_unsigned ms start;
      end = clamp_unsigned me end;
      flags = flags;
      offset = clamp_unsigned mo offset;
      major = hex_int ma major;
      minor = hex_int mi minor;
      inode = clamp_signed minus inode;
      filename_offset = counted n;
    })
similar_fields other = none

-- sscanf(text, "%llx-%llx %4s %llx %x:%x %lld %n", …)
unfoldable pub similar_line : Bytes → Option Fields
unfolding similar_fields
similar_line line = similar_fields (sscanf line cygwin_format)

skip_space-dark : (s : Bytes) → StartsDark s → skip_space s ≡ s
unfolding skip_space
skip_space-dark [] h = refl
skip_space-dark (c ∷ s) h = rw h refl

-- A conversion that succeeds stores its value.
store_step :
    (total : ℕ) (c : Conversion) (format : List Directive) (s : Bytes) (v : Value) (rest : Bytes)
    → convert c s ≡ some (v, rest)
    → scan_directives total (store c ∷ format) s
      ≡ (v ∷ (scan_directives total format rest).0, (scan_directives total format rest).1)
unfolding scan_directives
store_step total c format s v rest e = rw (e, scan_directives) refl

convert-hex :
    (width n : ℕ) (tail : Bytes)
    → n < 2 ^ 64
    → Stops 16 tail
    → convert hexadecimal (format_hex width n ++ tail) ≡ some (number false n, tail)
convert-hex width n tail h stop = convert-hexadecimal n false (format_hex width n ++ tail) tail (
    scan-append 16 n (format_hex width n) tail (omega arith) (format_hex-ne-nil width n)
      (format_hex-IsDigitOf width n) (scan_digits-format_hex width n h) stop)

take_word-append :
    (w rest : Bytes)
    → All (λ c. is_space c ≡ false) w
    → take_word (length w) (w ++ rest) ≡ (w, rest)
unfolding take_word
take_word-append [] rest h = refl
take_word-append (c ∷ w) rest (dark, h) = rw (dark, take_word-append w rest h) refl

permissions-dark :
    (flags : Option Bytes)
    → All (λ c. is_space c ≡ false) (permissions flags) × (length (permissions flags) ≡ 4)
unfolding permissions is_space
permissions-dark none = ((refl, (refl, (refl, (refl, tt)))), refl)
permissions-dark (some flags) = ground arith

convert-word :
    (w rest : Bytes)
    → 0 < length w
    → All (λ c. is_space c ≡ false) w
    → convert (word (length w)) (w ++ rest) ≡ some (text w, rest)
unfolding convert
convert-word [] rest some_byte h = absurd (omega arith)
convert-word (c ∷ w) rest some_byte h =
    rw (skip_space-dark (c ∷ (w ++ rest)) h.0, convert)
      (rw (take_word-append (c ∷ w) rest h, convert) refl)

convert-permissions :
    (flags : Option Bytes) (rest : Bytes)
    → convert (word 4) (permissions flags ++ rest) ≡ some (text (permissions flags), rest)
convert-permissions flags rest =
    let (dark, four) = permissions-dark flags in
    ap (λ n. convert (word n) (permissions flags ++ rest)) (sym four)
    ∙ convert-word (permissions flags) rest (omega arith) dark

spaces-Stops : (k : ℕ) (name : Bytes) → Stops 10 (replicate k b' ' ++ (b' ' ∷ name))
unfolding digit_of digit_value
spaces-Stops zero name = (refl, refl, refl)
spaces-Stops (suc k) name = (refl, refl, refl)

skip_spaces :
    (k : ℕ) (name : Bytes) → StartsDark name → skip_space (replicate k b' ' ++ (b' ' ∷ name)) ≡ name
unfolding skip_space is_space
skip_spaces zero name h = skip_space-dark name h
skip_spaces (suc k) name h = skip_spaces k name h

-- What a call of sscanf stores.
abbrev Stored : Type 0
Stored = List Value × Option ℕ

-- A value in front of what is stored later.
abbrev prepend : Value → Stored → Stored
prepend v (values, n) = (v ∷ values, n)

spaced :
    (total : ℕ) (format : List Directive) (s : Bytes)
    → StartsDark s
    → scan_directives total (space ∷ format) (b' ' ∷ s) ≡ scan_directives total format s
unfolding scan_directives skip_space is_space
spaced total format s h = ap (scan_directives total format) (skip_space-dark s h)

hex_step :
    (total width n : ℕ) (format : List Directive) (tail : Bytes)
    → n < 2 ^ 64
    → Stops 16 tail
    → scan_directives total (store hexadecimal ∷ format) (format_hex width n ++ tail)
      ≡ prepend (number false n) (scan_directives total format tail)
hex_step total width n format tail h stop =
    store_step total hexadecimal format _ _ tail (convert-hex width n tail h stop)

-- A number behind a space.
spaced_hex :
    (total width n : ℕ) (format : List Directive) (tail : Bytes)
    → n < 2 ^ 64
    → Stops 16 tail
    → scan_directives total
        (space ∷ store hexadecimal ∷ format)
        (b' ' ∷ (format_hex width n ++ tail))
      ≡ prepend (number false n) (scan_directives total format tail)
spaced_hex total width n format tail h stop =
    spaced total (store hexadecimal ∷ format) (format_hex width n ++ tail)
      (format_hex-StartsDark width n tail)
    ∙ hex_step total width n format tail h stop

signed32_small : (n : ℕ) → n < 2 ^ 31 → signed32 n ≡ pos n
signed32_small n h = ground arith

hex_int_small : (n : ℕ) → n < 2 ^ 31 → hex_int false n ≡ pos n
hex_int_small n h =
    let same : clamp_unsigned false n % 2 ^ 32 ≡ n =
      ap (λ m. m % 2 ^ 32) (clamp_small n (omega arith)) ∙ omega arith in
    ap signed32 same ∙ signed32_small n h

module _ (start end offset dev : ℕ) (flags : Option Bytes) (inode : ℤ) (filename : Bytes)
    (start_fits : start < 2 ^ 64) (end_fits : end < 2 ^ 64) (offset_fits : offset < 2 ^ 64)
    (dev_fits : dev < 2 ^ 39) (inode_fits : IsInt64 inode) (name_dark : StartsDark filename) where
  -- The parts of the line, from each field on.
  at_inode : Bytes
  at_inode = format_left 11 inode ++ (b' ' ∷ filename)

  at_minor : Bytes
  at_minor = format_hex 2 (dev % 256) ++ (b' ' ∷ at_inode)

  at_major : Bytes
  at_major = format_hex 2 (dev / 256 % 2 ^ 32) ++ (b':' ∷ at_minor)

  at_offset : Bytes
  at_offset = format_hex 8 offset ++ (b' ' ∷ at_major)

  at_flags : Bytes
  at_flags = permissions flags ++ (b' ' ∷ at_offset)

  at_end : Bytes
  at_end = format_hex 8 end ++ (b' ' ∷ at_flags)

  line : Bytes
  line = line_text start end flags offset inode filename dev

  values : List Value
  values =
      number false start
      ∷ number false end
      ∷ text (permissions flags)
      ∷ number false offset
      ∷ number false (dev / 256 % 2 ^ 32)
      ∷ number false (dev % 256)
      ∷ number (is_negative inode) (magnitude inode)
      ∷ []

  from_inode :
      (total : ℕ)
      → scan_directives total (space ∷ store decimal ∷ space ∷ count ∷ []) (b' ' ∷ at_inode)
        ≡ (number (is_negative inode) (magnitude inode) ∷ [], some (total - length filename))
  unfolding at_inode scan_directives format_left
  from_inode total =
      let pad = 11 - length (write_signed inode) in
      let tail = replicate pad b' ' ++ (b' ' ∷ filename) in
      let parts : at_inode ≡ write_signed inode ++ tail =
        append_assoc (write_signed inode) (replicate pad b' ') (b' ' ∷ filename) in
      ap (λ t. scan_directives total (space ∷ store decimal ∷ space ∷ count ∷ []) (b' ' ∷ t)) parts
      ∙ spaced total (store decimal ∷ space ∷ count ∷ []) (write_signed inode ++ tail)
          (write_signed-StartsDark inode tail)
      ∙ store_step total decimal (space ∷ count ∷ []) (write_signed inode ++ tail) _ tail (
          convert-decimal (magnitude inode) (is_negative inode) (write_signed inode ++ tail) tail
            (scan-signed inode tail inode_fits (spaces-Stops pad filename)))
      ∙ ap (λ t. (number (is_negative inode) (magnitude inode) ∷ [], some (total - length t)))
          (skip_spaces pad filename name_dark)

  from_start : sscanf line cygwin_format ≡ (values, some (length line - length filename))
  unfolding line line_text values sscanf scan_directives expect at_inode at_minor at_major at_offset
      at_flags at_end digit_of digit_value
  from_start =
      let total = length line in
      let f8 : List Directive = space ∷ store decimal ∷ space ∷ count ∷ [] in
      let f6 : List Directive = space ∷ store hexadecimal ∷ literal b':' ∷ store hexadecimal ∷ f8 in
      let f5 : List Directive = space ∷ store hexadecimal ∷ f6 in
      let f4 : List Directive = space ∷ store (word 4) ∷ f5 in
      let v1 : Stored → Stored = prepend (number false start) in
      let v2 : Stored → Stored = λ r. v1 (prepend (number false end) r) in
      let v3 : Stored → Stored = λ r. v2 (prepend (text (permissions flags)) r) in
      let v4 : Stored → Stored = λ r. v3 (prepend (number false offset) r) in
      let v5 : Stored → Stored = λ r. v4 (prepend (number false (dev / 256 % 2 ^ 32)) r) in
      let v6 : Stored → Stored = λ r. v5 (prepend (number false (dev % 256)) r) in
      hex_step total 8 start (literal b'-' ∷ store hexadecimal ∷ f4) (b'-' ∷ at_end) start_fits
        (refl, refl, refl)
      ∙ ap v1 (hex_step total 8 end f4 (b' ' ∷ at_flags) end_fits (refl, refl, refl))
      ∙ ap v2 (
          spaced total (store (word 4) ∷ f5) at_flags
            (permissions-StartsDark flags (b' ' ∷ at_offset))
          ∙ store_step total (word 4) f5 at_flags _ (b' ' ∷ at_offset)
              (convert-permissions flags (b' ' ∷ at_offset)))
      ∙ ap v3 (spaced_hex total 8 offset f6 (b' ' ∷ at_major) offset_fits (refl, refl, refl))
      ∙ ap v4 (
          spaced_hex total 2 (dev / 256 % 2 ^ 32) (literal b':' ∷ store hexadecimal ∷ f8)
            (b':' ∷ at_minor) (omega arith) (refl, refl, refl))
      ∙ ap v5 (hex_step total 2 (dev % 256) f8 (b' ' ∷ at_inode) (omega arith) (refl, refl, refl))
      ∙ ap v6 (from_inode total)

  similar :
      similar_fields (values, some (length line - length filename))
      ≡ some (record {
        start = start;
        end = end;
        flags = permissions flags;
        offset = offset;
        major = pos (dev / 256 % 2 ^ 32);
        minor = pos (dev % 256);
        inode = inode;
        filename_offset = length line - length filename;
      })
  unfolding similar_fields values
  similar =
      rw
        (
          clamp_small start start_fits,
          clamp_small end end_fits,
          clamp_small offset offset_fits,
          hex_int_small (dev / 256 % 2 ^ 32) (omega arith),
          hex_int_small (dev % 256) (omega arith),
          clamp_signed-parts inode inode_fits,
        )
        refl

  -- On a line that FormatLine writes, ParseProcMapsLine finds what the sscanf finds that the comment
  -- in it names: for addresses and offsets of 64 bits, an int64 inode, device numbers whose major part fits an int,
  -- and a file name that does not begin with white space.
  pub parse-similar_line :
      let text = line_text start end flags offset inode filename dev in
      parse_proc_maps_line text ≡ similar_line text
  unfolding similar_line line
  parse-similar_line =
      (parse-line_text start end offset dev flags inode filename start_fits end_fits offset_fits
        dev_fits inode_fits name_dark).0
      ∙ sym (ap similar_fields from_start ∙ similar)
