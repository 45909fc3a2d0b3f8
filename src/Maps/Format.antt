-- ===== src/Maps/Format.antt =====
-- src/sysinfo.cpp, FormatLine.
use jointprof.Clib.Printf.{format_hex, format_left}
use jointprof.Common.{
  ℕ, ◌-◌, ◌/◌, ◌%◌, ◌^◌, not, ◌&&◌, Option, none, some, [], ◌∷◌, ◌++◌, leb, ◌==◌, if◌then◌else◌,
  Bytes, length, get_or, take, ℤ,
}

-- A byte of a C string; at its end the NUL.
abbrev char_at : Bytes → ℕ → ℕ
char_at s i = get_or s i 0

-- The four characters of the permissions; `none` is a NULL pointer.
unfoldable pub permissions : Option Bytes → Bytes
permissions none = b'-' ∷ b'-' ∷ b'-' ∷ b'p' ∷ []
permissions (some flags) =
    let has = λ (i : ℕ). not (char_at flags i == 0) in
    (if char_at flags 0 == b'r' then b'r' else b'-')
    ∷ (if has 0 && char_at flags 1 == b'w' then b'w' else b'-')
    ∷ (if has 0 && has 1 && char_at flags 2 == b'x' then b'x' else b'-')
    ∷ (if has 0 && has 1 && has 2 && not (char_at flags 3 == b'p') then b'-' else b'p')
    ∷ []

-- The text that the format string of FormatLine describes, up to its newline.
unfoldable pub line_text : ℕ → ℕ → Option Bytes → ℕ → ℤ → Bytes → ℕ → Bytes
line_text start end flags offset inode filename dev =
    format_hex 8 start
    ++ (b'-'
        ∷ (format_hex 8 end
            ++ (b' '
                ∷ (permissions flags
                    ++ (b' '
                        ∷ (format_hex 8 offset
                            ++ (b' '
                                ∷ (format_hex 2 (dev / 256 % 2 ^ 32)
                                    ++ (b':'
                                        ∷ (format_hex 2 (dev % 256)
                                            ++ (b' '
                                                ∷ (format_left 11 inode
                                                    ++ (b' ' ∷ filename)))))))))))))

-- FormatLine: the returned number, and the C string that snprintf leaves in the buffer. A text
-- longer than `int` can count makes snprintf fail, and is longer than any `bufsize`.
unfoldable pub format_line : ℕ → ℕ → ℕ → Option Bytes → ℕ → ℤ → Bytes → ℕ → ℕ × Bytes
format_line bufsize start end flags offset inode filename dev =
    let text = line_text start end flags offset inode filename dev ++ (b'\n' ∷ []) in
    (if leb bufsize (length text) then 0 else length text, take (bufsize - 1) text)
