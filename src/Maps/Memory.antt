-- ===== src/Maps/Memory.antt =====
-- The buffer of src/sysinfo.cpp as a list of bytes, with indices for pointers into it, and the
-- functions of <string.h> on it.
pub mod Laws
use jointprof.Common.{
  ℕ, zero, suc, ◌+◌, ◌-◌, Option, none, some, List, [], ◌∷◌, ◌++◌, ◌==◌, if◌then◌else◌, Bytes,
  length, take, drop, replicate,
}

-- The bytes from index `i` up to index `j`.
abbrev pub slice : Bytes → ℕ → ℕ → Bytes
slice buf i j = take (j - i) (drop i buf)

-- A write of several bytes: `memmove` and `read` onto the buffer.
unfoldable pub store : Bytes → ℕ → Bytes → Bytes
store buf i bytes = take i buf ++ (bytes ++ drop (i + length bytes) buf)

-- The place of the first `c`.
unfoldable pub find_byte : ℕ → Bytes → Option ℕ
find_byte c [] = none
find_byte c (x ∷ text) =
    let rest = find_byte c text in
    if x == c then some 0 else elim rest [ none ↦ none | some i ↦ some (suc i) ]

-- `memchr(buf + from, c, n)`, as an index into `buf`.
unfoldable pub memchr : Bytes → ℕ → ℕ → ℕ → Option ℕ
memchr buf from c n = elim (find_byte c (take n (drop from buf))) [
  | none ↦ none
  | some i ↦ some (from + i)
]

-- The bytes before the first NUL.
unfoldable pub until_nul : Bytes → Bytes
until_nul [] = []
until_nul (c ∷ text) = let rest = until_nul text in if c == 0 then [] else c ∷ rest

-- The C string that a pointer into the buffer points to.
unfoldable pub c_string : Bytes → ℕ → Bytes
c_string buf i = until_nul (drop i buf)
