-- ===== src/Maps/Entries.antt =====
-- The specification of Next: the entries of a text are those of its lines, in order.
use jointprof.Maps.Backing.{no_pages}
use jointprof.Maps.Iterator.{Entry, make_dev, name_offset}
use jointprof.Maps.Line.{Fields}
use jointprof.Maps.Platform.{Platform, parse_line}
use jointprof.Maps.Memory.{until_nul}
use jointprof.Common.{◌<◌, ◌≡◌, refl, arith, Option, none, some, List, [], ◌∷◌, Bytes, length, drop}

-- The entry of a line that parses into `fields`.
unfoldable pub fields_entry : Bytes → Fields → Entry
fields_entry text fields = record {
  start = fields.start;
  end = fields.end;
  flags = fields.flags;
  offset = fields.offset;
  inode = fields.inode;
  filename = drop (name_offset fields.filename_offset (length text)) text;
  dev = make_dev fields.major fields.minor;
  pages = no_pages;
}

-- The entry of a line; a line ends at its first NUL, if it has one.
unfoldable pub line_entry : Platform → Bytes → Option Entry
line_entry os line = elim (parse_line os (until_nul line)) [
  | none ↦ none
  | some fields ↦ some (fields_entry (until_nul line) fields)
]

-- The first entry, and the lines behind it.
unfoldable pub first_entry : Platform → List Bytes → Option (Entry × List Bytes)
first_entry os [] = none
first_entry os (line ∷ rest) = elim (line_entry os line) [
  | none ↦ first_entry os rest
  | some e ↦ some (e, rest)
]

-- All entries.
unfoldable pub entries : Platform → List Bytes → List Entry
entries os [] = []
entries os (line ∷ rest) = elim (line_entry os line) [
  | none ↦ entries os rest
  | some e ↦ e ∷ entries os rest
]

-- What the first entry says of all entries.
abbrev pub FirstOf : Platform → List Bytes → Option (Entry × List Bytes) → Type 0
FirstOf os all none = entries os all ≡ []
FirstOf os all (some (e, rest)) =
    (entries os all ≡ e ∷ entries os rest) × (length rest < length all)

pub first_entry-FirstOf : (os : Platform) (all : List Bytes) → FirstOf os all (first_entry os all)
unfolding first_entry entries
first_entry-FirstOf os [] = refl
first_entry-FirstOf os (line ∷ rest) =
    go (line_entry os line) (first_entry os rest) (first_entry-FirstOf os rest) refl
  where
    go :
        (one : Option Entry) (later : Option (Entry × List Bytes))
        → FirstOf os rest later
        → line_entry os line ≡ one
        → FirstOf os (line ∷ rest) (elim one [ none ↦ later | some e ↦ some (e, rest) ])
    go none none h e = rw (e, entries) h
    go none (some (f, more)) h e = (rw (e, entries) h.0, omega (arith, h.1))
    go (some f) later h e = (rw (e, entries), omega arith)
