-- ===== src/Maps/Lifetime.antt =====
-- src/sysinfo.cpp, the constructors and the destructor of ProcMapsIterator where the maps are a text:
-- what they take from the process, and what they give back.
pub mod Laws
use jointprof.Maps.File.{File}
use jointprof.Maps.Init.{k_buf_size, init}
use jointprof.Maps.Iterator.{
  Iterator, Entry, Fill, after_read, fill, shift_and_fill, end_line, advance, take_backing, found,
  Outcome, entry, finished, fault, no_fuel, next_ext,
}
use jointprof.Maps.Memory.{memchr, c_string}
use jointprof.Maps.Line.{Fields}
use jointprof.Maps.Platform.{Platform, parse_line}
use jointprof.Common.{
  ℕ, zero, suc, ◌+◌, ◌-◌, ◌≡◌, refl, sym, ap, ◌∙◌, Bool, true, false, Option, none, some, List, [],
  ◌∷◌, ltb, if◌then◌else◌, Bool-cases, inl, inr, Bytes, length, ℤ,
}

-- How many descriptors are open, and how many buffers are allocated.
pub record Resources : Type 0 where
  pub descriptors : ℕ
  pub buffers : ℕ

-- An iterator, and whether dynamic_buffer_ is not NULL.
pub record Owner : Type 0 where
  pub iterator : Iterator
  pub dynamic_buffer : Bool

abbrev count_if : Bool → ℕ
count_if true = 1
count_if false = 0

-- The destructor: `if (fd_ >= 0) NO_INTR(close(fd_)); delete dynamic_buffer_;`, where close is not interrupted.
unfoldable pub destroy : Owner → Resources → Resources
destroy o r = record {
  descriptors = r.descriptors - count_if o.iterator.fd.is_open;
  buffers = r.buffers - count_if o.dynamic_buffer;
}

module _ (os : Platform) (path_max : ℕ) (own_pid : ℤ) (open_file : Bytes → File) where
  -- The constructor with three arguments. `buffer` is what the passed buffer holds, `none` for NULL;
  -- `fresh` is what a new buffer holds.
  unfoldable pub construct_backed : ℤ → Option Bytes → Bool → Bytes → Resources → Owner × Resources
  construct_backed pid none use_maps_backing fresh r =
      let it = init os path_max own_pid open_file fresh pid use_maps_backing in
      (
        record { iterator = it; dynamic_buffer = true },
        record { descriptors = r.descriptors + count_if it.fd.is_open; buffers = r.buffers + 1 },
      )
  construct_backed pid (some buf) use_maps_backing fresh r =
      let it = init os path_max own_pid open_file buf pid use_maps_backing in
      (
        record { iterator = it; dynamic_buffer = false },
        record r { descriptors = r.descriptors + count_if it.fd.is_open },
      )

  -- The constructor with two arguments, and the one with a process alone.
  unfoldable pub construct_buffered : ℤ → Option Bytes → Bytes → Resources → Owner × Resources
  construct_buffered pid buffer = construct_backed pid buffer false

  unfoldable pub construct_plain : ℤ → Bytes → Resources → Owner × Resources
  construct_plain pid = construct_backed pid none false

-- The iterator after a call of Next; a fault leaves none.
unfoldable pub after_next : Outcome → Option Iterator
after_next (entry e it) = some it
after_next (finished it) = some it
after_next fault = none
after_next no_fuel = none

-- Several calls of Next, each with its fuel.
unfoldable pub calls : Platform → List ℕ → Iterator → Option Iterator
calls os [] it = some it
calls os (fuel ∷ fuels) it = elim (after_next (next_ext os fuel it)) [
  | none ↦ none
  | some it' ↦ calls os fuels it'
]
