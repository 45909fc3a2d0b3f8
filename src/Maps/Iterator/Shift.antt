-- ===== src/Maps/Iterator/Shift.antt =====
-- src/sysinfo.cpp, the refill of the buffer in NextExt: shift the text to the front, fill, clear, put the sentinel.
use mathlib.Core.Path.{ap₂}
use jointprof.Maps.File.Laws.{NoFailure}
use jointprof.Maps.Iterator.Fill.{Filled, fill-Filled, store-split}
use jointprof.Maps.Iterator.{Iterator, Fill, fill, at_eof, end_fill, shift_and_fill}
use jointprof.Maps.Memory.Laws.{set-append, slice-append}
use jointprof.Maps.Memory.{slice, store}
use jointprof.Common.{
  ℕ, suc, ◌+◌, ◌-◌, ◌≤◌, ◌<◌, ◌≡◌, refl, ap, ◌∙◌, ◌⊎◌, inl, inr, true, Option, some, [], ◌∷◌, ◌++◌,
  append_assoc, arith, if◌then◌else◌, Bytes, length, length-append, length-replicate, replicate,
  length-drop, drop, set, Bool-cases,
}

-- The iterator's buffer holds `pending` from nextline_ up to etext_.
pub record Holds (it : Iterator) (pending : Bytes) : Type 0 where
  pub before : Bytes
  pub after : Bytes
  pub buffer : it.ibuf ≡ before ++ (pending ++ after)
  pub line_at : it.nextline ≡ length before
  pub end_at : it.etext ≡ length before + length pending
  pub size : length it.ibuf ≡ it.ebuf + 1
  pub within : it.etext ≤ it.ebuf

-- What the refill makes of `it`, which holds `pending` from stext_ on.
pub record Shifted (it : Iterator) (pending : Bytes) (full : Iterator) : Type 0 where
  pub got : Bytes
  pub behind : Bytes
  pub buffer : full.ibuf ≡ (pending ++ got) ++ (b'\n' ∷ behind)
  pub end_at : full.etext ≡ length pending + length got
  pub size : length full.ibuf ≡ it.ebuf + 1
  pub taken : got ++ full.fd.unread ≡ it.fd.unread
  pub within : full.etext ≤ it.ebuf
  pub at_front : full.stext ≡ 0
  pub same_ebuf : full.ebuf ≡ it.ebuf
  pub same_mode : full.using_maps_backing ≡ it.using_maps_backing
  pub still_open : full.fd.is_open ≡ it.fd.is_open
  pub complete :
      it.fd.is_open ≡ true
      → NoFailure it.fd.script
      → ((full.etext ≡ it.ebuf) ⊎ (full.fd.unread ≡ [])) × NoFailure full.fd.script

-- The buffer behind etext_, cleared or not, keeps its length.
cleared_lem :
    (p rest : Bytes) (etext ebuf : ℕ) (nread : Option ℕ)
    → etext ≡ length p
    → etext ≤ ebuf
    → length p + length rest ≡ ebuf + 1
    → (rest' : Bytes) × ((if at_eof etext ebuf nread
          then store (p ++ rest) etext (replicate (ebuf - etext) 0)
          else p ++ rest)
        ≡ p ++ rest')
      × (length rest' ≡ length rest)
cleared_lem p rest etext ebuf nread e le size = elim (Bool-cases (at_eof etext ebuf nread)) [
  | inl eof ↦
      let zeros = replicate (ebuf - etext) 0 in
      let n : length zeros ≡ ebuf - etext = length-replicate (ebuf - etext) 0 in
      (
        zeros ++ drop (length zeros) rest,
        rw eof (store-split p rest zeros etext e (omega arith) ∙ append_assoc p zeros _),
        omega (
          arith,
          length-append zeros (drop (length zeros) rest),
          length-drop (length zeros) rest,
        ),
      )
  | inr more ↦ (rest, rw more, refl)
]

sentinel :
    (buf p rest : Bytes) (etext : ℕ)
    → buf ≡ p ++ rest
    → etext ≡ length p
    → 0 < length rest
    → (behind : Bytes) × (set buf etext b'\n' ≡ p ++ (b'\n' ∷ behind))
      × (suc (length behind) ≡ length rest)
sentinel buf p [] etext eb e h = absurd (omega arith)
sentinel buf p (x ∷ rest) etext eb e h = (rest, rw (eb, e) (set-append p rest x b'\n'), refl)

end_fill_lem :
    (r : Fill) (p rest : Bytes) (ebuf : ℕ)
    → r.0 ≡ p ++ rest
    → r.1 ≡ length p
    → r.1 ≤ ebuf
    → length p + length rest ≡ ebuf + 1
    → (behind : Bytes) × (end_fill ebuf r ≡ p ++ (b'\n' ∷ behind))
      × (suc (length behind) ≡ length rest)
unfolding end_fill
end_fill_lem (buf, etext, nread, fd) p rest ebuf buffer at within size =
    let (rest', cleared, same) = cleared_lem p rest etext ebuf nread at within size in
    let (behind, set_eq, n) = sentinel (p ++ rest') p rest' etext refl at (omega arith) in
    (behind, rw (buffer, cleared) set_eq, omega arith)

store_front : (buf s : Bytes) → store buf 0 s ≡ s ++ drop (length s) buf
unfolding store
store_front buf s = ap (λ k. s ++ drop k buf) (omega arith)

module _ (it : Iterator) (pending before after : Bytes)
    (buffer : it.ibuf ≡ before ++ (pending ++ after)) (at : it.stext ≡ length before)
    (end : it.etext ≡ length before + length pending) (size : length it.ibuf ≡ it.ebuf + 1)
    (within : it.etext ≤ it.ebuf) where
  tail : Bytes
  tail = drop (length pending) it.ibuf

  moved : store it.ibuf 0 (slice it.ibuf it.stext it.etext) ≡ pending ++ tail
  unfolding tail
  moved =
      ap (store it.ibuf 0)
        (ap₂ (λ b k. slice b k it.etext) buffer at ∙ slice-append before pending after it.etext end)
      ∙ store_front it.ibuf pending

  pending_fits : length pending ≤ it.ebuf
  pending_fits = omega arith

  room : length pending + length tail ≡ it.ebuf + 1
  unfolding tail
  room = omega (arith, length-drop (length pending) it.ibuf)

  abbrev filled : Fill
  filled =
      fill (it.ebuf - (it.etext - it.stext)) it.ebuf
        (store it.ibuf 0 (slice it.ibuf it.stext it.etext)) (it.etext - it.stext) (some 0) it.fd

  filled_lem : Filled pending tail it.ebuf it.fd filled
  filled_lem =
      let count : it.etext - it.stext ≡ length pending = omega arith in
      rw (moved, count)
        (fill-Filled (it.ebuf - length pending) pending tail (length pending) it.ebuf (some 0) it.fd
          refl pending_fits (omega (arith, pending_fits)) room)

  pub shift_and_fill-Shifted : Shifted it pending (shift_and_fill it)
  unfolding shift_and_fill
  shift_and_fill-Shifted =
      let f = filled_lem in
      let total = length-append pending f.got in
      let (behind, text, n) =
        end_fill_lem filled (pending ++ f.got) f.rest it.ebuf f.buffer (omega (arith, f.end_at))
          f.within (omega (arith, f.room, room)) in
      record {
        got = f.got;
        behind = behind;
        buffer = text;
        end_at = f.end_at;
        size =
            ap length text
            ∙ omega (arith, length-append (pending ++ f.got) (b'\n' ∷ behind), f.room, room);
        taken = f.taken;
        within = f.within;
        at_front = refl;
        same_ebuf = refl;
        same_mode = refl;
        still_open = f.still_open;
        complete = f.complete;
      }
