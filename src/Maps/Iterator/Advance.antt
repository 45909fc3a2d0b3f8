-- ===== src/Maps/Iterator/Advance.antt =====
-- src/sysinfo.cpp, NextExt up to its line parser: the line at stext_, and the text in the buffer and
-- the file.
use mathlib.Core.Path.{ap₂}
use jointprof.Maps.File.Laws.{NoFailure}
use jointprof.Maps.Iterator.Shift.{Holds, Shifted, shift_and_fill-Shifted}
use jointprof.Maps.Iterator.{Iterator, shift_and_fill, end_line, advance}
use jointprof.Maps.Memory.Laws.{set-append, memchr_hit, memchr_miss}
use jointprof.Maps.Memory.{memchr}
use jointprof.Maps.Stream.{newline_cases}
use jointprof.Common.{
  ℕ, suc, ◌+◌, ◌-◌, ◌≤◌, ◌<◌, ◌≡◌, refl, sym, ap, ◌∙◌, subst, ◌⊎◌, inl, inr, true, none, some, [],
  ◌∷◌, ◌++◌, append_assoc, arith, Bytes, length, length-append, length-set, set, Lacks,
}

-- The line is followed by a newline in the text.
abbrev pub Ended : Iterator → Iterator → Bytes → Bytes → Bytes → Type 0
Ended it it' pending line pending' =
    (line ++ (b'\n' ∷ (pending' ++ it'.fd.unread)) ≡ pending ++ it.fd.unread) × (0 < it'.etext)

-- The line is all that was read, and no newline follows it.
pub record Last (it it' : Iterator) (pending line pending' : Bytes) : Type 0 where
  pub nothing : pending' ≡ []
  pub text : line ++ it'.fd.unread ≡ pending ++ it.fd.unread
  pub end_at : it'.etext ≡ length line
  pub complete :
      it.fd.is_open ≡ true → NoFailure it.fd.script → (length line ≡ it.ebuf) ⊎ (it'.fd.unread ≡ [])

-- `it'` stands at `line`, and holds `pending'` behind it.
pub record AtLine (it it' : Iterator) (pending line pending' : Bytes) : Type 0 where
  pub holds : Holds it' pending'
  pub before : Bytes
  pub behind : Bytes
  pub buffer : it'.ibuf ≡ before ++ (line ++ (0 ∷ behind))
  pub line_at : it'.stext ≡ length before
  pub lacks : Lacks b'\n' line
  pub same_ebuf : it'.ebuf ≡ it.ebuf
  pub same_mode : it'.using_maps_backing ≡ it.using_maps_backing
  pub same_open : it'.fd.is_open ≡ it.fd.is_open
  pub safe : it.fd.is_open ≡ true → NoFailure it.fd.script → NoFailure it'.fd.script
  pub text : Ended it it' pending line pending' ⊎ Last it it' pending line pending'

set_two :
    (before line post : Bytes) (x v : ℕ)
    → set (before ++ (line ++ (x ∷ post))) (length before + length line) v
      ≡ before ++ (line ++ (v ∷ post))
set_two before line post x v =
    ap₂ (λ b k. set b k v) (sym (append_assoc before line (x ∷ post)))
      (sym (length-append before line))
    ∙ set-append (before ++ line) post x v
    ∙ append_assoc before line (v ∷ post)

-- A newline inside the text becomes a NUL, and nextline_ moves behind it.
end_line-Holds :
    (m : Iterator) (before line rest after : Bytes)
    → m.ibuf ≡ before ++ (line ++ (b'\n' ∷ (rest ++ after)))
    → m.etext ≡ length before + length line + 1 + length rest
    → length m.ibuf ≡ m.ebuf + 1
    → m.etext ≤ m.ebuf
    → Holds (end_line m (length before + length line)) rest
      × ((end_line m (length before + length line)).ibuf
          ≡ before ++ (line ++ (0 ∷ (rest ++ after))))
unfolding end_line
end_line-Holds m before line rest after buffer end size within =
    let written =
      ap (λ b. set b (length before + length line) 0) buffer
      ∙ set_two before line (rest ++ after) b'\n' 0 in
    (
      record {
        before = before ++ (line ++ (0 ∷ []));
        after = after;
        buffer = written ∙ rw (append_assoc, append_assoc);
        line_at =
            ground (arith, length-append before (line ++ (0 ∷ [])), length-append line (0 ∷ []));
        end_at =
            omega (arith, length-append before (line ++ (0 ∷ [])), length-append line (0 ∷ []));
        size = length-set m.ibuf (length before + length line) 0 ∙ size;
        within = within;
      },
      written,
    )

-- The sentinel behind the text becomes a NUL, and nextline_ stays at the end of the text.
end_line-last :
    (m : Iterator) (line behind : Bytes)
    → m.ibuf ≡ line ++ (b'\n' ∷ behind)
    → m.etext ≡ length line
    → length m.ibuf ≡ m.ebuf + 1
    → m.etext ≤ m.ebuf
    → Holds (end_line m (length line)) [] × ((end_line m (length line)).ibuf ≡ line ++ (0 ∷ behind))
unfolding end_line
end_line-last m line behind buffer end size within =
    let written = ap (λ b. set b (length line) 0) buffer ∙ set-append line behind b'\n' 0 in
    (
      record {
        before = line;
        after = 0 ∷ behind;
        buffer = written;
        line_at = ground arith;
        end_at = omega arith;
        size = length-set m.ibuf (length line) 0 ∙ size;
        within = within;
      },
      written,
    )

-- The result of `advance`.
abbrev pub Advances : Iterator → Bytes → Type 0
Advances it pending =
    (it' : Iterator) × (line : Bytes) × (pending' : Bytes) × (advance it ≡ some it')
    × AtLine it it' pending line pending'

-- A whole line is in the buffer.
advance_in_buffer :
    (it : Iterator) (line rest : Bytes)
    → Holds it (line ++ (b'\n' ∷ rest))
    → Lacks b'\n' line
    → Advances it (line ++ (b'\n' ∷ rest))
unfolding advance end_line
advance_in_buffer it line rest h lacks =
    let m = record it { stext = it.nextline } in
    let n = length-append line (b'\n' ∷ rest) in
    let buffer : it.ibuf ≡ h.before ++ (line ++ (b'\n' ∷ (rest ++ h.after))) =
      h.buffer ∙ ap (λ t. h.before ++ t) (append_assoc line (b'\n' ∷ rest) h.after) in
    let hit : memchr it.ibuf it.nextline b'\n' (it.etext - it.nextline)
        ≡ some (length h.before + length line) =
      rw (buffer, h.line_at)
        (memchr_hit h.before line (rest ++ h.after) b'\n' (it.etext - length h.before) lacks
          (omega (arith, h.end_at))) in
    let (holds, written) =
      end_line-Holds m h.before line rest h.after buffer (omega (arith, h.end_at)) h.size
        h.within in
    (
      end_line m (length h.before + length line),
      line,
      rest,
      rw (hit, advance),
      record {
        holds = holds;
        before = h.before;
        behind = rest ++ h.after;
        buffer = written;
        line_at = h.line_at;
        lacks = lacks;
        same_ebuf = refl;
        same_mode = refl;
        same_open = refl;
        safe = λ o s. s;
        text =
            inl (sym (append_assoc line (b'\n' ∷ rest) it.fd.unread), omega (arith, h.end_at, n));
      },
    )

module _ (it : Iterator) (pending : Bytes) (h : Holds it pending)
    (none_here : Lacks b'\n' pending) where
  abbrev m : Iterator
  m = record it { stext = it.nextline }

  abbrev full : Iterator
  full = shift_and_fill m

  shifted : Shifted m pending full
  shifted =
      shift_and_fill-Shifted m pending h.before h.after h.buffer h.line_at h.end_at h.size h.within

  miss : memchr it.ibuf it.nextline b'\n' (it.etext - it.nextline) ≡ none
  miss =
      rw (h.buffer, h.line_at)
        (memchr_miss h.before pending h.after b'\n' (it.etext - length h.before) none_here
          (omega (arith, h.end_at)))

  whole_text : (pending ++ shifted.got) ++ full.fd.unread ≡ pending ++ it.fd.unread
  whole_text =
      append_assoc pending shifted.got full.fd.unread ∙ ap (λ t. pending ++ t) shifted.taken

  -- The refilled buffer holds a whole line.
  refilled :
      (line rest : Bytes)
      → pending ++ shifted.got ≡ line ++ (b'\n' ∷ rest)
      → Lacks b'\n' line
      → Advances it pending
  unfolding advance end_line
  refilled line rest e lacks =
      let s = shifted in
      let total : length pending + length s.got ≡ length line + suc (length rest) =
        sym (length-append pending s.got) ∙ ap length e ∙ length-append line (b'\n' ∷ rest) in
      let buffer : full.ibuf ≡ line ++ (b'\n' ∷ (rest ++ (b'\n' ∷ s.behind))) =
        s.buffer
        ∙ ap (λ t. t ++ (b'\n' ∷ s.behind)) e
        ∙ append_assoc line (b'\n' ∷ rest) (b'\n' ∷ s.behind) in
      let hit : memchr full.ibuf full.stext b'\n' (full.etext + 1 - full.stext)
          ≡ some (length line) =
        rw (buffer, s.at_front)
          (memchr_hit [] line (rest ++ (b'\n' ∷ s.behind)) b'\n' (full.etext + 1 - 0) lacks
              (omega (arith, s.end_at, total))
            ∙ ap some (omega arith)) in
      let (holds, written) =
        end_line-Holds full [] line rest (b'\n' ∷ s.behind) buffer (omega (arith, s.end_at, total))
          (s.size ∙ ap (λ k. k + 1) (sym s.same_ebuf)) (omega (arith, s.within, s.same_ebuf)) in
      let zero_add : 0 + length line ≡ length line = omega arith in
      (
        end_line full (length line),
        line,
        rest,
        rw (miss, advance) (rw (hit, advance)),
        record {
          holds = subst (λ k. Holds (end_line full k) rest) zero_add holds;
          before = [];
          behind = rest ++ (b'\n' ∷ s.behind);
          buffer =
              subst (λ k. (end_line full k).ibuf ≡ line ++ (0 ∷ (rest ++ (b'\n' ∷ s.behind))))
                zero_add written;
          line_at = s.at_front;
          lacks = lacks;
          same_ebuf = s.same_ebuf;
          same_mode = s.same_mode;
          same_open = s.still_open;
          safe = λ o f. (s.complete o f).1;
          text = inl (
            sym (append_assoc line (b'\n' ∷ rest) full.fd.unread)
                ∙ ap (λ t. t ++ full.fd.unread) (sym e)
                ∙ whole_text,
            omega (arith, s.end_at, total),
          );
        },
      )

  -- No newline was read: the text in the buffer is the line.
  refilled_last : Lacks b'\n' (pending ++ shifted.got) → Advances it pending
  unfolding advance end_line
  refilled_last lacks =
      let s = shifted in
      let line = pending ++ s.got in
      let total = length-append pending s.got in
      let hit : memchr full.ibuf full.stext b'\n' (full.etext + 1 - full.stext)
          ≡ some (length line) =
        rw (s.buffer, s.at_front)
          (memchr_hit [] line s.behind b'\n' (full.etext + 1 - 0) lacks
              (omega (arith, s.end_at, total))
            ∙ ap some (omega arith)) in
      let (holds, written) =
        end_line-last full line s.behind s.buffer (omega (arith, s.end_at, total))
          (s.size ∙ ap (λ k. k + 1) (sym s.same_ebuf)) (omega (arith, s.within, s.same_ebuf)) in
      (
        end_line full (length line),
        line,
        [],
        rw (miss, advance) (rw (hit, advance)),
        record {
          holds = holds;
          before = [];
          behind = s.behind;
          buffer = written;
          line_at = s.at_front;
          lacks = lacks;
          same_ebuf = s.same_ebuf;
          same_mode = s.same_mode;
          same_open = s.still_open;
          safe = λ o f. (s.complete o f).1;
          text = inr (record {
            nothing = refl;
            text = whole_text;
            end_at = omega (arith, s.end_at, total);
            complete = λ o f. elim (s.complete o f).0 [
              | inl full_buffer ↦ inl (omega (arith, s.end_at, total))
              | inr nothing_left ↦ inr nothing_left
            ];
          });
        },
      )

-- From any iterator whose buffer is in order, the part of NextExt in front of the line parser never
-- writes through NULL and keeps the buffer in order. It brings to stext_ a NUL-terminated line that
-- has no newline: the bytes in front of the next newline of the buffer and the file, or all that was
-- read, if the buffer is full, a read failed, or the file has ended.
pub advance-AtLine : (it : Iterator) (pending : Bytes) → Holds it pending → Advances it pending
advance-AtLine it pending h = elim (newline_cases pending) [
  | inl (line, rest, e, lacks) ↦
      subst (Advances it) (sym e) (advance_in_buffer it line rest (subst (Holds it) e h) lacks)
  | inr lacks ↦ elim (newline_cases (pending ++ (shifted it pending h lacks).got)) [
    | inl (line, rest, e, first) ↦ refilled it pending h lacks line rest e first
    | inr last ↦ refilled_last it pending h lacks last
  ]
]
