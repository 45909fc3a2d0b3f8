-- ===== src/Maps/Memory/Laws.antt =====
-- Reads and writes on a buffer that is given as the parts before, at and behind a pointer.
use jointprof.Maps.Memory.{slice, store, find_byte, memchr, until_nul, c_string}
use jointprof.Common.{
  ℕ, zero, suc, ◌+◌, ◌<◌, ◌≡◌, refl, sym, ap, ◌∙◌, none, some, [], ◌∷◌, ◌++◌, append_assoc, arith,
  Bytes, length, length-append, take, drop, set, take_append, drop_append, Lacks, ==-refl, ==-ne,
}

pub set-append :
    (pre post : Bytes) (x v : ℕ) → set (pre ++ (x ∷ post)) (length pre) v ≡ pre ++ (v ∷ post)
set-append [] post x v = refl
set-append (y ∷ pre) post x v = ap (λ t. y ∷ t) (set-append pre post x v)

drop_append_two :
    (pre old post : Bytes) (k : ℕ)
    → k ≡ length pre + length old
    → drop k (pre ++ (old ++ post)) ≡ post
drop_append_two pre old post k e = rw (← append_assoc pre old post) (
    ap (λ i. drop i ((pre ++ old) ++ post)) (e ∙ sym (length-append pre old))
    ∙ drop_append (pre ++ old) post)

pub slice-append :
    (pre mid post : Bytes) (j : ℕ)
    → j ≡ length pre + length mid
    → slice (pre ++ (mid ++ post)) (length pre) j ≡ mid
slice-append pre mid post j e =
    rw drop_append (ap (λ k. take k (mid ++ post)) (omega arith) ∙ take_append mid post)

pub store-append :
    (pre old post new : Bytes)
    → length old ≡ length new
    → store (pre ++ (old ++ post)) (length pre) new ≡ pre ++ (new ++ post)
unfolding store
store-append pre old post new e = rw (
  take_append pre (old ++ post),
  drop_append_two pre old post (length pre + length new) (omega arith),
)

find_byte-append :
    (c n : ℕ) (line rest : Bytes)
    → Lacks c line
    → length line < n
    → find_byte c (take n (line ++ (c ∷ rest))) ≡ some (length line)
unfolding find_byte
find_byte-append c zero line rest h k = absurd (omega arith)
find_byte-append c (suc n) [] rest h k = rw (==-refl c)
find_byte-append c (suc n) (x ∷ line) rest (ne, h) k =
    rw (==-ne x c ne, find_byte-append c n line rest h (omega arith))

find_byte-Lacks : (c : ℕ) (text : Bytes) → Lacks c text → find_byte c text ≡ none
unfolding find_byte
find_byte-Lacks c [] h = refl
find_byte-Lacks c (x ∷ text) (ne, h) = rw (==-ne x c ne, find_byte-Lacks c text h)

pub memchr_hit :
    (pre line rest : Bytes) (c n : ℕ)
    → Lacks c line
    → length line < n
    → memchr (pre ++ (line ++ (c ∷ rest))) (length pre) c n ≡ some (length pre + length line)
unfolding memchr
memchr_hit pre line rest c n h k =
    rw (drop_append pre (line ++ (c ∷ rest)), find_byte-append c n line rest h k, memchr)

pub memchr_miss :
    (pre mid post : Bytes) (c n : ℕ)
    → Lacks c mid
    → n ≡ length mid
    → memchr (pre ++ (mid ++ post)) (length pre) c n ≡ none
unfolding memchr
memchr_miss pre mid post c n h e =
    rw (drop_append pre (mid ++ post), e, take_append mid post, find_byte-Lacks c mid h, memchr)

pub until_nul-append : (line rest : Bytes) → Lacks 0 line → until_nul (line ++ (0 ∷ rest)) ≡ line
unfolding until_nul
until_nul-append [] rest h = refl
until_nul-append (x ∷ line) rest (ne, h) = rw (==-ne x 0 ne, until_nul-append line rest h)

pub c_string-append :
    (pre line rest : Bytes)
    → Lacks 0 line
    → c_string (pre ++ (line ++ (0 ∷ rest))) (length pre) ≡ line
unfolding c_string
c_string-append pre line rest h =
    rw (drop_append pre (line ++ (0 ∷ rest)), until_nul-append line rest h)
