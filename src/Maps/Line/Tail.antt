-- ===== src/Maps/Line/Tail.antt =====
-- src/sysinfo.cpp, the file name that ParseProcMapsLine finds is the end of the line, and begins with no white
-- space.
use jointprof.Clib.Chars.{is_space, StartsDark}
use jointprof.Maps.Line.{Fields, not_at_end, parse_proc_maps_line}
use jointprof.Maps.Text.{
  Integer, int_type, int64_type, uint64_type, extract_until_char, skip_loop, skip_while_whitespace,
  string_to_integer_until_char, copy_string_until_char, step_over,
  string_to_integer_until_char_with_check as read_integer,
}
use mathlib.Core.Path.{ap₂}
use jointprof.Common.{
  ◌⊎◌, OnSome, OnSome-bind, ℕ, ◌-◌, ◌≡◌, refl, sym, ap, ◌∙◌, subst, Bool, true, false, not, Option,
  none, some, [], ◌∷◌, ◌++◌, append_assoc, ◌==◌, if◌then◌else◌, Bool-cases, inl, inr, Bytes, length,
  length-append, drop, drop_append, take, ℤ, arith,
}

-- `tail` is the end of the text.
abbrev pub IsTail : Bytes → Bytes → Type 0
IsTail text tail = (front : Bytes) × (text ≡ front ++ tail)

IsTail-trans : (s t u : Bytes) → IsTail s t → IsTail t u → IsTail s u
IsTail-trans s t u (f, e) (g, e') = (f ++ g, e ∙ ap (λ x. f ++ x) e' ∙ sym (append_assoc f g u))

extract_lem :
    (text : Bytes) (c : ℕ) → OnSome (λ r. text ≡ r.0 ++ (c ∷ r.1)) (extract_until_char text c)
unfolding extract_until_char
extract_lem [] c = tt
extract_lem (x ∷ text) c = go (Bool-cases (x == c)) (extract_until_char text c) (extract_lem text c)
  where
    go :
        ((x == c) ≡ true) ⊎ ((x == c) ≡ false)
        → (o : Option (Bytes × Bytes)) → OnSome (λ (r : Bytes × Bytes). text ≡ r.0 ++ (c ∷ r.1)) o
        → OnSome
            (λ (r : Bytes × Bytes). x ∷ text ≡ r.0 ++ (c ∷ r.1))
            (if x == c
              then some ([], text)
              else elim o [ none ↦ none | some (before, after) ↦ some (x ∷ before, after) ])
    go (inl e) o h = let same : x ≡ c = ground arith in rw e (ap (λ y. y ∷ text) same)
    go (inr e) none h = rw e tt
    go (inr e) (some (before, after)) h = rw e (ap (λ t. x ∷ t) h)

-- The loop stays on white space, in front of something else or at the end.
skip_loop_lem :
    (a : ℕ) (s : Bytes)
    → is_space a ≡ true
    → (b : ℕ) × (rest : Bytes) × (skip_loop (a ∷ s) ≡ b ∷ rest)
      × IsTail (a ∷ s) (b ∷ rest)
      × StartsDark rest
unfolding skip_loop
skip_loop_lem a [] space = (a, [], refl, ([], refl), tt)
skip_loop_lem a (b ∷ s) space = elim (Bool-cases (is_space b)) [
  | inl more ↦
      let (c, rest, e, (front, e'), dark) = skip_loop_lem b s more in
      (c, rest, rw (space, more) e, (a ∷ front, ap (λ t. a ∷ t) e'), dark)
  | inr dark ↦ (a, b ∷ s, rw (space, dark) refl, ([], refl), dark)
]

-- Behind a separator: the pointer moves on, and is at no white space if the separator was a space.
behind_lem :
    (c : ℕ) (after : Bytes)
    → OnSome
        (λ t. IsTail (c ∷ after) t × (is_space c ≡ true → StartsDark t))
        (step_over (some (skip_while_whitespace (c ∷ after) c)))
unfolding skip_while_whitespace step_over
behind_lem c after = elim (Bool-cases (is_space c)) [
  | inl space ↦
      let (b, rest, e, (front, e'), dark) = skip_loop_lem c after space in
      rw (space, e) ((front ++ (b ∷ []), e' ∙ sym (append_assoc front (b ∷ []) rest)), (λ _. dark))
  | inr other ↦ rw other ((c ∷ [], refl), (λ space. absurd (cc)))
]

-- A pointer onto the separators behind a field of the text.
abbrev Stays : ℕ → Bytes → Bytes → Type 0
Stays c text ptr =
    (after : Bytes) × IsTail text (c ∷ after) × (ptr ≡ skip_while_whitespace (c ∷ after) c)

-- A pointer behind them.
abbrev Behind : ℕ → Bytes → Bytes → Type 0
Behind c text ptr = IsTail text ptr × (is_space c ≡ true → StartsDark ptr)

step-Behind :
    (c : ℕ) (text ptr : Bytes) → Stays c text ptr → OnSome (Behind c text) (step_over (some ptr))
step-Behind c text ptr (after, tail, e) =
    subst (λ t. OnSome (Behind c text) (step_over (some t))) (sym e)
      (go (step_over (some (skip_while_whitespace (c ∷ after) c))) (behind_lem c after))
  where
    go :
        (o : Option Bytes)
        → OnSome (λ t. IsTail (c ∷ after) t × (is_space c ≡ true → StartsDark t)) o
        → OnSome (Behind c text) o
    go none h = tt
    go (some t) (h, dark) = (IsTail-trans text (c ∷ after) t tail h, dark)

until_char-Stays :
    {T : Type 0} (t : Integer T) (text : Bytes) (base c : ℕ)
    → OnSome (Stays c text) (string_to_integer_until_char t text base c).1
unfolding string_to_integer_until_char
until_char-Stays {T = T} t text base c = go (extract_until_char text c) (extract_lem text c)
  where
    pick :
        (value : T) (after : Bytes) (b : Bool)
        → IsTail text (c ∷ after)
        → let r : T × Option Bytes =
            if b
            then (t.zero_value, none)
            else (value, some (skip_while_whitespace (c ∷ after) c)) in
          OnSome (Stays c text) r.1
    pick value after true h = tt
    pick value after false h = (after, h, refl)

    go :
        (o : Option (Bytes × Bytes))
        → OnSome (λ (r : Bytes × Bytes). text ≡ r.0 ++ (c ∷ r.1)) o
        → let r : T × Option Bytes = elim o [
          | none ↦ (t.zero_value, none)
          | some (before, after) ↦
              let (value, endptr) = t.string_to_integer before base in
              if not (elim endptr [ [] ↦ true | x ∷ more ↦ false ])
              then (t.zero_value, none)
              else (value, some (skip_while_whitespace (c ∷ after) c))
        ] in
          OnSome (Stays c text) r.1
    go none h = tt
    go (some (before, after)) h =
        pick (t.string_to_integer before base).0 after
          (not (elim (t.string_to_integer before base).1 [ [] ↦ true | x ∷ more ↦ false ]))
          (before, h)

read_integer-Behind :
    {T : Type 0} (t : Integer T) (text : Bytes) (base c : ℕ)
    → OnSome (λ r. Behind c text r.1) (read_integer t text base c)
unfolding read_integer step_over
read_integer-Behind {T = T} t text base c =
    go (string_to_integer_until_char t text base c).1 (until_char-Stays t text base c)
  where
    result : T
    result = (string_to_integer_until_char t text base c).0

    over :
        (o : Option Bytes)
        → OnSome (Behind c text) o
        → OnSome
            (λ (r : T × Bytes). Behind c text r.1)
            (elim o [ none ↦ none | some next ↦ some (result, next) ])
    over none h = tt
    over (some next) h = h

    go :
        (o : Option Bytes)
        → OnSome (Stays c text) o
        → OnSome
            (λ (r : T × Bytes). Behind c text r.1)
            (elim (step_over o) [ none ↦ none | some next ↦ some (result, next) ])
    go none h = tt
    go (some ptr) h = over (step_over (some ptr)) (step-Behind c text ptr h)

copy_string-Stays :
    (text : Bytes) (out_len c : ℕ)
    → OnSome (λ r. Stays c text r.1) (copy_string_until_char text out_len c)
unfolding copy_string_until_char
copy_string-Stays text out_len c = go (extract_until_char text c) (extract_lem text c)
  where
    go :
        (o : Option (Bytes × Bytes))
        → OnSome (λ (r : Bytes × Bytes). text ≡ r.0 ++ (c ∷ r.1)) o
        → OnSome
            (λ (r : Bytes × Bytes). Stays c text r.1)
            (elim o [
              | none ↦ none
              | some (before, after) ↦
                  some (take (out_len - 1) before, skip_while_whitespace (c ∷ after) c)
            ])
    go none h = tt
    go (some (before, after)) h = (after, (before, h), refl)

not_at_end-tail : (text : Bytes) → OnSome (λ t. t ≡ text) (not_at_end text)
unfolding not_at_end
not_at_end-tail [] = tt
not_at_end-tail (c ∷ text) = refl

-- The name of a line, as it stands at the offset that is reported.
abbrev pub name_of : Bytes → Fields → Bytes
name_of text fields = drop fields.filename_offset text

HasName : Bytes → Fields → Type 0
HasName text fields = IsTail text (name_of text fields) × StartsDark (name_of text fields)

tail-HasName :
    (text endptr : Bytes) (fields : Fields)
    → fields.filename_offset ≡ length text - length endptr
    → IsTail text endptr
    → StartsDark endptr
    → HasName text fields
unfolding HasName
tail-HasName text endptr fields at (front, e) dark =
    let here : name_of text fields ≡ endptr =
      ap₂ drop
        (at ∙ ap (λ t. length t - length endptr) e ∙ omega (arith, length-append front endptr)) e
      ∙ drop_append front endptr in
    rw here ((front, e), dark)

line-HasName : (text : Bytes) → OnSome (HasName text) (parse_proc_maps_line text)
unfolding parse_proc_maps_line is_space
line-HasName text =
    OnSome-bind (λ (t : Bytes). t ≡ text) (HasName text) (not_at_end text) _ (not_at_end-tail text)
      (λ text' same.
        OnSome-bind (λ (r : ℕ × Bytes). Behind b'-' text' r.1) (HasName text) _ _
          (read_integer-Behind uint64_type text' 16 b'-')
          (λ start t1.
            OnSome-bind (λ (r : ℕ × Bytes). Behind b' ' start.1 r.1) (HasName text) _ _
              (read_integer-Behind uint64_type start.1 16 b' ')
              (λ end t2.
                OnSome-bind (λ (r : Bytes × Bytes). Stays b' ' end.1 r.1) (HasName text) _ _
                  (copy_string-Stays end.1 5 b' ')
                  (λ flags t3.
                    OnSome-bind (λ (t : Bytes). Behind b' ' end.1 t) (HasName text) _ _
                      (step-Behind b' ' end.1 flags.1 t3)
                      (λ behind t4.
                        OnSome-bind (λ (r : ℕ × Bytes). Behind b' ' behind r.1) (HasName text) _ _
                          (read_integer-Behind uint64_type behind 16 b' ')
                          (λ offset t5.
                            OnSome-bind (λ (r : ℤ × Bytes). Behind b':' offset.1 r.1) (HasName text)
                              _ _ (read_integer-Behind int_type offset.1 16 b':')
                              (λ major t6.
                                OnSome-bind (λ (r : ℤ × Bytes). Behind b' ' major.1 r.1)
                                  (HasName text) _ _ (read_integer-Behind int_type major.1 16 b' ')
                                  (λ minor t7.
                                    OnSome-bind (λ (r : ℤ × Bytes). Behind b' ' minor.1 r.1)
                                      (HasName text) _ _
                                      (read_integer-Behind int64_type minor.1 10 b' ')
                                      (λ inode t8.
                                        let tail7 =
                                          IsTail-trans minor.1 inode.1 inode.1 t8.0 ([], refl) in
                                        let tail6 =
                                          IsTail-trans major.1 minor.1 inode.1 t7.0 tail7 in
                                        let tail5 =
                                          IsTail-trans offset.1 major.1 inode.1 t6.0 tail6 in
                                        let tail4 =
                                          IsTail-trans behind offset.1 inode.1 t5.0 tail5 in
                                        let tail3 = IsTail-trans end.1 behind inode.1 t4.0 tail4 in
                                        let tail2 = IsTail-trans start.1 end.1 inode.1 t2.0 tail3 in
                                        let tail1 = IsTail-trans text' start.1 inode.1 t1.0 tail2 in
                                        tail-HasName text inode.1 _ refl
                                          (subst (λ t. IsTail t inode.1) same tail1)
                                          (t8.1 refl))))))))))

-- The name that the line parser reports is the end of the line, and does not begin with white space.
pub parse_proc_maps_line-name :
    (text : Bytes) (fields : Fields)
    → parse_proc_maps_line text ≡ some fields
    → IsTail text (name_of text fields) × StartsDark (name_of text fields)
unfolding HasName
parse_proc_maps_line-name text fields e = subst (OnSome (HasName text)) e (line-HasName text)
