-- ===== src/Maps/Line/Ranges.antt =====
-- src/sysinfo.cpp, the values of ParseProcMapsLine fit the variables that take them.
use jointprof.Clib.Strto.{clamp_unsigned, clamp_signed, strtoll, strtoull, scan}
use jointprof.Maps.Line.{Fields, not_at_end, parse_proc_maps_line}
use jointprof.Maps.Text.{
  Integer, int_type, int64_type, uint64_type, extract_until_char, string_to_integer_until_char,
  skip_while_whitespace, copy_string_until_char, step_over,
  string_to_integer_until_char_with_check as read_integer,
}
use jointprof.Common.{
  OnSome, OnSome-bind, OnSome-true, ℕ, zero, suc, ◌-◌, ◌^◌, ◌<◌, ◌≤◌, ◌≡◌, subst, Bool, true, false,
  Option, none, some, [], ◌∷◌, Bytes, length, length-take, take, ltb, if◌then◌else◌, Bool-cases,
  inl, inr, not, ℤ, pos, negsuc, IsInt64, signed32, to_int, arith,
}

abbrev IsInt32 : ℤ → Type 0
IsInt32 (pos n) = n < 2 ^ 31
IsInt32 (negsuc n) = n < 2 ^ 31

-- What stands in the variables: uint64, int and int64, and at most four characters and a NUL in
-- flags_.
pub record Fits (f : Fields) : Type 0 where
  pub start : f.start < 2 ^ 64
  pub end : f.end < 2 ^ 64
  pub flags : length f.flags ≤ 4
  pub offset : f.offset < 2 ^ 64
  pub major : IsInt32 f.major
  pub minor : IsInt32 f.minor
  pub inode : IsInt64 f.inode

clamp_unsigned_bound : (minus : Bool) (n : ℕ) → clamp_unsigned minus n < 2 ^ 64
unfolding clamp_unsigned
clamp_unsigned_bound true n = ground arith
clamp_unsigned_bound false n = ground arith

clamp_signed-IsInt64 : (minus : Bool) (n : ℕ) → IsInt64 (clamp_signed minus n)
unfolding clamp_signed
clamp_signed-IsInt64 true zero = omega arith
clamp_signed-IsInt64 true (suc n) = elim (Bool-cases (ltb (2 ^ 63) (suc n))) [
  | inl e ↦ rw e (omega arith)
  | inr e ↦ rw e (ground arith)
]
clamp_signed-IsInt64 false n = elim (Bool-cases (ltb (2 ^ 63 - 1) n)) [
  | inl e ↦ rw e (omega arith)
  | inr e ↦ rw e (ground arith)
]

signed32-IsInt32 : (w : ℕ) → w < 2 ^ 32 → IsInt32 (signed32 w)
signed32-IsInt32 w h = elim (Bool-cases (ltb w (2 ^ 31))) [
  | inl e ↦ rw e (ground arith)
  | inr e ↦ rw e (ground arith)
]

to_int-IsInt32 : (i : ℤ) → IsInt32 (to_int i)
to_int-IsInt32 (pos n) = signed32-IsInt32 _ (omega arith)
to_int-IsInt32 (negsuc n) = signed32-IsInt32 _ (omega arith)

strtoull_bound : (text : Bytes) (base : ℕ) → (strtoull text base).0 < 2 ^ 64
unfolding strtoull
strtoull_bound text base = go (scan base text)
  where
    go :
        (o : Option (Bool × ℕ × Bytes))
        → let r : ℕ × Bytes = elim o [
          | none ↦ (0, text)
          | some (minus, n, rest) ↦ (clamp_unsigned minus n, rest)
        ] in
          r.0 < 2 ^ 64
    go none = omega arith
    go (some (minus, n, rest)) = clamp_unsigned_bound minus n

strtoll-IsInt64 : (text : Bytes) (base : ℕ) → IsInt64 (strtoll text base).0
unfolding strtoll
strtoll-IsInt64 text base = go (scan base text)
  where
    go :
        (o : Option (Bool × ℕ × Bytes))
        → let r : ℤ × Bytes = elim o [
          | none ↦ (pos 0, text)
          | some (minus, n, rest) ↦ (clamp_signed minus n, rest)
        ] in
          IsInt64 r.0
    go none = omega arith
    go (some (minus, n, rest)) = clamp_signed-IsInt64 minus n

module _ {ℓ κ} {T : Type ℓ} (P : T → Type κ) (t : Integer T) (zero_holds : P t.zero_value)
    (holds : (text : Bytes) (base : ℕ) → P (t.string_to_integer text base).0) where
  until_char_lem :
      (endptr : Bytes) (base c : ℕ) → P (string_to_integer_until_char t endptr base c).0
  unfolding string_to_integer_until_char
  until_char_lem endptr base c = go (extract_until_char endptr c)
    where
      pick :
          (value : T) (rest : Option Bytes) (b : Bool)
          → P value
          → let r : T × Option Bytes = if b then (t.zero_value, none) else (value, rest) in P r.0
      pick value rest true h = zero_holds
      pick value rest false h = h

      go :
          (o : Option (Bytes × Bytes))
          → let r : T × Option Bytes = elim o [
            | none ↦ (t.zero_value, none)
            | some (before, after) ↦
                let (value, endptr) = t.string_to_integer before base in
                if not (elim endptr [ [] ↦ true | x ∷ more ↦ false ])
                then (t.zero_value, none)
                else (value, some (skip_while_whitespace (c ∷ after) c))
          ] in
            P r.0
      go none = zero_holds
      go (some (before, after)) =
          pick (t.string_to_integer before base).0 (some (skip_while_whitespace (c ∷ after) c))
            (not (elim (t.string_to_integer before base).1 [ [] ↦ true | x ∷ more ↦ false ]))
            (holds before base)

  -- An integer of the template that is read satisfies what its conversion and its zero do.
  read_integer_lem :
      (endptr : Bytes) (base c : ℕ) → OnSome (λ r. P r.0) (read_integer t endptr base c)
  unfolding read_integer
  read_integer_lem endptr base c = go (step_over (string_to_integer_until_char t endptr base c).1)
    where
      result : T
      result = (string_to_integer_until_char t endptr base c).0

      go :
          (o : Option Bytes)
          → OnSome
              (λ (r : T × Bytes). P r.0)
              (elim o [ none ↦ none | some next ↦ some (result, next) ])
      go none = tt
      go (some next) = until_char_lem endptr base c

copy_lem :
    (text : Bytes) (out_len c : ℕ)
    → OnSome (λ r. length r.0 ≤ out_len - 1) (copy_string_until_char text out_len c)
unfolding copy_string_until_char
copy_lem text out_len c = go (extract_until_char text c)
  where
    go :
        (o : Option (Bytes × Bytes))
        → OnSome
            (λ (r : Bytes × Bytes). length r.0 ≤ out_len - 1)
            (elim o [
              | none ↦ none
              | some (before, after) ↦
                  some (take (out_len - 1) before, skip_while_whitespace (c ∷ after) c)
            ])
    go none = tt
    go (some (before, after)) = omega (arith, length-take (out_len - 1) before)

uread_wide-IsInt64 :
    (endptr : Bytes) (base c : ℕ)
    → OnSome (λ r. r.0 < 2 ^ 64) (read_integer uint64_type endptr base c)
uread_wide-IsInt64 = read_integer_lem (λ n. n < 2 ^ 64) uint64_type (omega arith) strtoull_bound

read_int-IsInt32 :
    (endptr : Bytes) (base c : ℕ) → OnSome (λ r. IsInt32 r.0) (read_integer int_type endptr base c)
read_int-IsInt32 =
    read_integer_lem IsInt32 int_type (omega arith)
      (λ text base. to_int-IsInt32 (strtoll text base).0)

read_wide-IsInt64 :
    (endptr : Bytes) (base c : ℕ)
    → OnSome (λ r. IsInt64 r.0) (read_integer int64_type endptr base c)
read_wide-IsInt64 = read_integer_lem IsInt64 int64_type (omega arith) strtoll-IsInt64

line-Fits : (text : Bytes) → OnSome Fits (parse_proc_maps_line text)
unfolding parse_proc_maps_line
line-Fits text =
    OnSome-bind (λ _. Unit {0}) Fits (not_at_end text) _ (OnSome-true (not_at_end text))
      (λ text _.
        OnSome-bind (λ (r : ℕ × Bytes). r.0 < 2 ^ 64) Fits _ _ (uread_wide-IsInt64 text 16 b'-')
          (λ start start_fits.
            OnSome-bind (λ (r : ℕ × Bytes). r.0 < 2 ^ 64) Fits _ _
              (uread_wide-IsInt64 start.1 16 b' ')
              (λ end end_fits.
                OnSome-bind (λ (r : Bytes × Bytes). length r.0 ≤ 4) Fits _ _ (copy_lem end.1 5 b' ')
                  (λ flags flags_fit.
                    OnSome-bind (λ _. Unit {0}) Fits _ _ (OnSome-true (step_over (some flags.1)))
                      (λ behind _.
                        OnSome-bind (λ (r : ℕ × Bytes). r.0 < 2 ^ 64) Fits _ _
                          (uread_wide-IsInt64 behind 16 b' ')
                          (λ offset offset_fits.
                            OnSome-bind (λ (r : ℤ × Bytes). IsInt32 r.0) Fits _ _
                              (read_int-IsInt32 offset.1 16 b':')
                              (λ major major_fits.
                                OnSome-bind (λ (r : ℤ × Bytes). IsInt32 r.0) Fits _ _
                                  (read_int-IsInt32 major.1 16 b' ')
                                  (λ minor minor_fits.
                                    OnSome-bind (λ (r : ℤ × Bytes). IsInt64 r.0) Fits _ _
                                      (read_wide-IsInt64 minor.1 10 b' ')
                                      (λ inode inode_fits. record {
                                        start = start_fits;
                                        end = end_fits;
                                        flags = flags_fit;
                                        offset = offset_fits;
                                        major = major_fits;
                                        minor = minor_fits;
                                        inode = inode_fits;
                                      })))))))))

-- Whatever the line holds, what ParseProcMapsLine reads from it fits the variables that take it: the
-- addresses and the offset are below 2 ^ 64, the device numbers are values of int, the inode is one of int64, and the
-- flags have at most four characters.
pub parse_proc_maps_line-Fits :
    (text : Bytes) (fields : Fields) → parse_proc_maps_line text ≡ some fields → Fits fields
parse_proc_maps_line-Fits text fields e = subst (OnSome Fits) e (line-Fits text)
