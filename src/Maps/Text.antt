-- ===== src/Maps/Text.antt =====
-- src/sysinfo.cpp, the helpers of the line parser. A `char *` is the text from there up to its NUL.
-- ExtractUntilChar's NUL is written back by every caller, so the text itself does not change.
pub mod Laws
use jointprof.Clib.Chars.{is_space}
use jointprof.Clib.Strto.{strtoll, strtoull}
use jointprof.Common.{
  ℕ, ◌-◌, Bool, true, false, not, ◌&&◌, Option, none, some, List, [], ◌∷◌, ◌==◌, if◌then◌else◌,
  Bytes, take, ℤ, pos, to_int,
}

-- ExtractUntilChar: the text as it reads with a NUL at the first `c`, and what stands behind that
-- place; `none` if there is no `c`.
unfoldable pub extract_until_char : Bytes → ℕ → Option (Bytes × Bytes)
extract_until_char [] c = none
extract_until_char (x ∷ text) c =
    let rest = extract_until_char text c in
    if x == c
    then some ([], text)
    else elim rest [ none ↦ none | some (before, after) ↦ some (x ∷ before, after) ]

-- The loop of SkipWhileWhitespace.
unfoldable pub skip_loop : Bytes → Bytes
skip_loop [] = []
skip_loop (a ∷ []) = a ∷ []
skip_loop (a ∷ b ∷ text) =
    let rest = skip_loop (b ∷ text) in if is_space a && is_space b then rest else a ∷ b ∷ text

-- SkipWhileWhitespace
unfoldable pub skip_while_whitespace : Bytes → ℕ → Bytes
unfolding skip_loop
skip_while_whitespace text c = if is_space c then skip_loop text else text

-- An integer type of the template: its zero and its StringToInteger.
pub record Integer {ℓ} (T : Type ℓ) : Type ℓ where
  pub zero_value : T
  pub string_to_integer : Bytes → ℕ → T × Bytes

-- StringToInteger<int>: the `long` of strtol is narrowed.
abbrev pub int_type : Integer ℤ
int_type = record {
  zero_value = pos 0;
  string_to_integer = λ text base. let (n, rest) = strtoll text base in (to_int n, rest);
}

-- StringToInteger<int64>
abbrev pub int64_type : Integer ℤ
int64_type = record { zero_value = pos 0; string_to_integer = strtoll }

-- StringToInteger<uint64>
abbrev pub uint64_type : Integer ℕ
uint64_type = record { zero_value = 0; string_to_integer = strtoull }

is_end : Bytes → Bool
is_end [] = true
is_end (c ∷ text) = false

-- StringToIntegerUntilChar: the result, and `*endptr_result` (`none` for NULL). The conversion runs
-- on the text cut at `c`, and must stop exactly at the cut.
unfoldable pub string_to_integer_until_char {ℓ} :
    {T : Type ℓ} → Integer T → Bytes → ℕ → ℕ → T × Option Bytes
unfolding is_end
string_to_integer_until_char t text base c = elim (extract_until_char text c) [
  | none ↦ (t.zero_value, none)
  | some (before, after) ↦
      let (result, endptr) = t.string_to_integer before base in
      if not (is_end endptr)
      then (t.zero_value, none)
      else (result, some (skip_while_whitespace (c ∷ after) c))
]

-- CopyStringUntilChar: what `out` holds, as a C string, and the returned pointer.
unfoldable pub copy_string_until_char : Bytes → ℕ → ℕ → Option (Bytes × Bytes)
copy_string_until_char text out_len c = elim (extract_until_char text c) [
  | none ↦ none
  | some (before, after) ↦ some (take (out_len - 1) before, skip_while_whitespace (c ∷ after) c)
]

-- `if (endptr == NULL || *endptr == '\0') return false; ++endptr;`
unfoldable pub step_over : Option Bytes → Option Bytes
step_over none = none
step_over (some []) = none
step_over (some (c ∷ text)) = some text

-- StringToIntegerUntilCharWithCheck: the result and the new `*endptr`, `none` for false.
unfoldable pub string_to_integer_until_char_with_check {ℓ} :
    {T : Type ℓ} → Integer T → Bytes → ℕ → ℕ → Option (T × Bytes)
unfolding step_over
string_to_integer_until_char_with_check t endptr base c =
    let (result, found) = string_to_integer_until_char t endptr base c in
    elim (step_over found) [ none ↦ none | some next ↦ some (result, next) ]
