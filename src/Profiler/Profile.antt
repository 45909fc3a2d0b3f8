-- ===== src/Profiler/Profile.antt =====
-- The format of the file that a session writes, as a reader of CPU profiles takes it: a header of
-- five words, records of a count, a depth and a stack, the record that ends them, then text.
pub mod RoundTrip
use jointprof.Profiler.Words.{read_word}
use jointprof.Common.{
  ℕ, zero, suc, Bool, true, false, not, ◌&&◌, Option, none, some, ◌>>=◌, List, [], ◌∷◌, ◌==◌,
  if◌then◌else◌, Bytes, length,
}

-- A sample: how often, and the stack.
abbrev pub Sample : Type 0
Sample = ℕ × List ℕ

pub record Profile : Type 0 where
  pub period : ℕ
  pub samples : List Sample
  pub maps : Bytes

unfoldable pub read_words : ℕ → Bytes → Option (List ℕ × Bytes)
read_words zero text = some ([], text)
read_words (suc n) text = do
  (w, text) ← read_word text
  (words, text) ← read_words n text
  some (w ∷ words, text)

unfoldable pub read_record : Bytes → Option (Sample × Bytes)
read_record text = do
  (count, text) ← read_word text
  (depth, text) ← read_word text
  (stack, text) ← read_words depth text
  some ((count, stack), text)

-- The record that ends the samples: the count zero, with the one-word stack zero.
unfoldable pub is_trailer : Sample → Bool
is_trailer (count, []) = false
is_trailer (count, pc ∷ []) = count == 0 && pc == 0
is_trailer (count, pc ∷ caller ∷ stack) = false

-- The samples up to the trailer, and the text behind it; at most `fuel` records.
unfoldable pub read_samples : ℕ → Bytes → Option (List Sample × Bytes)
read_samples zero text = none
read_samples (suc fuel) text = do
  (sample, text) ← read_record text
  let more = do (samples, text) ← read_samples fuel text; some (sample ∷ samples, text)
  if is_trailer sample then some ([], text) else more

-- The first word is zero, the second counts the header words behind it: a version of zero, the
-- sampling period, padding.
unfoldable pub read_profile : Bytes → Option Profile
read_profile text = do
  (first, text) ← read_word text
  (size, text) ← read_word text
  (version, text) ← read_word text
  (period, text) ← read_word text
  (padding, text) ← read_word text
  if not (first == 0 && size == 3 && version == 0) then none else do
    (samples, maps) ← read_samples (length text) text
    some (record { period = period; samples = samples; maps = maps })
