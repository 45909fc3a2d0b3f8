-- ===== src/Profiler/Trace/Laws.antt =====
-- src/profiler.cpp, the record that write_stack_trace writes.
use jointprof.Maps.Memory.{store}
use jointprof.Profiler.Trace.{k_max_stack_depth, write_sample, write_stack_trace}
use jointprof.Common.{
  ℕ, ◌+◌, ◌-◌, ◌≤◌, ◌≡◌, ap, ◌∙◌, true, List, [], ◌∷◌, ◌++◌, arith, ◌&&◌, ltb, ◌==◌, if◌then◌else◌,
  leb, some, length, take, drop, length-append, take_append, Bool-cases, inl, inr,
}

-- The record of a call stack: value one, the depth, the stack.
abbrev pub sample : List ℕ → List ℕ
sample stack = 1 ∷ (length stack ∷ stack)

-- The stack that is recorded: where the first two words of the array are equal and there is a frame,
-- the frames alone.
abbrev pub recorded : ℕ → ℕ → ℕ → List ℕ → List ℕ
recorded a b pc frames = if ltb 0 (length frames) && b == a then frames else pc ∷ frames

take_exact : (k : ℕ) (xs post : List ℕ) → k ≡ length xs → take k (xs ++ post) ≡ xs
take_exact k xs post e = rw e (take_append xs post)

-- The record from the third word on, and from the fourth.
write_sample-two :
    (a b : ℕ) (stack post : List ℕ)
    → write_sample (a ∷ b ∷ (stack ++ post)) 2 (length stack) ≡ some (sample stack)
unfolding write_sample
write_sample-two a b stack post =
    let inside : leb (2 - 2 + (length stack + 2)) (length (a ∷ b ∷ (stack ++ post))) ≡ true =
      ground (arith, length-append stack post) in
    rw inside (
      ap some (take_exact (2 - 2 + (length stack + 2) - (2 - 2)) (sample stack) post (omega arith)))

write_sample-three :
    (a b pc : ℕ) (stack post : List ℕ)
    → write_sample (a ∷ b ∷ pc ∷ (stack ++ post)) 3 (length stack) ≡ some (sample stack)
unfolding write_sample
write_sample-three a b pc stack post =
    let inside : leb (3 - 2 + (length stack + 2)) (length (a ∷ b ∷ pc ∷ (stack ++ post))) ≡ true =
      ground (arith, length-append stack post) in
    rw inside (
      ap some (take_exact (3 - 2 + (length stack + 2) - (3 - 2)) (sample stack) post (omega arith)))

-- On an array of 66 words with anything in it, a trace of at most 63 frames stays inside the array,
-- and one sample record is written: the value one, the depth, and the recorded stack.
pub write_stack_trace-sample :
    (a b : ℕ) (rest : List ℕ) (pc : ℕ) (frames : List ℕ)
    → length rest ≡ k_max_stack_depth
    → length frames ≤ k_max_stack_depth - 1
    → write_stack_trace (a ∷ b ∷ rest) pc frames ≡ some (sample (recorded a b pc frames))
unfolding write_stack_trace store
write_stack_trace-sample a b [] pc frames size fits = absurd (omega arith)
write_stack_trace-sample a b (x ∷ rest) pc frames size fits =
    let inside : leb (3 + length frames) (length (a ∷ b ∷ x ∷ rest)) ≡ true = ground arith in
    let post = drop (3 + length frames) (a ∷ b ∷ pc ∷ rest) in
    elim (Bool-cases (ltb 0 (length frames) && b == a)) [
      | inl same ↦ rw (inside, same) (write_sample-three a b pc frames post)
      | inr apart ↦
          rw (inside, apart)
            (ap (write_sample (a ∷ b ∷ pc ∷ (frames ++ post)) 2) (omega arith)
              ∙ write_sample-two a b (pc ∷ frames) post)
    ]
