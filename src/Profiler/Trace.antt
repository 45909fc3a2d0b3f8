-- ===== src/Profiler/Trace.antt =====
-- src/profiler.cpp, write_stack_trace.
pub mod Laws
use jointprof.Maps.Memory.{slice, store}
use jointprof.Common.{
  ℕ, ◌+◌, ◌-◌, Option, none, some, List, not, ◌&&◌, ltb, leb, ◌==◌, if◌then◌else◌, length, get_or,
  set,
}

abbrev pub k_max_stack_depth : ℕ
k_max_stack_depth = 64

-- From "First header word" on: the two header words in front of `stack_start`, and the words that
-- are written; `none` is an access past the end of the array.
unfoldable pub write_sample : List ℕ → ℕ → ℕ → Option (List ℕ)
write_sample stack stack_start depth =
    let headed = set (set stack (stack_start - 2) 1) (stack_start - 1) depth in
    let end = stack_start - 2 + (depth + 2) in
    if leb end (length stack) then some (slice headed (stack_start - 2) end) else none

-- The words that write_stack_trace writes. `stack` is what the array of kMaxStackDepth + 2 words
-- holds before; `pc` is what GetPC returns; `frames` are the words that GetStackTraceWithContext
-- stores from `stack + stack_start + 1` on, as many as it returns. The test reads the first two
-- words of the array, as the code does.
unfoldable pub write_stack_trace : List ℕ → ℕ → List ℕ → Option (List ℕ)
write_stack_trace stack pc frames =
    let traced = store (set stack 2 pc) 3 frames in
    let depth = length frames in
    if not (leb (3 + depth) (length stack))
    then none
    else if ltb 0 depth && get_or traced 1 0 == get_or traced 0 0
    then write_sample traced 3 depth
    else write_sample traced 2 (depth + 1)
