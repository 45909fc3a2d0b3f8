-- ===== src/Profiler/Profile/RoundTrip.antt =====
-- The reader of the format on the file of a session.
use jointprof.Profiler.Defs.{SigAction, Stream, Process, header_words, trailer_words, Context}
use jointprof.Profiler.Profile.{
  Sample, read_words, read_record, is_trailer, read_samples, read_profile,
}
use jointprof.Profiler.Session.{
  IsContext, CanStart, recorded_stack, context_stack, samples_bytes, session, session_lem,
}
use jointprof.Profiler.Trace.Laws.{sample}
use jointprof.Profiler.Words.{word_bytes, words_bytes, read_word, read_word-word_bytes}
use jointprof.Common.{
  ℕ, zero, suc, ◌≤◌, ◌<◌, ◌^◌, ◌≡◌, refl, ap, ◌∙◌, false, some, ◌>>=◌, bind_some, List, [], ◌∷◌,
  ◌++◌, append_assoc, arith, ◌==◌, Bytes, length, length-append, All, map, ◌&&◌, ltb, Bool-cases,
  ◌⊎◌, inl, inr,
}

abbrev pub AreWords : List ℕ → Type 0
AreWords = All (λ w. w < 2 ^ 64)

read_words-words_bytes :
    (words : List ℕ) (rest : Bytes)
    → AreWords words
    → read_words (length words) (words_bytes words ++ rest) ≡ some (words, rest)
unfolding read_words words_bytes
read_words-words_bytes [] rest _ = refl
read_words-words_bytes (w ∷ words) rest (h, hs) = rw append_assoc (
    bind_some _ (read_word-word_bytes w (words_bytes words ++ rest) h)
    ∙ bind_some _ (read_words-words_bytes words rest hs))

-- A record is read back.
read_record-record :
    (count : ℕ) (stack : List ℕ) (rest : Bytes)
    → count < 2 ^ 64
    → length stack < 2 ^ 64
    → AreWords stack
    → read_record (words_bytes (count ∷ (length stack ∷ stack)) ++ rest)
      ≡ some ((count, stack), rest)
unfolding read_record words_bytes
read_record-record count stack rest h k hs =
    rw (append_assoc, append_assoc)
      (bind_some _
          (read_word-word_bytes count (word_bytes (length stack) ++ (words_bytes stack ++ rest)) h)
        ∙ bind_some _ (read_word-word_bytes (length stack) (words_bytes stack ++ rest) k)
        ∙ bind_some _ (read_words-words_bytes stack rest hs))

-- The program counter and the frames of a signal are words.
pub record HasWords (ctx : Context) : Type 0 where
  pub pc_word : ctx.pc < 2 ^ 64
  pub frame_words : AreWords ctx.frames

recorded_cases :
    (stack : List ℕ) (pc : ℕ) (frames : List ℕ)
    → (recorded_stack stack pc frames ≡ frames) ⊎ (recorded_stack stack pc frames ≡ pc ∷ frames)
recorded_cases [] pc frames = inr refl
recorded_cases (a ∷ []) pc frames = inr refl
recorded_cases (a ∷ b ∷ rest) pc frames = elim (Bool-cases (ltb 0 (length frames) && b == a)) [
  | inl e ↦ inl (rw e)
  | inr e ↦ inr (rw e)
]

context_stack-AreWords :
    (ctx : Context)
    → IsContext ctx
    → HasWords ctx
    → AreWords (context_stack ctx) × (length (context_stack ctx) < 2 ^ 64)
context_stack-AreWords ctx c h = elim (recorded_cases ctx.stack ctx.pc ctx.frames) [
  | inl e ↦ rw e (h.frame_words, omega (arith, c.limit))
  | inr e ↦ rw e ((h.pc_word, h.frame_words), omega (arith, c.limit))
]

one_no_trailer : (stack : List ℕ) → is_trailer (1, stack) ≡ false
unfolding is_trailer
one_no_trailer [] = refl
one_no_trailer (pc ∷ []) = refl
one_no_trailer (pc ∷ caller ∷ stack) = refl

-- The samples of a session as the format counts them: once each.
abbrev pub session_samples : List Context → List Sample
session_samples = map (λ ctx. (1, context_stack ctx))

read_samples-samples_bytes :
    (ctxs : List Context) (fuel : ℕ) (maps : Bytes)
    → length ctxs < fuel
    → All IsContext ctxs
    → All HasWords ctxs
    → read_samples fuel (samples_bytes ctxs ++ (words_bytes trailer_words ++ maps))
      ≡ some (session_samples ctxs, maps)
unfolding read_samples samples_bytes
read_samples-samples_bytes ctxs zero maps h cs ws = absurd (omega arith)
read_samples-samples_bytes [] (suc fuel) maps h cs ws =
    bind_some _ (read_record-record 0 (0 ∷ []) maps (omega arith) (omega arith) (omega arith))
    ∙ unfold is_trailer in refl
read_samples-samples_bytes (ctx ∷ ctxs) (suc fuel) maps h (c, cs) (w, ws) =
    let (words, depth) = context_stack-AreWords ctx c w in
    let rest = samples_bytes ctxs ++ (words_bytes trailer_words ++ maps) in
    rw append_assoc (
      bind_some _ (read_record-record 1 (context_stack ctx) rest (omega arith) depth words)
      ∙ rw (one_no_trailer (context_stack ctx))
          (bind_some _ (read_samples-samples_bytes ctxs fuel maps (omega arith) cs ws)))

-- Every record takes up some of the text.
length-samples_bytes :
    (ctxs : List Context) (rest : Bytes) → length ctxs ≤ length (samples_bytes ctxs ++ rest)
unfolding samples_bytes words_bytes word_bytes
length-samples_bytes [] rest = omega arith
length-samples_bytes (ctx ∷ ctxs) rest = rw append_assoc (
    omega (
      arith,
      length-append (words_bytes (sample (context_stack ctx))) (samples_bytes ctxs ++ rest),
      length-samples_bytes ctxs rest,
    ))

read_header :
    (rest : Bytes)
    → read_profile (words_bytes header_words ++ rest) ≡ (
        read_samples (length rest) rest >>= λ (found : List Sample × Bytes).
        some (record { period = 20000; samples = found.0; maps = found.1 }))
unfolding read_profile words_bytes word_bytes read_word
read_header rest = refl

fuel_enough :
    (ctxs : List Context) (maps : Bytes)
    → length ctxs < length (samples_bytes ctxs ++ (words_bytes trailer_words ++ maps))
unfolding words_bytes word_bytes
fuel_enough ctxs maps = omega (
  arith,
  length-append (samples_bytes ctxs) (words_bytes trailer_words ++ maps),
  length-samples_bytes ctxs [],
  length-append (samples_bytes ctxs) [],
)

-- The contents that a session leaves are read back.
pub read_profile-contents :
    (ctxs : List Context) (maps : Bytes)
    → All IsContext ctxs
    → All HasWords ctxs
    → read_profile
        (words_bytes header_words ++ (samples_bytes ctxs ++ (words_bytes trailer_words ++ maps)))
      ≡ some (record { period = 20000; samples = session_samples ctxs; maps = maps })
read_profile-contents ctxs maps cs ws =
    read_header (samples_bytes ctxs ++ (words_bytes trailer_words ++ maps))
    ∙ bind_some _ (read_samples-samples_bytes ctxs _ maps (fuel_enough ctxs maps) cs ws)

-- A reader of the format finds in the file that a session leaves the sampling period of 20000, a sample
-- for each signal in order, with its stack, and the given text of the maps. Nothing is published before, the handler
-- of SIGPROF takes one argument and is not the profiler's, the object is live and its stream closed, and the file
-- can be made; the signals find the array and the trace in order, and their program counters
-- and frames are 64-bit words.
pub read_profile-session :
    {Other : Type 0} (foreign : ℕ → SigAction × Other → SigAction × Other) (this : ℕ) (maps : Bytes)
    (ctxs : List Context) (p : Process Other)
    → CanStart this p
    → All IsContext ctxs
    → All HasWords ctxs
    → (p' : Process Other) × (session foreign this maps ctxs p ≡ some p')
      × (read_profile (p'.impls this).ofs.contents
          ≡ some (record { period = 20000; samples = session_samples ctxs; maps = maps }))
read_profile-session foreign this maps ctxs p c cs ws =
    let (p', e, file, _, _, _) = session_lem foreign this maps ctxs p c cs in
    (
      p',
      e,
      ap (λ (s : Stream). read_profile s.contents) file ∙ read_profile-contents ctxs maps cs ws,
    )
