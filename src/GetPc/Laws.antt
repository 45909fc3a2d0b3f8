-- ===== src/GetPc/Laws.antt =====
-- GetPC around the entry of a function, on Linux/i386.
use jointprof.GetPc.{
  callunrollinfo, move, matches, read_pointer, unroll, has_high_bits, lacks_high_bits, get_pc_i386,
  i386, UContext, get_pc,
}
use jointprof.Common.{
  ℕ, ◌+◌, ◌-◌, ◌*◌, ◌^◌, ◌≤◌, ◌<◌, ◌≡◌, refl, ap, ◌∙◌, true, false, ◌&&◌, ◌⊎◌, inl, inr, [], ◌∷◌,
  ltb, leb, if◌then◌else◌, pos, negsuc, arith,
}

-- The machine: its two registers and its memory.
pub record Machine : Type 0 where
  pub eip : ℕ
  pub esp : ℕ
  pub memory : ℕ → ℕ

abbrev pub observed : Machine → UContext
observed m = record { eip = m.eip; esp = m.esp; pc_from_ucontext = m.eip }

-- The step of `push %ebp`: one instruction byte, and a word on the stack.
unfoldable pub push_ebp : (ℕ → ℕ) → Machine → Machine
push_ebp saved m = record {
  eip = m.eip + 1;
  esp = m.esp - 4;
  memory = λ p. if leb (m.esp - 4) p && ltb p m.esp then saved p else m.memory p;
}

-- The machine stands at the entry of a function, `push %ebp; mov %esp,%ebp`, in sound ranges, with
-- its stack apart from the code.
pub record AtEntry (m : Machine) : Type 0 where
  pub push_byte : m.memory m.eip ≡ 85
  pub move_byte : m.memory (m.eip + 1) ≡ 137
  pub modrm_byte : m.memory (m.eip + 2) ≡ 229
  pub code_low : 2 ^ 16 ≤ m.eip
  pub code_high : m.eip + 1 < 2 ^ 32 - 2 ^ 16
  pub stack_low : 2 ^ 16 + 4 ≤ m.esp
  pub stack_high : m.esp + 4 ≤ 2 ^ 32
  pub apart : (m.esp ≤ m.eip) ⊎ (m.eip + 3 ≤ m.esp - 4)

-- The word on top of the stack: the address that the call left.
unfoldable pub return_address : Machine → ℕ
return_address m =
    m.memory m.esp
    + 2 ^ 8 * m.memory (m.esp + 1)
    + 2 ^ 16 * m.memory (m.esp + 2)
    + 2 ^ 24 * m.memory (m.esp + 3)

move_pos : (p n : ℕ) → p + n < 2 ^ 32 → move p (pos n) ≡ p + n
unfolding move
move_pos p n h = omega arith

move_zero : (p : ℕ) → p < 2 ^ 32 → move p (pos 0) ≡ p
unfolding move
move_zero p h = omega arith

move_back : (p : ℕ) → p < 2 ^ 32 → move (p + 1) (negsuc 0) ≡ p
unfolding move
move_back p h = omega arith

matches-entry :
    (memory : ℕ → ℕ) (p : ℕ)
    → p + 3 < 2 ^ 32
    → memory p ≡ 85
    → memory (p + 1) ≡ 137
    → memory (p + 2) ≡ 229
    → matches memory p (85 ∷ 137 ∷ 229 ∷ []) ≡ true
unfolding matches
matches-entry memory p h a b c =
    let next : p + 1 + 1 ≡ p + 2 = omega arith in
    rw (move_pos p 1 (omega arith), move_pos (p + 1) 1 (omega arith))
      (rw (a, b, ap memory next ∙ c) refl)

read_pointer_lem :
    (m : Machine) → m.esp + 4 ≤ 2 ^ 32 → read_pointer m.memory m.esp ≡ return_address m
unfolding read_pointer return_address
read_pointer_lem m h =
    rw
      (
        move_pos m.esp 1 (omega arith),
        move_pos m.esp 2 (omega arith),
        move_pos m.esp 3 (omega arith),
      )
      refl

looks_sound :
    (eip esp : ℕ)
    → 2 ^ 16 ≤ eip
    → eip < 2 ^ 32 - 2 ^ 16
    → 2 ^ 16 ≤ esp
    → has_high_bits eip && lacks_high_bits eip && has_high_bits esp ≡ true
unfolding has_high_bits lacks_high_bits
looks_sound eip esp a b c = ground arith

entry_first :
    (m : Machine) → AtEntry m → unroll m.memory m.eip m.esp callunrollinfo ≡ return_address m
unfolding unroll
entry_first m a =
    rw
      (
        move_zero m.eip (omega (arith, a.code_high)),
        matches-entry m.memory m.eip (omega (arith, a.code_high)) a.push_byte a.move_byte
            a.modrm_byte,
        move_zero m.esp (omega (arith, a.stack_high)),
      )
      (read_pointer_lem m a.stack_high)

no_entry :
    (memory : ℕ → ℕ) (p : ℕ) → memory p ≡ 137 → matches memory p (85 ∷ 137 ∷ 229 ∷ []) ≡ false
unfolding matches
no_entry memory p e = rw e refl

-- The push writes nowhere else.
push_ebp-elsewhere :
    (m : Machine) (saved : ℕ → ℕ) (p : ℕ)
    → (p < m.esp - 4) ⊎ (m.esp ≤ p)
    → (push_ebp saved m).memory p ≡ m.memory p
unfolding push_ebp
push_ebp-elsewhere m saved p (inl below) =
    let outside : leb (m.esp - 4) p && ltb p m.esp ≡ false = ground arith in rw outside refl
push_ebp-elsewhere m saved p (inr above) =
    let outside : leb (m.esp - 4) p && ltb p m.esp ≡ false = ground arith in rw outside refl

push_ebp-code :
    (m : Machine) (saved : ℕ → ℕ) (p : ℕ)
    → (m.esp ≤ m.eip) ⊎ (m.eip + 3 ≤ m.esp - 4)
    → m.eip ≤ p
    → p < m.eip + 3
    → (push_ebp saved m).memory p ≡ m.memory p
push_ebp-code m saved p (inl above) h k = push_ebp-elsewhere m saved p (inr (omega arith))
push_ebp-code m saved p (inr below) h k = push_ebp-elsewhere m saved p (inl (omega arith))

push_ebp-return_address :
    (m : Machine) (saved : ℕ → ℕ)
    → m.esp + 4 ≤ 2 ^ 32
    → read_pointer (push_ebp saved m).memory m.esp ≡ return_address m
unfolding read_pointer return_address
push_ebp-return_address m saved h =
    let same = λ (n : ℕ). push_ebp-elsewhere m saved (m.esp + n) (inr (omega arith)) in
    rw
      (
        move_pos m.esp 1 (omega arith),
        move_pos m.esp 2 (omega arith),
        move_pos m.esp 3 (omega arith),
      )
      (rw (push_ebp-elsewhere m saved m.esp (inr (omega arith)), same 1, same 2, same 3) refl)

entry_second :
    (m : Machine) (saved : ℕ → ℕ)
    → AtEntry m
    → unroll (push_ebp saved m).memory (m.eip + 1) (m.esp - 4) callunrollinfo ≡ return_address m
unfolding unroll
entry_second m saved a =
    let memory = (push_ebp saved m).memory in
    let code = λ (p : ℕ) (h : m.eip ≤ p) (k : p < m.eip + 3). push_ebp-code m saved p a.apart h k in
    let up : m.esp - 4 + 4 ≡ m.esp = omega (arith, a.stack_low) in
    rw
      (
        move_zero (m.eip + 1) (omega (arith, a.code_high)),
        no_entry memory (m.eip + 1) (code (m.eip + 1) (omega arith) (omega arith) ∙ a.move_byte),
        move_back m.eip (omega (arith, a.code_high)),
        matches-entry memory m.eip (omega (arith, a.code_high))
            (code m.eip (omega arith) (omega arith) ∙ a.push_byte)
            (code (m.eip + 1) (omega arith) (omega arith) ∙ a.move_byte)
            (code (m.eip + 2) (omega arith) (omega arith) ∙ a.modrm_byte),
        move_pos (m.esp - 4) 4 (omega (arith, a.stack_high, up)),
        up,
      )
      (push_ebp-return_address m saved a.stack_high)

-- At the entry of a function, before its frame is set up, GetPC returns the address that the call left
-- on the stack; and it returns the same address when `push %ebp` has run, whatever %ebp held. The
-- ranges of %eip and %esp are those that GetPC takes for reasonable, and the stack does not reach into
-- the code.
pub get_pc-push_ebp :
    (m : Machine) (saved : ℕ → ℕ)
    → AtEntry m
    → let m' = push_ebp saved m in
      (get_pc i386 m.memory (observed m) ≡ return_address m)
      × (get_pc i386 m'.memory (observed m') ≡ return_address m)
unfolding get_pc get_pc_i386 push_ebp
get_pc-push_ebp m saved a = (
  rw (looks_sound m.eip m.esp a.code_low (omega (arith, a.code_high)) (omega (arith, a.stack_low)))
      (entry_first m a),
  rw
      (looks_sound (m.eip + 1) (m.esp - 4) (omega (arith, a.code_low)) a.code_high
        (omega (arith, a.stack_low)))
      (entry_second m saved a),
)
