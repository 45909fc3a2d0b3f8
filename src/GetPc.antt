-- ===== src/GetPc.antt =====
-- src/getpc.h. Addresses and registers are words of 32 bits on Linux/i386; `memory` is the byte
-- at each address.
pub mod Laws
mod Examples
use jointprof.Common.{
  ℕ, ◌+◌, ◌-◌, ◌*◌, ◌/◌, ◌%◌, ◌^◌, Bool, true, false, not, ◌&&◌, List, [], ◌∷◌, ◌==◌, if◌then◌else◌,
  Bytes, ℤ, pos, negsuc,
}

-- struct CallUnrollInfo; `ins` holds the bytes that are matched, `ins_size` of them.
pub record CallUnrollInfo : Type 0 where
  pub pc_offset : ℤ
  pub ins : Bytes
  pub return_sp_offset : ℕ

-- callunrollinfo: the entry to a function, its second instruction, and RET.
abbrev pub callunrollinfo : List CallUnrollInfo
callunrollinfo =
    record { pc_offset = pos 0; ins = 85 ∷ 137 ∷ 229 ∷ []; return_sp_offset = 0 }
    ∷ record { pc_offset = negsuc 0; ins = 85 ∷ 137 ∷ 229 ∷ []; return_sp_offset = 4 }
    ∷ record { pc_offset = pos 0; ins = 195 ∷ []; return_sp_offset = 0 }
    ∷ []

-- An address, moved by an offset.
unfoldable pub move : ℕ → ℤ → ℕ
move address (pos n) = (address + n) % 2 ^ 32
move address (negsuc n) = (address + (2 ^ 32 - 1 - n)) % 2 ^ 32

-- `!memcmp(p, ins, ins_size)`
unfoldable pub matches : (ℕ → ℕ) → ℕ → Bytes → Bool
matches memory p [] = true
matches memory p (b ∷ ins) = memory p == b && matches memory (move p (pos 1)) ins

-- `*retaddr`, little-endian
unfoldable pub read_pointer : (ℕ → ℕ) → ℕ → ℕ
read_pointer memory p =
    memory p
    + 2 ^ 8 * memory (move p (pos 1))
    + 2 ^ 16 * memory (move p (pos 2))
    + 2 ^ 24 * memory (move p (pos 3))

-- The loop over the table.
unfoldable pub unroll : (ℕ → ℕ) → ℕ → ℕ → List CallUnrollInfo → ℕ
unroll memory eip esp [] = eip
unroll memory eip esp (info ∷ infos) =
    if matches memory (move eip info.pc_offset) info.ins
    then read_pointer memory (move esp (pos info.return_sp_offset))
    else unroll memory eip esp infos

-- `(v & 0xffff0000) != 0` and `(~v & 0xffff0000) != 0`
unfoldable pub has_high_bits : ℕ → Bool
has_high_bits v = not (v / 2 ^ 16 == 0)

unfoldable pub lacks_high_bits : ℕ → Bool
lacks_high_bits v = not (v / 2 ^ 16 == 2 ^ 16 - 1)

-- GetPC on Linux/i386.
unfoldable pub get_pc_i386 : (ℕ → ℕ) → ℕ → ℕ → ℕ
get_pc_i386 memory eip esp =
    if has_high_bits eip && lacks_high_bits eip && has_high_bits esp
    then unroll memory eip esp callunrollinfo
    else eip

-- The targets of the build.
pub data Target : Type 0 where
  i386 windows s390 normal : Target

-- What the handler's ucontext_t holds: `pc_from_ucontext` is the field that the macro
-- PC_FROM_UCONTEXT names.
pub record UContext : Type 0 where
  pub eip : ℕ
  pub esp : ℕ
  pub pc_from_ucontext : ℕ

-- GetPC, on each target; NULL is the address 0.
unfoldable pub get_pc : Target → (ℕ → ℕ) → UContext → ℕ
get_pc i386 memory uc = get_pc_i386 memory uc.eip uc.esp
get_pc windows memory uc = 0
get_pc s390 memory uc = uc.pc_from_ucontext % 2 ^ 31
get_pc normal memory uc = uc.pc_from_ucontext
