-- ===== src/GetPc/Examples.antt =====
-- The theorem on GetPC, at a concrete machine.
use jointprof.GetPc.Laws.{Machine, observed, push_ebp, return_address, get_pc-push_ebp}
use jointprof.GetPc.{i386, get_pc}
use jointprof.Common.{ℕ, ◌≡◌, refl, inr, ◌==◌, if◌then◌else◌, arith}

-- A function at 100000 whose caller goes on at 0x00020000.
abbrev example_memory : ℕ → ℕ
example_memory p =
    if p == 100000
    then 85
    else if p == 100001
    then 137
    else if p == 100002
    then 229
    else if p == 200002
    then 2
    else 0

abbrev at_entry : Machine
at_entry = record { eip = 100000; esp = 200000; memory = example_memory }

get_pc-push_ebp_example :
    let m' = push_ebp (λ p. 1) at_entry in
    (get_pc i386 at_entry.memory (observed at_entry) ≡ return_address at_entry)
    × (get_pc i386 m'.memory (observed m') ≡ return_address at_entry)
get_pc-push_ebp_example =
    get_pc-push_ebp at_entry (λ p. 1)
      (record {
        push_byte = refl;
        move_byte = refl;
        modrm_byte = refl;
        code_low = omega arith;
        code_high = omega arith;
        stack_low = omega arith;
        stack_high = omega arith;
        apart = inr (omega arith);
      })
