-- ===== src/Maps/Windows/Examples.antt =====
-- The listing on Windows, at a snapshot of two modules.
use jointprof.Maps.Windows.Laws.{IsToolhelp, loaded_entry, list_windows-created_modules}
use jointprof.Maps.Windows.{Module, init_windows, list_windows}
use jointprof.Common.{◌≡◌, refl, Option, none, some, List, [], ◌∷◌, map, codes, arith}

-- A snapshot for the example: its modules, and those still in front of Module32Next.
abbrev Sample : Type 0
Sample = List Module × List Module

abbrev deliver : List Module → List Module → Option Module × Option Sample
deliver all [] = (none, some (all, []))
deliver all (m ∷ ms) = (some m, some (all, ms))

abbrev sample_first : Option Sample → Option Module × Option Sample
sample_first none = (none, none)
sample_first (some (all, left)) = deliver all all

abbrev sample_next : Option Sample → Option Module × Option Sample
sample_next none = (none, none)
sample_next (some (all, left)) = deliver all left

deliver_end : (all ms : List Module) → ms ≡ [] → (deliver all ms).0 ≡ none
deliver_end all ms e = rw e refl

deliver_module :
    (all ms : List Module) (m : Module) (rest : List Module)
    → ms ≡ m ∷ rest
    → (s : Sample) × (deliver all ms ≡ (some m, some s)) × (s.1 ≡ rest)
deliver_module all ms m rest e = ((all, rest), rw e refl, refl)

sample-IsToolhelp : IsToolhelp sample_first sample_next (λ s. s.0) (λ s. s.1)
sample-IsToolhelp = record {
  first_invalid = refl;
  first_end = λ s e. deliver_end s.0 s.0 e;
  first_module = λ s m ms e. deliver_module s.0 s.0 m ms e;
  next_end = λ s e. deliver_end s.0 s.1 e;
  next_module = λ s m ms e. deliver_module s.0 s.1 m ms e;
}

abbrev two_modules : List Module
two_modules =
    record { base_addr = 0x400000; base_size = 4096; exe_path = codes "R.exe" }
    ∷ record { base_addr = 0x7ff00000; base_size = 8192; exe_path = codes "ntdll.dll" }
    ∷ []

list_windows-created_modules_example :
    list_windows 568 sample_first sample_next 3 (init_windows (some (two_modules, [])))
    ≡ some (map loaded_entry two_modules)
list_windows-created_modules_example =
    list_windows-created_modules 568 sample_first sample_next (λ s. s.0) (λ s. s.1)
      sample-IsToolhelp 3 (some (two_modules, [])) (omega arith) (omega arith)
