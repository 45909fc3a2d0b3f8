-- ===== src/Maps/Windows/Laws.antt =====
-- src/sysinfo.cpp, the listing on Windows against the modules of the snapshot.
use jointprof.Maps.Iterator.{Entry}
use jointprof.Maps.Windows.{
  Module, WindowsIterator, init_windows, zero_module, module_entry, after_module, next_ext_windows,
  list_after, list_windows,
}
use jointprof.Common.{
  ℕ, zero, suc, ◌+◌, ◌%◌, ◌^◌, ◌<◌, ◌≡◌, refl, false, Option, none, some, List, [], ◌∷◌, length,
  ◌==◌, map, ap, ◌∙◌, arith, codes, pos,
}

-- What the system documents of Module32First and Module32Next. The first call gives the first module of
-- the snapshot, and each later one the module behind that of the call before; at the end they give
-- FALSE, and so does the first call on INVALID_HANDLE_VALUE. `modules s` are the modules of a snapshot, and
-- `left s` those that Module32Next has still in front of it.
pub record IsToolhelp {Snapshot : Type 0}
    (module32_first module32_next : Option Snapshot → Option Module × Option Snapshot)
    (modules left : Snapshot → List Module) : Type 0 where
  pub first_invalid : (module32_first none).0 ≡ none
  pub first_end : (s : Snapshot) → modules s ≡ [] → (module32_first (some s)).0 ≡ none
  pub first_module :
      (s : Snapshot) (m : Module) (ms : List Module)
      → modules s ≡ m ∷ ms
      → (s' : Snapshot) × (module32_first (some s) ≡ (some m, some s')) × (left s' ≡ ms)
  pub next_end : (s : Snapshot) → left s ≡ [] → (module32_next (some s)).0 ≡ none
  pub next_module :
      (s : Snapshot) (m : Module) (ms : List Module)
      → left s ≡ m ∷ ms
      → (s' : Snapshot) × (module32_next (some s) ≡ (some m, some s')) × (left s' ≡ ms)

-- What the caller gets for a module.
abbrev pub loaded_entry : Module → Entry
loaded_entry m = record {
  start = m.base_addr;
  end = (m.base_addr + m.base_size) % 2 ^ 64;
  flags = codes "r-xp";
  offset = 0;
  inode = pos 0;
  filename = m.exe_path;
  dev = 0;
  pages = record {
    file_mapping = some 0;
    file_pages = some 0;
    anon_mapping = some 0;
    anon_pages = some 0;
  };
}

-- The modules of what CreateToolhelp32Snapshot gives: none where it fails.
abbrev pub created_modules :
    {Snapshot : Type 0} → (Snapshot → List Module) → Option Snapshot → List Module
created_modules modules none = []
created_modules modules (some s) = modules s

module _ {Snapshot : Type 0} (entry_size : ℕ)
    (module32_first module32_next : Option Snapshot → Option Module × Option Snapshot)
    (modules left : Snapshot → List Module)
    (documented : IsToolhelp module32_first module32_next modules left) where
  -- Behind a call that gives FALSE the loop ends.
  list_end :
      (again : WindowsIterator Snapshot → Option (List Entry)) (dw_size : ℕ) (old : Module)
      (answer : Option Module × Option Snapshot)
      → answer.0 ≡ none
      → list_after entry_size module32_first module32_next again
          (after_module entry_size module32_first module32_next dw_size old answer)
        ≡ some []
  unfolding list_after after_module
  list_end again dw_size old (none, s) e = refl
  list_end again dw_size old (some m, s) e = cc

  -- Behind one that gives a module it goes on.
  list_more :
      (again : WindowsIterator Snapshot → Option (List Entry)) (dw_size : ℕ) (old m : Module)
      (s : Snapshot) (es : List Entry)
      → again (record { snapshot = some s; dw_size = dw_size; current = m }) ≡ some es
      → list_after entry_size module32_first module32_next again
          (after_module entry_size module32_first module32_next dw_size old (some m, some s))
        ≡ some (loaded_entry m ∷ es)
  unfolding list_after after_module module_entry
  list_more again dw_size old m s es later = rw (later, list_after) refl

  -- The iterator behind its first call.
  abbrev behind : Snapshot → Module → WindowsIterator Snapshot
  behind s current = record { snapshot = some s; dw_size = entry_size; current = current }

  next_behind :
      (s : Snapshot) (current : Module)
      → 0 < entry_size
      → next_ext_windows entry_size module32_first module32_next (behind s current)
        ≡ after_module entry_size module32_first module32_next entry_size current
            (module32_next (some s))
  unfolding next_ext_windows
  next_behind s current sized =
      let not_first : (entry_size == 0) ≡ false = ground arith in rw not_first refl

  list_left :
      (fuel : ℕ) (ms : List Module) (s : Snapshot) (current : Module)
      → 0 < entry_size
      → left s ≡ ms
      → length ms < fuel
      → list_windows entry_size module32_first module32_next fuel (behind s current)
        ≡ some (map loaded_entry ms)
  unfolding list_windows
  list_left zero ms s current sized there h = absurd (omega arith)
  list_left (suc fuel) [] s current sized there h =
      ap
        (list_after entry_size module32_first module32_next
          (list_windows entry_size module32_first module32_next fuel))
        (next_behind s current sized)
      ∙ list_end _ entry_size current (module32_next (some s)) (documented.next_end s there)
  list_left (suc fuel) (m ∷ ms) s current sized there h =
      let again = list_windows entry_size module32_first module32_next fuel in
      let (s', answer, there') = documented.next_module s m ms there in
      ap (list_after entry_size module32_first module32_next again) (next_behind s current sized)
      ∙ ap
          (λ (o : Option Module × Option Snapshot).
            list_after entry_size module32_first module32_next again
              (after_module entry_size module32_first module32_next entry_size current o))
          answer
      ∙ list_more again entry_size current m s' (map loaded_entry ms)
          (list_left fuel ms s' m sized there' (omega arith))

  -- The first call.
  list_first :
      (fuel : ℕ) (created : Option Snapshot) (ms : List Module)
      → 0 < entry_size
      → created_modules modules created ≡ ms
      → length ms < fuel
      → list_windows entry_size module32_first module32_next fuel (init_windows created)
        ≡ some (map loaded_entry ms)
  unfolding list_windows next_ext_windows init_windows
  list_first zero created ms sized there h = absurd (omega arith)
  list_first (suc fuel) none [] sized there h =
      list_end _ entry_size zero_module (module32_first none) documented.first_invalid
  list_first (suc fuel) none (m ∷ ms) sized there h = absurd (omega (arith, ap length there))
  list_first (suc fuel) (some s) [] sized there h =
      list_end _ entry_size zero_module (module32_first (some s)) (documented.first_end s there)
  list_first (suc fuel) (some s) (m ∷ ms) sized there h =
      let again = list_windows entry_size module32_first module32_next fuel in
      let (s', answer, there') = documented.first_module s m ms there in
      ap
        (λ (o : Option Module × Option Snapshot).
          list_after entry_size module32_first module32_next again
            (after_module entry_size module32_first module32_next entry_size zero_module o))
        answer
      ∙ list_more again entry_size zero_module m s' (map loaded_entry ms)
          (list_left fuel ms s' m sized there' (omega arith))

  -- On Windows, the calls of Next from a new iterator on list the modules of the snapshot in order, each
  -- from its base address over its size, as `r-xp`, with its path, and then return false; the loop
  -- ends within any fuel above their number. Where no snapshot could be made, nothing is listed.
  -- Module32First and Module32Next do what the system documents of them, and the size of MODULEENTRY32 is
  -- not zero.
  pub list_windows-created_modules :
      (fuel : ℕ) (created : Option Snapshot)
      → 0 < entry_size
      → length (created_modules modules created) < fuel
      → list_windows entry_size module32_first module32_next fuel (init_windows created)
        ≡ some (map loaded_entry (created_modules modules created))
  list_windows-created_modules fuel created sized h =
      list_first fuel created (created_modules modules created) sized refl h
