-- ===== src/Maps/Windows.antt =====
-- src/sysinfo.cpp, ProcMapsIterator on Windows, over a snapshot of the process's modules.
mod Laws
mod Examples
use jointprof.Maps.Backing.{Pages}
use jointprof.Maps.Iterator.{Entry}
use jointprof.Common.{
  ℕ, zero, suc, ◌+◌, ◌%◌, ◌^◌, Bool, true, false, Option, none, some, List, [], ◌∷◌, ◌==◌,
  if◌then◌else◌, Bytes, codes, ℤ, pos,
}

-- The fields of MODULEENTRY32 that are used, but dwSize.
pub record Module : Type 0 where
  pub base_addr : ℕ
  pub base_size : ℕ
  pub exe_path : Bytes

-- The fields of ProcMapsIterator that Next uses; `snapshot` is `none` for INVALID_HANDLE_VALUE, and
-- `dw_size` is module_.dwSize. What a snapshot of Toolhelp holds belongs to the system.
pub record WindowsIterator (Snapshot : Type 0) : Type 0 where
  pub snapshot : Option Snapshot
  pub dw_size : ℕ
  pub current : Module

abbrev pub zero_module : Module
zero_module = record { base_addr = 0; base_size = 0; exe_path = [] }

-- Init, with what CreateToolhelp32Snapshot gives, and `memset(&module_, 0, sizeof(module_))`.
unfoldable pub init_windows : {Snapshot : Type 0} → Option Snapshot → WindowsIterator Snapshot
init_windows created = record { snapshot = created; dw_size = 0; current = zero_module }

-- Valid
abbrev pub valid_windows : {Snapshot : Type 0} → WindowsIterator Snapshot → Bool
valid_windows it = elim it.snapshot [ none ↦ false | some s ↦ true ]

-- What is handed out.
unfoldable pub module_entry : Module → Entry
module_entry m = record {
  start = m.base_addr;
  end = (m.base_addr + m.base_size) % 2 ^ 64;
  flags = codes "r-xp";
  offset = 0;
  inode = pos 0;
  filename = m.exe_path;
  dev = 0;
  pages = record {
    file_mapping = some 0;
    file_pages = some 0;
    anon_mapping = some 0;
    anon_pages = some 0;
  };
}

-- sizeof(module_), Module32First and Module32Next belong to the system. The calls take the snapshot,
-- or `none` for INVALID_HANDLE_VALUE, and give the module that they store, or `none` for FALSE, and the
-- snapshot behind them.
module _ {Snapshot : Type 0} (entry_size : ℕ)
    (module32_first module32_next : Option Snapshot → Option Module × Option Snapshot) where
  -- What a call of Next returns: an entry for true, `none` for false.
  abbrev pub WindowsOutcome : Type 0
  WindowsOutcome = Option Entry × WindowsIterator Snapshot

  -- `if (ok) …`, behind the call of Module32First or Module32Next.
  unfoldable pub after_module : ℕ → Module → Option Module × Option Snapshot → WindowsOutcome
  after_module dw_size old (none, snapshot) =
      (none, record { snapshot = snapshot; dw_size = dw_size; current = old })
  after_module dw_size old (some m, snapshot) =
      (some (module_entry m), record { snapshot = snapshot; dw_size = dw_size; current = m })

  -- The rest of a caller's loop `while (it.Next(…))`.
  unfoldable pub list_after :
      (WindowsIterator Snapshot → Option (List Entry)) → WindowsOutcome → Option (List Entry)
  list_after again (none, it) = some []
  list_after again (some e, it) = elim (again it) [ none ↦ none | some es ↦ some (e ∷ es) ]

  -- NextExt on Windows.
  unfoldable pub next_ext_windows : WindowsIterator Snapshot → WindowsOutcome
  next_ext_windows it =
      if it.dw_size == 0
      then after_module entry_size it.current (module32_first it.snapshot)
      else after_module it.dw_size it.current (module32_next it.snapshot)

  -- That loop, for at most `fuel` rounds.
  unfoldable pub list_windows : ℕ → WindowsIterator Snapshot → Option (List Entry)
  list_windows zero it = none
  list_windows (suc fuel) it = list_after (list_windows fuel) (next_ext_windows it)
