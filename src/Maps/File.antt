-- ===== src/Maps/File.antt =====
-- The open file that src/sysinfo.cpp reads. `read` may be interrupted, fail, or give less than was
-- asked for; a script of such events says what it does, and when the script has ended a read gives
-- as much as it can.
pub mod Laws
use jointprof.Common.{
  ℕ, ◌+◌, Bool, Option, none, some, List, [], ◌∷◌, ◌==◌, if◌then◌else◌, Bytes, take, drop, min,
}

-- What the next call of `read` does: EINTR, another error, or at most `1 + n` bytes.
pub data ReadEvent : Type 0 where
  interrupted failed : ReadEvent
  short : ℕ → ReadEvent

-- `is_open` is false for the descriptor -1, on which every read fails.
pub record File : Type 0 where
  pub is_open : Bool
  pub unread : Bytes
  pub script : List ReadEvent

-- `NO_INTR(nread = read(fd, buf, n))`: the bytes that arrive, `none` for -1.
unfoldable pub read_script : List ReadEvent → ℕ → Bytes → Option Bytes × Bytes × List ReadEvent
read_script [] n unread = (some (take n unread), drop n unread, [])
read_script (interrupted ∷ script) n unread = read_script script n unread
read_script (failed ∷ script) n unread = (none, unread, script)
read_script (short k ∷ script) n unread =
    (some (take (min (k + 1) n) unread), drop (min (k + 1) n) unread, script)

unfoldable pub read_no_intr : File → ℕ → Option Bytes × File
unfolding read_script
read_no_intr file n =
    let (bytes, unread, script) = read_script file.script n file.unread in
    if file.is_open then (bytes, record file { unread = unread; script = script }) else (none, file)
