-- ===== src/Maps.antt =====
-- src/sysinfo.cpp and src/sysinfo.h, the listing of a process's memory maps: the helpers of the
-- line parser (Text), the line parsers (Line, Platform), the printer of a line (Format), what the
-- two have to do with each other (RoundTrip, Plain, Similar), the buffer (Memory), the file (File),
-- the page counts (Backing), the iterator (Iterator), its start (Init) and its end (Lifetime), the
-- iterator on Mach, Solaris and Windows, and the specification (Stream, Entries).
pub mod Text
pub mod Line
pub mod Platform
pub mod Format
pub mod RoundTrip
pub mod Plain
pub mod Similar
pub mod Memory
pub mod File
pub mod Backing
pub mod Iterator
pub mod Stream
pub mod Entries
pub mod Init
pub mod Lifetime
pub mod Mach
pub mod Solaris
pub mod Windows
mod Tests
mod Examples
