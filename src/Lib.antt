-- ===== src/Lib.antt =====
-- jointprof: a CPU profiler for native code that runs next to the profiler of R.
--
-- R calls src/jointprof.cpp, which makes, starts and stops a ProfilerDaisyChain (src/profiler.cpp).
-- start puts a handler of SIGPROF in front of the one that R has installed. On each signal the handler
-- finds the program counter (src/getpc.h), writes one sample to the profile, and calls R's handler.
-- stop restores the disposition of SIGPROF, writes the trailer, and lists the memory maps of the
-- process (src/sysinfo.cpp and src/sysinfo.h) behind it.
--
-- Common: shared names, Boolean tests, lists over native numbers, signed integers.
-- Clib: the functions of the C library that the code uses: isspace (Chars), strtol, strtoll and strtoull
--   (Strto), the conversions of snprintf (Printf), and how they fit together (Numbers; in front of
--   other text, Numbers/Front). Scanf has the directives of sscanf that the code uses.
-- Maps: src/sysinfo.cpp and src/sysinfo.h.
--   Text: ExtractUntilChar, SkipWhileWhitespace, StringToInteger, StringToIntegerUntilChar,
--     CopyStringUntilChar, StringToIntegerUntilCharWithCheck. A `char *` is the text from there on.
--   Line: ParseProcMapsLine, the line parser on Linux. Platform: the line parsers on Cygwin and FreeBSD,
--     and the choice between the three. Format: FormatLine. RoundTrip: the one on the text of the other.
--     Plain: what characters that text has. Similar: ParseProcMapsLine and sscanf. Line/Ranges and
--     Line/Tail: what the line parser can return.
--   Memory: the buffer, memmove, memchr and C strings, with indices for pointers.
--   File: the open file; a script says which reads are interrupted, fail or are short.
--   Backing: the page counts of /proc/<pid>/maps_backing; its children Laws and Taken are the proofs.
--   Iterator: the fields of ProcMapsIterator, NextExt in pieces (fill, shift_and_fill, advance, found,
--     next_ext) and Next. Its children Fill, Shift, Advance, Next, Refine and Pieces are the
--     proofs.
--   Lifetime: the constructors and the destructor; its child Laws follows an iterator through its life.
--   Solaris and Windows: Init and NextExt there; their children Laws are the proofs.
--   Mach: Init, NextExtMachHelper and NextExt on Mach; its child Laws is the proof about the loops, Listed
--     the one about the load commands as memory holds them.
--   Init: Init. Stream and Entries: the specification, lines of a text and entries of lines.
-- GetPc: src/getpc.h, GetPC on every target. Its child Laws is the proof.
-- Profiler: src/profiler.cpp, and src/jointprof.cpp (Exports).
--   Words: intptr_t in the file. Trace: write_stack_trace. Defs: Impl, the process, start, stop, the
--     handlers, the constructor and the destructor. Session: start, signals, stop; its child Signals has
--     the signals. Exports/Rprof: a session as R runs it, with the profiler of R around it. Again: several
--     sessions. Guards: refused starts, the handler's reach, misuse. Profile: a reader of the format.
--   Machine: the process as a machine whose steps are the calls, the signals and the acts of other code;
--     its children Objects, Steps and Laws prove the invariant and what follows, under three
--     rules: only the object that profiles is stopped, it is not destroyed, and other code never installs
--     the handler of the profiler as one of one argument. Stuck is a misuse.
--   Race: start and stop in single steps, with signals between them; its child Writes has the proof for
--     stop, and for the writes of the trailer. Threads: the handler on one thread
--     and stop on another, step by step by a schedule; Between, Stop, Steps and Outcomes are the proofs
--     for all schedules, Quiet is about schedules without a data race, and Late has bad ones.
--   Trailer: the loop of write_trailer; its children Listing and Mappings read its text again, and Pieces
--     is about any file. Whole: a session with the maps of the process. Readback: that session and both
--     readers.
-- Rcpp: what src/callback.cpp (Callback) and src/RcppExports.cpp (Exports) use of R, as an interface, and the
--   two files. The functions of Exports have the names of the source without the first underscore. Exports/Laws is
--   about errors, Exports/Session is a session as R runs it, by `.Call`.
--
-- State is passed explicitly: each operation takes the process or the iterator and returns the new
-- one. A fault (a write through NULL, an access beyond an array, a call through a destroyed object) is
-- `none` or `fault`. Words have 64 bits, `int` has 32, and the width is written out where it
-- matters.
--
-- Bounds and fuel: the loop that fills the buffer gets one round for each byte of room, and every
-- round but the last reads a byte. NextExt gets fuel for one line each round; the number of lines in
-- front of the iterator, and one more, is enough. The loop of write_trailer gets the same for its
-- entries. Where the reads may fail and the lines may be of any length, one more than the number of
-- bytes is enough. The handler takes at most seven steps, and stop six and two for each text
-- of the maps. On Mach the loops count down, and the number of segments, and one more, is enough calls.
--
-- Parameters: PATH_MAX, the process id and the files of the system; the frames that
-- GetStackTraceWithContext of gperftools stores; what the handlers of other code do; whether a
-- file can be made; the memory and registers that GetPC reads; the images that dyld reports on
-- Mach, and their memory; the layout of prmap_t and what readlink says on Solaris; the size of
-- MODULEENTRY32, Module32First and Module32Next on Windows; the values of R, their conversions
-- by Rcpp, the functions of R, and how R finds a registered name and tests the number of
-- arguments.
--
-- Not modelled: in src/sysinfo.cpp, that an argument of Next may be NULL, and that the close
-- of the destructor may be interrupted; in src/profiler.cpp, that a write to an open file in a
-- good state may fail, as on a full disk; threads that see each other's writes in another
-- order than they were made; src/basictypes.h, a header of gperftools with typedefs, macros
-- and helpers that nothing here uses; that src/callback.cpp looks its R functions up once and
-- keeps them; the R code, but for the order of its calls.
pub mod Common
pub mod Clib
pub mod Maps
pub mod GetPc
pub mod Profiler
pub mod Rcpp
