-- ===== src/Profiler.antt =====
-- src/profiler.cpp, the profiler that is chained in front of another SIGPROF handler: the record
-- of one sample (Trace), the process with its signal disposition and the operations on it (Defs), the
-- text of the maps behind the profile (Trailer), the calls of R (Exports), signals between the
-- steps of start and stop (Race), and all of these in any order (Machine).
pub mod Words
pub mod Trace
pub mod Defs
pub mod Session
pub mod Profile
pub mod Trailer
pub mod Whole
pub mod Readback
pub mod Exports
pub mod Race
pub mod Threads
pub mod Guards
pub mod Again
pub mod Machine
mod Examples
