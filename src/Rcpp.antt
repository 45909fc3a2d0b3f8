-- ===== src/Rcpp.antt =====
-- What src/callback.cpp and src/RcppExports.cpp use of R and Rcpp, as an interface, and what a call from R
-- gives back.
pub mod Callback
pub mod Exports
mod Examples
use jointprof.Profiler.Defs.{Process, Error}
use jointprof.Common.{ℕ, Bool, Option, List, Bytes}

-- What ends a call with an error of R: a name that is not registered, another number of arguments, a
-- value that does not convert, an error of R code, or Rcpp::stop.
pub data Trouble : Type 0 where
  not_registered wrong_arguments not_convertible raised_in_r : Trouble
  stopped_with : Error → Trouble

-- What a call gives to R: a value, an error, or, from a C function that returns nothing, any word.
pub data Answer (Sexp : Type 0) : Type 0 where
  value : Sexp → Answer Sexp
  trouble : Trouble → Answer Sexp
  undetermined : Answer Sexp

-- A call, `none` where it is a fault. The state of R is in `other`.
abbrev pub Reply : Type 0 → Type 0 → Type 0
Reply Sexp Other = Option (Answer Sexp × Process Other)

-- R and Rcpp on the values `Sexp` of R. as_profilers is the conversion to a list of external pointers
-- to profilers, and wrap makes one; r_function is the call of a function of the package by its name;
-- new_int is XPtr<int>(new int(0)); is_pointer says whether a value is an external pointer; enter_rng and
-- leave_rng are the constructor and the destructor of RNGScope.
pub record Rcpp (Sexp Other : Type 0) : Type 0 where
  pub r_null : Sexp
  pub as_profilers : Sexp → Option (List ℕ)
  pub wrap : List ℕ → Sexp
  pub as_string : Sexp → Option Bytes
  pub is_pointer : Sexp → Bool
  pub new_int : Other → Sexp × Other
  pub r_function : Bytes → Sexp → Process Other → Reply Sexp Other
  pub enter_rng : Other → Other
  pub leave_rng : Other → Other
