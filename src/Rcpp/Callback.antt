-- ===== src/Rcpp/Callback.antt =====
-- src/callback.cpp, the functions that call back into R.
use jointprof.Profiler.Defs.{Process}
use jointprof.Rcpp.{Rcpp, Reply}
use jointprof.Common.{codes}

module _ {Sexp Other : Type 0} (r : Rcpp Sexp Other) where
  -- callback1_cpp and callback2_cpp: `cb(x)`, with its value or its error.
  unfoldable pub callback1_cpp : Sexp → Process Other → Reply Sexp Other
  callback1_cpp x p = r.r_function (codes "callback1_r") x p

  unfoldable pub callback2_cpp : Sexp → Process Other → Reply Sexp Other
  callback2_cpp x p = r.r_function (codes "callback2_r") x p

  -- callback3_cpp: `cb` on a new external pointer.
  unfoldable pub callback3_cpp : Process Other → Reply Sexp Other
  callback3_cpp p =
      let (x, other) = r.new_int p.other in
      r.r_function (codes "callback3_r") x (record p { other = other })
