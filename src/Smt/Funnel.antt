-- ===== src/Smt/Funnel.antt =====
-- smt/expr.cpp: fshl and fshr, the funnel shifts.
use alive_next_deprecated.Prelude.{ℕ, ◌%◌}
use alive_next_deprecated.Smt.Bv.{bvor, bvshl, bvlshr, bvsub, mk_uint}

module _ (w : ℕ) where
  unfoldable pub fshl : ℕ → ℕ → ℕ → ℕ
  fshl a b c =
      let width = mk_uint w w in
      let c_mod_width = c % width in
      bvor (bvshl w a c_mod_width) (bvlshr b (bvsub w width c_mod_width))

  unfoldable pub fshr : ℕ → ℕ → ℕ → ℕ
  fshr a b c =
      let width = mk_uint w w in
      let c_mod_width = c % width in
      bvor (bvshl w a (bvsub w width c_mod_width)) (bvlshr b c_mod_width)
