-- ===== src/Float.antt =====
-- The operations on `f64` that the program uses. The type and its operations are parameters: the
-- development computes with no floating-point number, and a theorem names the laws that it needs.
use rust_solana_cc_v.Prelude.{ℕ, ◌≡◌, Bool, true, not}

pub record F64 (R : Type 0) : Type 0 where
  -- `n as f64`; the literals of the program are such values.
  pub of_u64 : ℕ → R
  pub add : R → R → R
  pub sub : R → R → R
  pub mul : R → R → R
  pub div : R → R → R
  pub neg : R → R
  -- `f64::max` and `f64::min`
  pub fmax : R → R → R
  pub fmin : R → R → R
  -- `a < b` and `a <= b`
  pub flt : R → R → Bool
  pub fle : R → R → Bool
  -- `x as u64`
  pub to_u64 : R → ℕ
  -- `x as u128`
  pub to_u128 : R → ℕ

-- The laws of the IEEE comparisons. A value that is not a number is not `<=` itself.
pub record IsOrdered {R : Type 0} (f : F64 R) : Type 0 where
  pub fle_trans : (a b c : R) → f.fle a b ≡ true → f.fle b c ≡ true → f.fle a c ≡ true
  pub fle_of_flt : (a b : R) → f.flt a b ≡ true → f.fle a b ≡ true
  pub flt_total : (a b : R) → f.fle a a ≡ true → f.fle b b ≡ true → f.flt a b ≡ not (f.fle b a)
