-- ===== src/Float32.antt =====
-- The arithmetic of `f32`, as a parameter of the modules that use it. Nothing is assumed of it.
use althea_rs.Prelude.{ℕ, Bool}

pub record Float32 : Type 1 where
  pub F : Type 0
  pub from_ℕ : ℕ → F
  pub plus : F → F → F
  pub minus : F → F → F
  pub times : F → F → F
  pub divided : F → F → F
  pub less : F → F → Bool
