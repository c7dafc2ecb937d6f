-- ===== src/F64.antt =====
-- Rust's `f64`, as far as the simulator's event code uses it: `total_cmp`, `<=`, `+` and `INFINITY`.
use piperine.Common.{ℕ, ◌+◌, ◌≤◌, ◌≡◌, Bool, true, false, leb, arith}

-- `total_cmp` compares the bit patterns through a monotone number, `key`; two values that it calls
-- equal are the same bit pattern. `<=` agrees with that order below a value that is no NaN.
pub record F64 : Type 1 where
  pub Carrier : Type 0
  pub key : Carrier → ℕ
  pub le : Carrier → Carrier → Bool
  pub add : Carrier → Carrier → Carrier
  pub infinity : Carrier
  pub is_nan : Carrier → Bool
  pub key_injective : (a b : Carrier) → key a ≡ key b → a ≡ b
  pub le_down : (a b c : Carrier) → is_nan a ≡ false → key a ≤ key b → le b c ≡ true → le a c ≡ true

pub leb_down : (a b c : ℕ) → a ≤ b → leb b c ≡ true → leb a c ≡ true
leb_down a b c h k = ground arith

-- A concrete clock, counted in ticks.
abbrev pub ticks : F64
ticks = record {
  Carrier = ℕ;
  key = λ t. t;
  le = leb;
  add = ◌+◌;
  infinity = 1_000_000;
  is_nan = λ _. false;
  key_injective = λ a b e. e;
  le_down = λ a b c _ h k. leb_down a b c h k;
}
