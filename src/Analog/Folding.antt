-- ===== src/Analog/Folding.antt =====
-- The constant-folding constructors of diff.rs compute what the operation that they stand for does.
use piperine.Common.{
  ◌≡◌, refl, sym, ap, ◌∙◌, ◌⊎◌, inl, inr, true, some, Bool-cases, Option-cases, arith,
}
use piperine.Analog.Bits.{Bits, bits_zero, sign_bit, bits_one, is_zero_bits, is_one_bits}
use piperine.Analog.Ast.{
  real, int, bool, quad, string, absent, Expr, literal, sys_call, ident, path_expr, unary, binary,
  call, cast, index, slice, field, block, if_expr, array, tuple, bundle_lit, map_lit, set_lit,
  lambda,
}
use piperine.Analog.Operators.{BinOp, to_pom, from_pom}
use piperine.Analog.Constructors.{
  lit, real_literal, is_zero, is_one, binary_of, add, sub, mul, div, neg,
}
use piperine.Analog.Machine.{Arithmetic, Frame, and_then, nought}
use piperine.Analog.Ideal.{Ideal}
use piperine.Analog.Emit.{emit_analog, emit_literal, emit_binary, emit_unary}

real_literal-lit : (e : Expr) (v : Bits) → real_literal e ≡ some v → e ≡ lit v
unfolding real_literal
real_literal-lit (literal (real w)) v h = cc
real_literal-lit (literal (int _)) v h = cc
real_literal-lit (literal (bool _)) v h = cc
real_literal-lit (literal (quad _)) v h = cc
real_literal-lit (literal (string _)) v h = cc
real_literal-lit (literal absent) v h = cc
real_literal-lit (sys_call _ _) v h = cc
real_literal-lit (ident _) v h = cc
real_literal-lit (path_expr _) v h = cc
real_literal-lit (unary _ _) v h = cc
real_literal-lit (binary _ _ _) v h = cc
real_literal-lit (call _ _) v h = cc
real_literal-lit (cast _ _) v h = cc
real_literal-lit (index _ _) v h = cc
real_literal-lit (slice _ _) v h = cc
real_literal-lit (field _ _) v h = cc
real_literal-lit (block _) v h = cc
real_literal-lit (if_expr _ _ _) v h = cc
real_literal-lit (array _) v h = cc
real_literal-lit (tuple _) v h = cc
real_literal-lit (bundle_lit _ _) v h = cc
real_literal-lit (map_lit _) v h = cc
real_literal-lit (set_lit _) v h = cc
real_literal-lit (lambda _ _) v h = cc

is_zero-lit : (e : Expr) → is_zero e ≡ true → (v : Bits) × (e ≡ lit v) × (is_zero_bits v ≡ true)
unfolding is_zero
is_zero-lit e h = elim (Option-cases (real_literal e)) [
  | inl n ↦ absurd (ground (arith, rw (n, is_zero) at h))
  | inr (v, eq) ↦ (v, real_literal-lit e v eq, rw (eq, is_zero) at h)
]

is_one-lit : (e : Expr) → is_one e ≡ true → (v : Bits) × (e ≡ lit v) × (is_one_bits v ≡ true)
unfolding is_one
is_one-lit e h = elim (Option-cases (real_literal e)) [
  | inl n ↦ absurd (ground (arith, rw (n, is_one) at h))
  | inr (v, eq) ↦ (v, real_literal-lit e v eq, rw (eq, is_one) at h)
]

pub some_injective {ℓ} : {A : Type ℓ} {a b : A} → some a ≡ some b → a ≡ b
some_injective h = cc

module _ {A : Arithmetic} (I : Ideal A) (F : Frame A) where
  emit-lit :
      {e : Expr} {x : A.Carrier} {v : Bits} → e ≡ lit v → emit_analog A F e ≡ some x → x ≡ A.value v
  unfolding emit_analog emit_literal
  emit-lit e h = some_injective (sym (rw e at h))

  pub is_zero-value :
      (e : Expr) (x : A.Carrier) → is_zero e ≡ true → emit_analog A F e ≡ some x → x ≡ nought A
  is_zero-value e x z h =
      let (v, eq, zero) = is_zero-lit e z in
      let cases : (v ≡ bits_zero) ⊎ (v ≡ sign_bit) = ground arith in
      elim cases [
        | inl c ↦ emit-lit eq h ∙ ap A.value c
        | inr c ↦ emit-lit eq h ∙ ap A.value c ∙ I.minus_zero
      ]

  is_one-value :
      (e : Expr) (x : A.Carrier)
      → is_one e ≡ true
      → emit_analog A F e ≡ some x
      → x ≡ A.value bits_one
  is_one-value e x z h =
      let (v, eq, one) = is_one-lit e z in
      let c : v ≡ bits_one = ground arith in emit-lit eq h ∙ ap A.value c

  pub emit-binary_of :
      (op : BinOp) (a b : Expr) {x y : A.Carrier}
      → emit_analog A F a ≡ some x
      → emit_analog A F b ≡ some y
      → emit_analog A F (binary_of op a b) ≡ emit_binary A F (from_pom (to_pom op)) x y
  unfolding binary_of emit_analog and_then
  emit-binary_of op a b p q = rw (p, q) refl

  pub emit-add :
      (a b : Expr) {x y : A.Carrier}
      → emit_analog A F a ≡ some x
      → emit_analog A F b ≡ some y
      → emit_analog A F (add a b) ≡ some (A.fadd x y)
  unfolding add emit_binary
  emit-add a b {x} {y} p q = elim (Bool-cases (is_zero a)) [
    | inl z ↦ rw z (q ∙ ap some (sym (rw (is_zero-value a x z p) (I.zero_add y))))
    | inr n ↦ elim (Bool-cases (is_zero b)) [
      | inl z ↦ rw (n, z) (p ∙ ap some (sym (rw (is_zero-value b y z q) (I.add_zero x))))
      | inr m ↦ rw (n, m) (emit-binary_of BinOp.add a b p q)
    ]
  ]

  pub emit-sub :
      (a b : Expr) {x y : A.Carrier}
      → emit_analog A F a ≡ some x
      → emit_analog A F b ≡ some y
      → emit_analog A F (sub a b) ≡ some (A.fsub x y)
  unfolding sub emit_binary
  emit-sub a b {x} {y} p q = elim (Bool-cases (is_zero b)) [
    | inl z ↦ rw z (p ∙ ap some (sym (rw (is_zero-value b y z q) (I.sub_zero x))))
    | inr m ↦ rw m (emit-binary_of BinOp.sub a b p q)
  ]

  pub emit-zero : emit_analog A F (lit bits_zero) ≡ some (nought A)
  unfolding emit_analog emit_literal
  emit-zero = refl

  pub emit-mul :
      (a b : Expr) {x y : A.Carrier}
      → emit_analog A F a ≡ some x
      → emit_analog A F b ≡ some y
      → emit_analog A F (mul a b) ≡ some (A.fmul x y)
  unfolding mul emit_binary
  emit-mul a b {x} {y} p q = elim (Bool-cases (is_zero a)) [
    | inl z ↦ rw z (emit-zero ∙ ap some (sym (rw (is_zero-value a x z p) (I.zero_mul y))))
    | inr n ↦ elim (Bool-cases (is_zero b)) [
      | inl z ↦ rw (n, z) (emit-zero ∙ ap some (sym (rw (is_zero-value b y z q) (I.mul_zero x))))
      | inr m ↦ elim (Bool-cases (is_one a)) [
        | inl z ↦ rw (n, m, z) (q ∙ ap some (sym (rw (is_one-value a x z p) (I.one_mul y))))
        | inr k ↦ elim (Bool-cases (is_one b)) [
          | inl z ↦ rw (n, m, k, z) (p ∙ ap some (sym (rw (is_one-value b y z q) (I.mul_one x))))
          | inr l ↦ rw (n, m, k, l) (emit-binary_of BinOp.mul a b p q)
        ]
      ]
    ]
  ]

  pub emit-div :
      (a b : Expr) {x y : A.Carrier}
      → emit_analog A F a ≡ some x
      → emit_analog A F b ≡ some y
      → emit_analog A F (div a b) ≡ some (A.fdiv x y)
  unfolding div emit_binary
  emit-div a b {x} {y} p q = elim (Bool-cases (is_zero a)) [
    | inl z ↦ rw z (emit-zero ∙ ap some (sym (rw (is_zero-value a x z p) (I.zero_div y))))
    | inr n ↦ elim (Bool-cases (is_one b)) [
      | inl z ↦ rw (n, z) (p ∙ ap some (sym (rw (is_one-value b y z q) (I.div_one x))))
      | inr m ↦ rw (n, m) (emit-binary_of BinOp.div a b p q)
    ]
  ]

  pub emit-neg :
      (a : Expr) {x : A.Carrier}
      → emit_analog A F a ≡ some x
      → emit_analog A F (neg a) ≡ some (A.fneg x)
  unfolding neg emit_analog emit_literal and_then emit_unary
  emit-neg a {x} p = elim (Option-cases (real_literal a)) [
    | inl n ↦ rw (n, neg) (rw p refl)
    | inr (v, eq) ↦
        rw (eq, neg)
          (ap some (I.neg_value v ∙ ap A.fneg (sym (emit-lit (real_literal-lit a v eq) p))))
  ]
