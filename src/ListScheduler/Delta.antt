-- ===== src/ListScheduler/Delta.antt =====
-- pressureDelta against updateLiveSet: the delta is the change in the number of live values.
use llvm_scheduling_reg_pres.Base.{
  ℕ, zero, suc, ◌+◌, ◌-◌, ◌<◌, ◌≡◌, refl, ◌∙◌, Bool, true, false, List, [], ◌∷◌, none, some, elem,
  Distinct, arith, length, leb, ◌==◌, elem-ne, if◌then◌else◌, Bool-cases, Option-cases, inl, inr,
}
use llvm_scheduling_reg_pres.Base.Int.{ℤ, pos, negsuc, pos_part, neg_part, sub_ℕ, pred_ℤ, ◌+ℤ◌}
use llvm_scheduling_reg_pres.Ir.{Value}
use llvm_scheduling_reg_pres.Ir.BitVec.{BitVec, test, set, reset, count}
use llvm_scheduling_reg_pres.ListScheduler.Pressure.{
  PressureEnv, result_bit, produced, dies, operand_delta, pressure_delta, kill_operands,
  update_live_set,
}

abbrev one_if : Bool → ℕ
one_if b = if b then 1 else 0

count-set :
    (bits : BitVec) (k : ℕ)
    → k < length bits
    → count (set bits k) + one_if (test bits k) ≡ suc (count bits)
count-set [] k h = absurd (omega (arith, h))
count-set (true ∷ bits) zero h = omega arith
count-set (false ∷ bits) zero h = omega arith
count-set (true ∷ bits) (suc k) h = omega (arith, count-set bits k (omega (arith, h)))
count-set (false ∷ bits) (suc k) h = omega (arith, count-set bits k (omega (arith, h)))

count-reset : (bits : BitVec) (k : ℕ) → count (reset bits k) + one_if (test bits k) ≡ count bits
count-reset [] k = omega arith
count-reset (true ∷ bits) zero = omega arith
count-reset (false ∷ bits) zero = omega arith
count-reset (true ∷ bits) (suc k) = omega (arith, count-reset bits k)
count-reset (false ∷ bits) (suc k) = omega (arith, count-reset bits k)

test-set_ne : (bits : BitVec) (k j : ℕ) → (j == k) ≡ false → test (set bits k) j ≡ test bits j
test-set_ne [] k j e = refl
test-set_ne (b ∷ bits) zero zero e = absurd (ground arith)
test-set_ne (b ∷ bits) zero (suc j) e = refl
test-set_ne (b ∷ bits) (suc k) zero e = refl
test-set_ne (b ∷ bits) (suc k) (suc j) e = test-set_ne bits k j (ground arith)

test-reset_ne : (bits : BitVec) (k j : ℕ) → (j == k) ≡ false → test (reset bits k) j ≡ test bits j
test-reset_ne [] k j e = refl
test-reset_ne (b ∷ bits) zero zero e = absurd (ground arith)
test-reset_ne (b ∷ bits) zero (suc j) e = refl
test-reset_ne (b ∷ bits) (suc k) zero e = refl
test-reset_ne (b ∷ bits) (suc k) (suc j) e = test-reset_ne bits k j (ground arith)

-- The bits of the operands that have one, an operand that stands there twice twice.
abbrev pub operand_bits : PressureEnv → List Value → List ℕ
operand_bits env [] = []
operand_bits env (v ∷ vs) = elim (env.universe_index v) [
  | none ↦ operand_bits env vs
  | some idx ↦ idx ∷ operand_bits env vs
]

module _ (env : PressureEnv) (out live : BitVec) where
  -- How many operands die.
  deaths : List Value → ℕ
  deaths [] = 0
  deaths (v ∷ vs) = one_if (dies out live (env.universe_index v)) + deaths vs

  pred_ℤ_parts : (d : ℤ) → pos_part (pred_ℤ d) + neg_part d + 1 ≡ neg_part (pred_ℤ d) + pos_part d
  pred_ℤ_parts (pos n) = ground arith
  pred_ℤ_parts (negsuc n) = ground arith

  operand_delta-deaths :
      (vs : List Value) (d : ℤ)
      → pos_part (operand_delta env out live vs d) + neg_part d + deaths vs
        ≡ neg_part (operand_delta env out live vs d) + pos_part d
  unfolding deaths
  operand_delta-deaths [] d = omega arith
  operand_delta-deaths (v ∷ vs) d = elim (Bool-cases (dies out live (env.universe_index v))) [
    | inl e ↦
        let rest = operand_delta-deaths vs (pred_ℤ d) in
        let one = pred_ℤ_parts d in rw e (omega (arith, rest, one))
    | inr e ↦ let rest = operand_delta-deaths vs d in rw e (omega (arith, rest))
  ]

  kill_operands-deaths :
      (vs : List Value) (now : BitVec)
      → Distinct (operand_bits env vs)
      → ((k : ℕ) → elem k (operand_bits env vs) ≡ true → test now k ≡ test live k)
      → count (kill_operands env out vs now) + deaths vs ≡ count now
  unfolding deaths
  kill_operands-deaths [] now d same = omega arith
  kill_operands-deaths (v ∷ vs) now d same = elim (Option-cases (env.universe_index v)) [
    | inl e ↦
        let rest = kill_operands-deaths vs now (ground arith) (λ k m. same k (ground arith)) in
        rw e (omega (arith, rest))
    | inr (idx, e) ↦
        let parts : (elem idx (operand_bits env vs) ≡ false) × Distinct (operand_bits env vs) =
          ground arith in
        let here : test now idx ≡ test live idx = same idx (ground arith) in
        let later : (k : ℕ) → elem k (operand_bits env vs) ≡ true → test now k ≡ test live k =
          λ k m. same k (ground arith) in
        elim (Bool-cases (test out idx)) [
          | inl o ↦
              let rest = kill_operands-deaths vs now parts.1 later in
              rw (e, o) (ground (arith, rest))
          | inr o ↦
              let rest = kill_operands-deaths vs (reset now idx) parts.1 (λ k m.
                test-reset_ne now idx k (elem-ne k idx (operand_bits env vs) m parts.0)
                ∙ later k m) in
              let fewer = count-reset now idx in rw (e, o) (ground (arith, rest, fewer, here))
        ]
  ]

sub_ℕ-exact : (a b n : ℕ) → a ≡ n + b → sub_ℕ a b ≡ pos n
sub_ℕ-exact a b n e =
    let is_le : leb b a ≡ true = ground arith in
    let diff : a - b ≡ n = omega (arith, e) in rw (is_le, diff) refl

module _ (env : PressureEnv) (i : ℕ) (live : BitVec)
    (result : (r : ℕ)
      → result_bit env i ≡ some r
      → (r < length live) × (elem r (operand_bits env (env.ir i).operands) ≡ false)) where
  abbrev with_result : BitVec
  with_result = elim (result_bit env i) [ none ↦ live | some idx ↦ set live idx ]

  count-with_result :
      (pos_part (produced env i live) + count live ≡ count with_result)
      × (neg_part (produced env i live) ≡ 0)
  count-with_result = elim (Option-cases (result_bit env i)) [
    | inl e ↦ rw (with_result, produced, e) (omega arith, refl)
    | inr (r, e) ↦
        let more = count-set live r (result r e).0 in
        rw (with_result, produced, e) (ground (arith, more))
  ]

  test-with_result :
      (k : ℕ)
      → elem k (operand_bits env (env.ir i).operands) ≡ true
      → test with_result k ≡ test live k
  test-with_result k m = elim (Option-cases (result_bit env i)) [
    | inl e ↦ rw (with_result, e) refl
    | inr (r, e) ↦
        rw (with_result, e)
          (test-set_ne live r k
            (elem-ne k r (operand_bits env (env.ir i).operands) m (result r e).1))
  ]

  -- Let the bit of the result, if there is one, lie in the live set and not be that of an operand, and
  -- let no operand with a bit stand there twice. The number of live values after updateLiveSet is then
  -- the number before it plus what pressureDelta returned.
  pub update_live_set-pressure_delta :
      Distinct (operand_bits env (env.ir i).operands)
      → pos (count live) +ℤ pressure_delta env i live ≡ pos (count (update_live_set env i live))
  unfolding pressure_delta update_live_set ◌+ℤ◌
  update_live_set-pressure_delta d =
      let out = (env.liveness (env.parent i)).out_set in
      let vs = (env.ir i).operands in
      let delta = operand_delta-deaths env out live vs (produced env i live) in
      let killed = kill_operands-deaths env out live vs with_result d test-with_result in
      let made = count-with_result in
      sub_ℕ-exact _ _ _ (omega (arith, delta, killed, made.0, made.1))
