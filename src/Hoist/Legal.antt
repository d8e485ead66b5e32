-- ===== src/Hoist/Legal.antt =====
-- When a move to an earlier block of the trace is legal: the checks of applySchedule, said without it.
use llvm_scheduling_reg_pres.Base.{
  ℕ, zero, suc, ◌+◌, ◌<◌, ◌≡◌, ◌⊎◌, sym, ap, ◌∙◌, true, false, List, [], ◌∷◌, Option, none, some,
  elem, arith, ◌==◌, ==_iff, Bool-cases, Option-cases, inl, inr, All, get_elem?, update,
}
use llvm_scheduling_reg_pres.Base.Int.{pos, ◌+ℤ◌, ◌≤ℤ◌}
use llvm_scheduling_reg_pres.Ir.{Value, as_instruction}
use llvm_scheduling_reg_pres.Ir.BitVec.{count}
use llvm_scheduling_reg_pres.ListScheduler.{pressure_delta}
use llvm_scheduling_reg_pres.Legality.{anchor_of}
use llvm_scheduling_reg_pres.Hoist.{
  Hoister, HoistState, no_reason, check, terminator_of, operands_dominate, is_same_loop_or_outer,
  first_blocks, positions_from, trace_pos,
}

-- `a` stands before `b` in the trace.
abbrev pub Earlier : List ℕ → ℕ → ℕ → Type 0
Earlier trace a b =
    (m : ℕ) × (n : ℕ) × (m < n) × (get_elem? trace m ≡ some a) × (get_elem? trace n ≡ some b)

-- The place is one that an instruction of the block `from` may move to.
pub record IsAbove (h : Hoister) (from to : ℕ) : Type 0 where
  pub no_header : h.is_loop_header to ≡ false
  pub same_loop : h.loop_of from ≡ h.loop_of to
  pub dominates : h.block_dominates to from ≡ true

-- In this state the instruction can stand in front of `point`: the operands are there, it is safe to
-- compute, and the pressure stays within the budget.
pub record Fits (h : Hoister) (st : HoistState) (i to point : ℕ) : Type 0 where
  pub operands :
      All
        (λ v. (def : ℕ) → as_instruction v ≡ some def → h.dominates st.contents def point ≡ true)
        (h.env.ir i).operands
  pub safe : h.is_safe st.contents i point ≡ true
  pub pressure :
      h.use_pressure ≡ true
      → (pos (count (st.live to))
          +ℤ pressure_delta (record h.env { parent = st.parent }) i (st.live to))
        ≤ℤ pos h.budget

-- A legal move of `i` from the block `from` to the end of the block `to`.
pub record IsLegalMove (h : Hoister) (trace : List ℕ) (st : HoistState) (i from to : ℕ)
    : Type 0 where
  pub no_anchor : anchor_of h.env.ir i ≡ false
  pub earlier : Earlier trace to from
  pub above : IsAbove h from to
  pub point : ℕ
  pub ends : terminator_of h.env.ir (st.contents to) ≡ some point
  pub fits : Fits h st i to point

operands_dominate-All :
    (h : Hoister) (contents : ℕ → List ℕ) (point : ℕ) (vs : List Value)
    → operands_dominate h contents point vs ≡ true
    → All (λ v. (def : ℕ) → as_instruction v ≡ some def → h.dominates contents def point ≡ true) vs
operands_dominate-All h contents point [] e = tt
operands_dominate-All h contents point (v ∷ vs) e = elim (Option-cases (as_instruction v)) [
  | inl n ↦
      (λ def m. absurd (ground arith), operands_dominate-All h contents point vs (ground arith))
  | inr (d, s) ↦ (λ def m. ground arith, operands_dominate-All h contents point vs (ground arith))
]

same_loop-eq :
    (h : Hoister) (from to : ℕ)
    → is_same_loop_or_outer h from to ≡ true
    → h.loop_of from ≡ h.loop_of to
same_loop-eq h from to e = elim (Option-cases (h.loop_of from)) [
  | inl a ↦ elim (Option-cases (h.loop_of to)) [
    | inl b ↦ a ∙ sym b
    | inr (k, b) ↦ absurd (ground arith)
  ]
  | inr (l, a) ↦ elim (Option-cases (h.loop_of to)) [
    | inl b ↦ absurd (ground arith)
    | inr (k, b) ↦ a ∙ ap some ((==_iff l k).0 (ground arith)) ∙ sym b
  ]
]

module _ (h : Hoister) (st : HoistState) (from i to : ℕ)
    (ok : check h st from i to ≡ no_reason) where
  pub check-IsAbove : IsAbove h from to
  unfolding check
  check-IsAbove = record {
    no_header = ground arith;
    same_loop = same_loop-eq h from to (ground arith);
    dominates = ground arith;
  }

  pub check-Fits :
      (point : ℕ) → terminator_of h.env.ir (st.contents to) ≡ some point → Fits h st i to point
  unfolding check
  check-Fits point e = record {
    operands = operands_dominate-All h st.contents point (h.env.ir i).operands (ground arith);
    safe = ground arith;
    pressure = λ on. ground arith;
  }

  pub check-terminator : (point : ℕ) × (terminator_of h.env.ir (st.contents to) ≡ some point)
  unfolding check
  check-terminator = elim (Option-cases (terminator_of h.env.ir (st.contents to))) [
    | inl e ↦ absurd (ground arith)
    | inr found ↦ found
  ]

-- The map of positions.
positions_from-get_elem? :
    (bbs : List ℕ) (i : ℕ) (m : ℕ → Option ℕ) (b k : ℕ)
    → positions_from i bbs m b ≡ some k
    → (m b ≡ some k) ⊎ ((j : ℕ) × (k ≡ i + j) × (get_elem? bbs j ≡ some b))
positions_from-get_elem? [] i m b k e = inl e
positions_from-get_elem? (x ∷ bbs) i m b k e =
    elim (positions_from-get_elem? bbs (suc i) (update m x (some i)) b k e) [
      | inl here ↦ elim (Bool-cases (x == b)) [
        | inl s ↦ inr (0, ground arith, ap some ((==_iff x b).0 s))
        | inr o ↦ inl (ground arith)
      ]
      | inr (j, at, found) ↦ inr (suc j, omega (arith, at), found)
    ]

pub trace_pos-get_elem? :
    (trace : List ℕ) (b k : ℕ) → trace_pos trace b ≡ some k → get_elem? trace k ≡ some b
trace_pos-get_elem? trace b k e = elim (positions_from-get_elem? trace 0 (λ _. none) b k e) [
  | inl absent ↦ absurd (ground arith)
  | inr (j, at, found) ↦ ap (λ n. get_elem? trace n) (omega (arith, at)) ∙ found
]

pub first_blocks-get_elem? :
    (b n : ℕ) (trace : List ℕ)
    → elem b (first_blocks n trace) ≡ true
    → (m : ℕ) × (m < n) × (get_elem? trace m ≡ some b)
first_blocks-get_elem? b zero trace e = absurd (ground arith)
first_blocks-get_elem? b (suc n) [] e = absurd (ground arith)
first_blocks-get_elem? b (suc n) (t ∷ ts) e = elim (Bool-cases (b == t)) [
  | inl s ↦ (0, omega arith, ap some (sym ((==_iff b t).0 s)))
  | inr o ↦
      let (m, lt, found) = first_blocks-get_elem? b n ts (ground arith) in
      (suc m, omega (arith, lt), found)
]
