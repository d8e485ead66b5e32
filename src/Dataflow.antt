-- ===== src/Dataflow.antt =====
-- The loop that computeLiveness, computeReaching and computeDominators share: while (changed) a pass
-- over the blocks that recomputes what the analysis keeps for each. `step` gives the new value for a
-- block, and whether the pass has to be repeated.
pub mod Fixpoint
pub mod Flow
pub mod Union
pub mod Fill
use llvm_scheduling_reg_pres.Base.{
  ℕ, zero, suc, Bool, true, false, ◌||◌, List, [], ◌∷◌, Option, none, some, update,
}

module _ {A : Type 0} (step : ℕ → (ℕ → A) → A × Bool) where
  -- One pass.
  unfoldable pub sweep : List ℕ → (ℕ → A) → (ℕ → A) × Bool
  sweep [] st = (st, false)
  sweep (b ∷ bs) st =
      let new = step b st in let rest = sweep bs (update st b new.0) in (rest.0, new.1 || rest.1)

  -- Fuel bounds the number of passes; `none` means that it ran out.
  unfoldable pub iterate : (fuel : ℕ) → List ℕ → (ℕ → A) → Option (ℕ → A)
  unfolding sweep
  iterate zero bs st = none
  iterate (suc fuel) bs st = elim (sweep bs st).1 [
    | true ↦ iterate fuel bs (sweep bs st).0
    | false ↦ some (sweep bs st).0
  ]

-- for (BB : bs) st[BB] = make(BB);
abbrev pub fill : {A : Type 0} → (ℕ → A) → List ℕ → (ℕ → A) → ℕ → A
fill make [] st = st
fill make (b ∷ bs) st = fill make bs (update st b (make b))
