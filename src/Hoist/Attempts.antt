-- ===== src/Hoist/Attempts.antt =====
-- One attempt of the loop over the targets: it moves the instruction, or it notes a reason.
use llvm_scheduling_reg_pres.Base.{ℕ, ◌≡◌, ◌≤◌, ◌⊎◌, refl, List, ◌∷◌, some, inl, inr, arith}
use llvm_scheduling_reg_pres.Hoist.{
  Hoister, HoistState, Reason, no_reason, loop, dominance, operand, unsafe, pressure, check,
  move_up, try_targets, note_reason, rank,
}

module _ (h : Hoister) (st : HoistState) (orig i : ℕ) (best : Reason) (t : ℕ) (ts : List ℕ) where
  abbrev pub Moves : Type 0
  Moves =
      try_targets h st orig i best (t ∷ ts)
      ≡ record { reason = best; moved = some (move_up h i t st) }

  abbrev pub Notes : Type 0
  Notes =
      (r : Reason) × (1 ≤ rank r)
      × (try_targets h st orig i best (t ∷ ts)
          ≡ try_targets h st orig i (note_reason h.stats_on r best) ts)

  by_reason :
      (r : Reason) → check h st orig i t ≡ r → ((check h st orig i t ≡ no_reason) × Moves) ⊎ Notes
  unfolding try_targets
  by_reason no_reason e = inl (e, rw (try_targets, e) refl)
  by_reason loop e = inr (loop, omega arith, rw (try_targets, e) refl)
  by_reason dominance e = inr (dominance, omega arith, rw (try_targets, e) refl)
  by_reason operand e = inr (operand, omega arith, rw (try_targets, e) refl)
  by_reason unsafe e = inr (unsafe, omega arith, rw (try_targets, e) refl)
  by_reason pressure e = inr (pressure, omega arith, rw (try_targets, e) refl)

  pub try_targets-checked : ((check h st orig i t ≡ no_reason) × Moves) ⊎ Notes
  try_targets-checked = by_reason (check h st orig i t) refl

  pub try_targets-cons : Moves ⊎ Notes
  try_targets-cons = elim try_targets-checked [ inl m ↦ inl m.1 | inr n ↦ inr n ]
