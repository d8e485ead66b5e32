-- ===== src/Dataflow/Fill.antt =====
-- The states before the first pass.
use llvm_scheduling_reg_pres.Base.{
  ℕ, ◌≡◌, refl, sym, subst, ◌∙◌, Bool, true, false, ◌||◌, List, [], ◌∷◌, arith, elem, update, ◌==◌,
  if◌then◌else◌, ==_iff, ==_refl, Bool-cases, inl, inr,
}
use llvm_scheduling_reg_pres.Dataflow.{fill}

module _ {A : Type 0} (make : ℕ → A) where
  now_or_later :
      (k b : ℕ) (later : Bool) (st : ℕ → A)
      → (if later then make k else update st b (make b) k)
        ≡ (if (k == b) || later then make k else st k)
  now_or_later k b true st = elim (Bool-cases (k == b)) [ inl e ↦ rw e refl | inr e ↦ rw e refl ]
  now_or_later k b false st = elim (Bool-cases (k == b)) [
    | inl e ↦
        let is = (==_iff k b).0 e in
        subst (λ j. update st b (make b) j ≡ (if (j == b) || false then make j else st j)) (sym is)
          (rw (==_refl b) refl)
    | inr e ↦ let flipped : (b == k) ≡ false = ground arith in rw (e, flipped) refl
  ]

  pub fill_at :
      (bs : List ℕ) (st : ℕ → A) (k : ℕ) → fill make bs st k ≡ (if elem k bs then make k else st k)
  fill_at [] st k = refl
  fill_at (b ∷ bs) st k = fill_at bs (update st b (make b)) k ∙ now_or_later k b (elem k bs) st
