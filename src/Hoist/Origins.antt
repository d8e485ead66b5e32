-- ===== src/Hoist/Origins.antt =====
-- The map originalBlock of applySchedule.
use llvm_scheduling_reg_pres.Base.{
  ℕ, ◌≡◌, ◌⊎◌, refl, sym, ap, ◌∙◌, true, false, List, [], ◌∷◌, Option, some, elem, arith, ◌==◌,
  ==_iff, Bool-cases, inl, inr, update,
}
use llvm_scheduling_reg_pres.Hoist.{note_all, original_blocks}
use llvm_scheduling_reg_pres.Hoist.Placed.{IsPlaced, standing}

-- originalBlock maps each instruction of the trace to the block that it stands in.
note_all-get :
    (bb : ℕ) (is : List ℕ) (m : ℕ → Option ℕ) (i : ℕ)
    → (note_all bb is m i ≡ some bb) ⊎ ((elem i is ≡ false) × (note_all bb is m i ≡ m i))
note_all-get bb [] m i = inr (refl, refl)
note_all-get bb (x ∷ is) m i = elim (note_all-get bb is (update m x (some bb)) i) [
  | inl e ↦ inl e
  | inr (out, same) ↦ elim (Bool-cases (x == i)) [
    | inl e ↦ inl (ground arith)
    | inr e ↦ inr (let flip = ==_iff i x in let flop = ==_iff x i in ground arith, ground arith)
  ]
]

module _ (contents : ℕ → List ℕ) (parent : ℕ → ℕ) (p : IsPlaced contents parent) (i : ℕ) where
  original_blocks-kept :
      (bbs : List ℕ) (m : ℕ → Option ℕ)
      → m i ≡ some (parent i)
      → original_blocks contents bbs m i ≡ some (parent i)
  original_blocks-kept [] m e = e
  original_blocks-kept (b ∷ bbs) m e =
      original_blocks-kept bbs (note_all b (contents b) m)
        (elim (Bool-cases (elem i (contents b))) [
          | inl here ↦ elim (note_all-get b (contents b) m i) [
            | inl n ↦ n ∙ ap some (sym (p.home b i here))
            | inr (out, same) ↦ same ∙ e
          ]
          | inr away ↦ note_all-away b (contents b) m away ∙ e
        ])
    where
      note_all-away :
          (bb : ℕ) (is : List ℕ) (m : ℕ → Option ℕ) → elem i is ≡ false → note_all bb is m i ≡ m i
      note_all-away bb [] m out = refl
      note_all-away bb (x ∷ is) m out =
          note_all-away bb is (update m x (some bb)) (ground arith)
          ∙ (let flop = ==_iff x i in let flip = ==_iff i x in ground arith)

  pub original_blocks-home :
      (bbs : List ℕ) (m : ℕ → Option ℕ)
      → standing contents parent i ≡ true
      → elem (parent i) bbs ≡ true
      → original_blocks contents bbs m i ≡ some (parent i)
  original_blocks-home [] m s e = absurd (ground arith)
  original_blocks-home (b ∷ bbs) m s e = elim (Bool-cases (parent i == b)) [
    | inl here ↦
        let is = (==_iff (parent i) b).0 here in
        original_blocks-kept bbs (note_all b (contents b) m)
          (elim (note_all-get b (contents b) m i) [
            | inl n ↦ n ∙ ap some (sym is)
            | inr (out, _) ↦ absurd (let at = ap (λ k. elem i (contents k)) is in ground arith)
          ])
    | inr away ↦ original_blocks-home bbs (note_all b (contents b) m) s (ground arith)
  ]
