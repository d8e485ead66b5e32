-- ===== src/Trace/Sorted.antt =====
-- The order of the seeds.
use llvm_scheduling_reg_pres.Base.{
  ℕ, ◌≤◌, ◌≡◌, refl, true, ◌||◌, List, [], ◌∷◌, ltb, elem, arith, ◌==◌, Bool-cases, inl, inr, ap,
  ==_iff,
}
use llvm_scheduling_reg_pres.Trace.{insert_desc, sort_desc}

module _ (freq : ℕ → ℕ) where
  -- No block has a greater frequency than one in front of it.
  abbrev pub Falling : List ℕ → Type 0
  Falling [] = Unit
  Falling (b ∷ bs) = ((m : ℕ) → elem m bs ≡ true → freq m ≤ freq b) × Falling bs

  elem-insert_desc :
      (m b : ℕ) (bs : List ℕ) → elem m (insert_desc freq b bs) ≡ ((m == b) || elem m bs)
  elem-insert_desc m b [] = ground arith
  elem-insert_desc m b (x ∷ bs) = ground (arith, elem-insert_desc m b bs)

  Falling-insert_desc : (b : ℕ) (bs : List ℕ) → Falling bs → Falling (insert_desc freq b bs)
  Falling-insert_desc b [] f = ((λ m h. absurd (ground arith)), tt)
  Falling-insert_desc b (x ∷ bs) f = elim (Bool-cases (ltb (freq b) (freq x))) [
    | inl e ↦ rw e (
      (λ m h. elim (Bool-cases (m == b)) [
        | inl same ↦ let eq = ap freq ((==_iff m b).0 same) in ground arith
        | inr other ↦ f.0 m (ground (arith, elem-insert_desc m b bs))
      ]),
      Falling-insert_desc b bs f.1,
    )
    | inr e ↦ rw e (
      (λ m h. elim (Bool-cases (m == x)) [
        | inl same ↦ let eq = ap freq ((==_iff m x).0 same) in ground arith
        | inr other ↦ let old = f.0 m (ground arith) in ground arith
      ]),
      f,
    )
  ]

  pub elem-sort_desc : (m : ℕ) (bs : List ℕ) → elem m (sort_desc freq bs) ≡ elem m bs
  unfolding sort_desc
  elem-sort_desc m [] = refl
  elem-sort_desc m (b ∷ bs) =
      ground (arith, elem-insert_desc m b (sort_desc freq bs), elem-sort_desc m bs)

  pub Falling-sort_desc : (bs : List ℕ) → Falling (sort_desc freq bs)
  unfolding sort_desc
  Falling-sort_desc [] = tt
  Falling-sort_desc (b ∷ bs) = Falling-insert_desc b (sort_desc freq bs) (Falling-sort_desc bs)
