-- ===== src/Dataflow/Fixpoint.antt =====
-- When the loop ends, and what it ends with.
use llvm_scheduling_reg_pres.Base.{
  ℕ, zero, suc, ◌+◌, ◌*◌, ◌≤◌, ◌<◌, ◌≡◌, refl, sym, ap, subst, ◌∙◌, Bool, true, false, ◌||◌, List,
  [], ◌∷◌, Option, some, update, update_same, elem, arith, ◌==◌, ==_iff, ==_refl, Bool-cases, inl,
  inr, length,
}
use llvm_scheduling_reg_pres.Dataflow.{sweep, iterate}

-- The laws of an analysis. `key` is what a step reads of other blocks' values and compares with its
-- own, `measure` falls with each change that counts.
pub record Analysis (A K : Type 0) (step : ℕ → (ℕ → A) → A × Bool) (order : List ℕ) : Type 1 where
  pub key : A → K
  pub measure : A → ℕ
  pub Inv : (ℕ → A) → Type 0
  pub keeps : (b : ℕ) (st : ℕ → A) → elem b order ≡ true → Inv st → Inv (update st b (step b st).0)
  pub falls :
      (b : ℕ) (st : ℕ → A)
      → elem b order ≡ true
      → Inv st
      → (step b st).1 ≡ true
      → measure (step b st).0 < measure (st b)
  pub rests :
      (b : ℕ) (st : ℕ → A)
      → elem b order ≡ true
      → Inv st
      → (step b st).1 ≡ false
      → key (step b st).0 ≡ key (st b)
  pub measure_key : (x y : A) → key x ≡ key y → measure x ≡ measure y
  pub reads :
      (b : ℕ) (st st' : ℕ → A) → ((k : ℕ) → key (st k) ≡ key (st' k)) → step b st ≡ step b st'

module _ (A K : Type 0) (step : ℕ → (ℕ → A) → A × Bool) (order : List ℕ)
    (an : Analysis A K step order) where
  open an use {key, measure, Inv, keeps, falls, rests, measure_key, reads}

  pub total : List ℕ → (ℕ → A) → ℕ
  total [] st = 0
  total (b ∷ bs) st = measure (st b) + total bs st

  pub total-le :
      (bound : ℕ) (bs : List ℕ) (st : ℕ → A)
      → ((b : ℕ) → measure (st b) ≤ bound)
      → total bs st ≤ length bs * bound
  unfolding total
  total-le bound [] st h = omega arith
  total-le bound (b ∷ bs) st h = let rest = total-le bound bs st h in let one = h b in grind arith

  total-update-le :
      (b : ℕ) (a : A) (bs : List ℕ) (st : ℕ → A)
      → measure a ≤ measure (st b)
      → total bs (update st b a) ≤ total bs st
  unfolding total
  total-update-le b a [] st h = omega arith
  total-update-le b a (c ∷ bs) st h =
      let rest = total-update-le b a bs st h in
      elim (Bool-cases (b == c)) [
        | inl e ↦
            let same = ap (λ k. measure (st k)) ((==_iff b c).0 e) in
            let new : measure (update st b a c) ≡ measure a = rw e refl in
            omega (arith, rest, same, new, h)
        | inr e ↦
            let new : measure (update st b a c) ≡ measure (st c) = rw e refl in
            omega (arith, rest, new)
      ]

  total-update-lt :
      (b : ℕ) (a : A) (bs : List ℕ) (st : ℕ → A)
      → elem b bs ≡ true
      → measure a < measure (st b)
      → total bs (update st b a) < total bs st
  unfolding total
  total-update-lt b a [] st m h = absurd (ground arith)
  total-update-lt b a (c ∷ bs) st m h = elim (Bool-cases (b == c)) [
    | inl e ↦
        let rest = total-update-le b a bs st (omega (arith, h)) in
        let same = ap (λ k. measure (st k)) ((==_iff b c).0 e) in
        let new : measure (update st b a c) ≡ measure a = rw e refl in
        omega (arith, rest, same, new, h)
    | inr e ↦
        let rest = total-update-lt b a bs st (ground arith) h in
        let new : measure (update st b a c) ≡ measure (st c) = rw e refl in omega (arith, rest, new)
  ]

  -- The same keys everywhere.
  abbrev SameKeys : (ℕ → A) → (ℕ → A) → Type 0
  SameKeys st st' = (k : ℕ) → key (st k) ≡ key (st' k)

  SameKeys-update : (b : ℕ) (a : A) (st : ℕ → A) → key a ≡ key (st b) → SameKeys st (update st b a)
  SameKeys-update b a st e k = sym (update_same key st b a k e)

  abbrev Within : List ℕ → Type 0
  Within bs = (b : ℕ) → elem b bs ≡ true → elem b order ≡ true

  -- What a pass does.
  pub record Swept (bs : List ℕ) (st : ℕ → A) (result : (ℕ → A) × Bool) : Type 0 where
    pub inv : Inv result.0
    pub no_more : total order result.0 ≤ total order st
    pub less : result.1 ≡ true → total order result.0 < total order st
    pub same : result.1 ≡ false → SameKeys st result.0
    pub settled :
        result.1 ≡ false → (b : ℕ) → elem b bs ≡ true → step b result.0 ≡ (result.0 b, false)
    pub untouched : (b : ℕ) → elem b bs ≡ false → result.0 b ≡ st b

  Swept-nil : (st : ℕ → A) → Inv st → Swept [] st (st, false)
  Swept-nil st i = record {
    inv = i;
    no_more = omega arith;
    less = λ h. cc;
    same = λ h k. refl;
    settled = λ h b m. absurd (ground arith);
    untouched = λ b m. refl;
  }

  module _ (b : ℕ) (bs : List ℕ) (st : ℕ → A) (at : elem b order ≡ true) (i : Inv st)
      (rest : (ℕ → A) × Bool) (swept : Swept bs (update st b (step b st).0) rest) where
    no_more_cons : total order rest.0 ≤ total order st
    no_more_cons = elim (Bool-cases (step b st).1) [
      | inl e ↦
          let one = total-update-lt b (step b st).0 order st at (falls b st at i e) in
          omega (arith, one, swept.no_more)
      | inr e ↦
          let same = measure_key (step b st).0 (st b) (rests b st at i e) in
          let one = total-update-le b (step b st).0 order st (omega (arith, same)) in
          omega (arith, one, swept.no_more)
    ]

    less_cons : ((step b st).1 || rest.1) ≡ true → total order rest.0 < total order st
    less_cons h = elim (Bool-cases (step b st).1) [
      | inl e ↦
          let one = total-update-lt b (step b st).0 order st at (falls b st at i e) in
          omega (arith, one, swept.no_more)
      | inr e ↦
          let same = measure_key (step b st).0 (st b) (rests b st at i e) in
          let one = total-update-le b (step b st).0 order st (omega (arith, same)) in
          let later = swept.less (ground arith) in omega (arith, one, later)
    ]

    same_cons : ((step b st).1 || rest.1) ≡ false → SameKeys st rest.0
    same_cons h k =
        SameKeys-update b (step b st).0 st (rests b st at i (ground arith)) k
        ∙ swept.same (ground arith) k

    settled_cons :
        ((step b st).1 || rest.1) ≡ false
        → (c : ℕ) → elem c (b ∷ bs) ≡ true
        → step c rest.0 ≡ (rest.0 c, false)
    settled_cons h c m = elim (Bool-cases (elem c bs)) [
      | inl later ↦ swept.settled (ground arith) c later
      | inr only ↦
          let is : c ≡ b = (==_iff c b).0 (ground arith) in
          let at_b : update st b (step b st).0 b ≡ (step b st).0 = rw (==_refl b) refl in
          let kept : rest.0 b ≡ (step b st).0 =
            swept.untouched b (ap (λ k. elem k bs) (sym is) ∙ only) ∙ at_b in
          let read : step b rest.0 ≡ step b st = sym (reads b st rest.0 (same_cons h)) in
          let quiet : (step b st).1 ≡ false = ground arith in
          subst (λ k. step k rest.0 ≡ (rest.0 k, false)) (sym is)
            (read ∙ rw (kept) (ap (λ c. ((step b st).0, c)) quiet))
    ]

  sweep-Swept : (bs : List ℕ) (st : ℕ → A) → Within bs → Inv st → Swept bs st (sweep step bs st)
  unfolding sweep
  sweep-Swept [] st w i = Swept-nil st i
  sweep-Swept (b ∷ bs) st w i =
      let at = w b (ground arith) in
      let swept =
        sweep-Swept bs (update st b (step b st).0) (λ c m. w c (ground arith)) (keeps b st at i) in
      let rest = sweep step bs (update st b (step b st).0) in
      record {
        inv = swept.inv;
        no_more = no_more_cons b bs st at i rest swept;
        less = less_cons b bs st at i rest swept;
        same = same_cons b bs st at i rest swept;
        settled = settled_cons b bs st at i rest swept;
        untouched = λ c m.
            let other : (b == c) ≡ false = ground arith in
            let new : update st b (step b st).0 c ≡ st c = rw other refl in
            swept.untouched c (ground arith) ∙ new;
      }

  -- What the loop ends with: a state that no step changes.
  pub record Settled (result : Option (ℕ → A)) : Type 0 where
    pub end : ℕ → A
    pub returns : result ≡ some end
    pub inv : Inv end
    pub fixed : (b : ℕ) → elem b order ≡ true → step b end ≡ (end b, false)

  pub iterate-Settled :
      (fuel : ℕ) (st : ℕ → A)
      → Inv st
      → total order st < fuel
      → Settled (iterate step fuel order st)
  unfolding iterate
  iterate-Settled zero st i enough = absurd (omega (arith, enough))
  iterate-Settled (suc fuel) st i enough =
      let s = sweep-Swept order st (λ b m. m) i in
      elim (Bool-cases (sweep step order st).1) [
        | inl e ↦
            let less = s.less e in
            rw (iterate, e)
              (iterate-Settled fuel (sweep step order st).0 s.inv (omega (arith, less, enough)))
        | inr e ↦
            rw (iterate, e)
              (record {
                end = (sweep step order st).0;
                returns = refl;
                inv = s.inv;
                fixed = s.settled e;
              })
      ]
