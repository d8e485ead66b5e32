-- ===== src/Trace/Paths.antt =====
-- The growth loops: they end, and what they add are new blocks, joined by edges above the threshold.
use llvm_scheduling_reg_pres.Base.{
  ℕ, zero, suc, ◌<◌, ◌≡◌, refl, true, false, ◌||◌, List, [], ◌∷◌, Option, some, elem, arith, ◌==◌,
  Bool-cases, Option-cases, inl, inr, ap, ◌∙◌, ==_iff, Distinct, missing, missing-cons, elem-ne,
}
use llvm_scheduling_reg_pres.Trace.{
  Profile, Search, Counters, Growth, Trace, best_successor, best_predecessor, grow_forward,
  grow_backward,
}
use llvm_scheduling_reg_pres.Trace.Choice.{best_successor-IsBest, best_predecessor-IsBest}

-- `blocks` are the blocks of the function: its edges lead from one of them to another, and the two
-- lists of neighbours agree.
pub record IsCfg (p : Profile) (blocks : List ℕ) : Type 0 where
  pub distinct : Distinct blocks
  pub entry_in : elem p.entry blocks ≡ true
  pub succ_in :
      (a b : ℕ) → elem a blocks ≡ true → elem b (p.successors a) ≡ true → elem b blocks ≡ true
  pub pred_in :
      (a b : ℕ)
      → elem b blocks ≡ true
      → elem a (p.predecessors b) ≡ true
      → (elem a blocks ≡ true) × (elem b (p.successors a) ≡ true)

-- An edge above the threshold.
abbrev pub Hot : Profile → (threshold : ℕ) → ℕ → ℕ → Type 0
Hot p threshold a b = (elem b (p.successors a) ≡ true) × (threshold < p.probability a b)

-- Each block is followed by one that such an edge leads to.
abbrev pub HotFrom : Profile → (threshold : ℕ) → ℕ → List ℕ → Type 0
HotFrom p threshold a [] = Unit
HotFrom p threshold a (b ∷ bs) = Hot p threshold a b × HotFrom p threshold b bs

-- A path along such edges, of one block at least.
abbrev pub HotPath : Profile → (threshold : ℕ) → List ℕ → Type 0
HotPath p threshold [] = ⊥
HotPath p threshold (b ∷ bs) = HotFrom p threshold b bs

-- The items of the first list, one after another, put in front of the second.
abbrev pub rev_onto : List ℕ → List ℕ → List ℕ
rev_onto [] ys = ys
rev_onto (x ∷ xs) ys = rev_onto xs (x ∷ ys)

pub elem-rev_onto : (m : ℕ) (xs ys : List ℕ) → elem m (rev_onto xs ys) ≡ (elem m xs || elem m ys)
elem-rev_onto m [] ys = refl
elem-rev_onto m (x ∷ xs) ys = ground (arith, elem-rev_onto m xs (x ∷ ys))

pub Distinct-rev_onto :
    (xs ys : List ℕ)
    → Distinct xs
    → Distinct ys
    → ((m : ℕ) → elem m xs ≡ true → elem m ys ≡ false)
    → Distinct (rev_onto xs ys)
Distinct-rev_onto [] ys dx dy apart = dy
Distinct-rev_onto (x ∷ xs) ys dx dy apart =
    Distinct-rev_onto xs (x ∷ ys) dx.1 (apart x (ground arith), dy)
      (λ m h. let ne = elem-ne m x xs h dx.0 in ground (arith, apart m))

module _ (s : Search) (blocks : List ℕ) (cfg : IsCfg s.profile blocks) where
  -- New blocks, with `visited` grown by them.
  pub record IsNew (visited added visited' : List ℕ) : Type 0 where
    pub distinct : Distinct added
    pub fresh : (m : ℕ) → elem m added ≡ true → elem m visited ≡ false
    pub inside : (m : ℕ) → elem m added ≡ true → elem m blocks ≡ true
    pub union : (m : ℕ) → elem m visited' ≡ (elem m added || elem m visited)

  pub IsNew-nil : (visited : List ℕ) → IsNew visited [] visited
  IsNew-nil visited = record {
    distinct = tt;
    fresh = λ m h. absurd (ground arith);
    inside = λ m h. absurd (ground arith);
    union = λ m. refl;
  }

  -- A new block before those that are new once it is visited.
  pub IsNew-cons :
      (n : ℕ) (visited added visited' : List ℕ)
      → elem n visited ≡ false
      → elem n blocks ≡ true
      → IsNew (n ∷ visited) added visited'
      → IsNew visited (n ∷ added) visited'
  IsNew-cons n visited added visited' new_n in_n i =
      let not_again : elem n added ≡ false = elim (Bool-cases (elem n added)) [
        | inr e ↦ e
        | inl e ↦ let f = i.fresh n e in ground arith
      ] in
      record {
        distinct = (not_again, i.distinct);
        fresh = λ m h. elim (Bool-cases (m == n)) [
          | inl e ↦ ap (λ k. elem k visited) ((==_iff m n).0 e) ∙ new_n
          | inr e ↦ ground (arith, i.fresh m)
        ];
        inside = λ m h. elim (Bool-cases (m == n)) [
          | inl e ↦ ap (λ k. elem k blocks) ((==_iff m n).0 e) ∙ in_n
          | inr e ↦ ground (arith, i.inside m)
        ];
        union = λ m. ground (arith, i.union m);
      }

  pub record GrowsForward (current : ℕ) (visited : List ℕ) (result : Option Growth) : Type 0 where
    pub growth : Growth
    pub returns : result ≡ some growth
    pub new : IsNew visited growth.added growth.visited
    pub hot : HotFrom s.profile s.threshold current growth.added

  pub grow_forward-GrowsForward :
      (fuel current : ℕ) (visited : List ℕ) (counters : Counters)
      → elem current blocks ≡ true
      → missing blocks visited < fuel
      → GrowsForward current visited (grow_forward s fuel current visited counters)
  unfolding grow_forward
  grow_forward-GrowsForward zero current visited counters at enough = absurd (omega (arith, enough))
  grow_forward-GrowsForward (suc fuel) current visited counters at enough =
      let c = best_successor s visited current counters in
      let b = best_successor-IsBest s visited current counters in
      elim (Option-cases c.best) [
        | inl e ↦ record {
          growth = record { added = []; visited = visited; counters = c.counters };
          returns = rw (grow_forward, e) refl;
          new = IsNew-nil visited;
          hot = tt;
        }
        | inr (next, e) ↦
            let (is_succ, good, _) = b.found next e in
            let new_next : elem next visited ≡ false = ground arith in
            let next_in = cfg.succ_in current next at is_succ in
            let smaller = missing-cons next blocks visited cfg.distinct next_in new_next in
            let rest =
              grow_forward-GrowsForward fuel next (next ∷ visited) c.counters next_in
                (omega (arith, smaller, enough)) in
            record {
              growth = record rest.growth { added = next ∷ rest.growth.added };
              returns = rw (grow_forward, e, rest.returns) refl;
              new =
                  IsNew-cons next visited rest.growth.added rest.growth.visited new_next next_in
                    rest.new;
              hot = ((is_succ, ground arith), rest.hot);
            }
      ]

  pub record GrowsBackward (trace visited : List ℕ) (result : Option Trace) : Type 0 where
    pub grown : Trace
    pub returns : result ≡ some grown
    pub added : List ℕ
    pub split : grown.blocks ≡ rev_onto added trace
    pub new : IsNew visited added grown.visited
    pub hot : HotPath s.profile s.threshold grown.blocks

  pub grow_backward-GrowsBackward :
      (fuel current : ℕ) (rest visited : List ℕ) (counters : Counters)
      → elem current blocks ≡ true
      → HotFrom s.profile s.threshold current rest
      → missing blocks visited < fuel
      → GrowsBackward
          (current ∷ rest)
          visited
          (grow_backward s fuel current (current ∷ rest) visited counters)
  unfolding grow_backward
  grow_backward-GrowsBackward zero current rest visited counters at hot enough =
      absurd (omega (arith, enough))
  grow_backward-GrowsBackward (suc fuel) current rest visited counters at hot enough =
      let c = best_predecessor s visited current counters in
      let b = best_predecessor-IsBest s visited current counters in
      elim (Option-cases c.best) [
        | inl e ↦ record {
          grown = record { blocks = current ∷ rest; visited = visited; counters = c.counters };
          returns = rw (grow_backward, e) refl;
          added = [];
          split = refl;
          new = IsNew-nil visited;
          hot = hot;
        }
        | inr (prev, e) ↦
            let (is_pred, good, _) = b.found prev e in
            let new_prev : elem prev visited ≡ false = ground arith in
            let (prev_in, is_succ) = cfg.pred_in prev current at is_pred in
            let smaller = missing-cons prev blocks visited cfg.distinct prev_in new_prev in
            let r =
              grow_backward-GrowsBackward fuel prev (current ∷ rest) (prev ∷ visited) c.counters
                prev_in ((is_succ, ground arith), hot) (omega (arith, smaller, enough)) in
            record {
              grown = r.grown;
              returns = rw (grow_backward, e) r.returns;
              added = prev ∷ r.added;
              split = r.split;
              new = IsNew-cons prev visited r.added r.grown.visited new_prev prev_in r.new;
              hot = r.hot;
            }
      ]
