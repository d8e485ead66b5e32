-- ===== src/ListScheduler/Choice.antt =====
-- pickBest takes the first of the best nodes of the queue.
use llvm_scheduling_reg_pres.Base.{
  ℕ, ◌≡◌, refl, sym, subst, Bool, true, false, List, [], ◌∷◌, ◌++◌, some, elem, elem-append,
  append_assoc, append-nil, arith, ◌⊎◌, inl, inr, Bool-cases, ◌≢◌, ◌&&◌, ◌||◌, if◌then◌else◌,
}
use llvm_scheduling_reg_pres.Base.Int.{ℤ, ◌≤ℤ◌, ◌<ℤ◌, ltb_ℤ, eqb_ℤ}
use llvm_scheduling_reg_pres.Ir.BitVec.{BitVec}
use llvm_scheduling_reg_pres.Ddg.{Ddg}
use llvm_scheduling_reg_pres.ListScheduler.{
  PressureEnv, Best, no_best, consider, pick_from, pick_best, node_cp, node_delta,
}

module _ (cp delta : ℕ → ℤ) where
  -- `n` has a longer critical path than `m`, or as long a one and a lower pressure delta.
  abbrev pub Beats : ℕ → ℕ → Type 0
  Beats n m = (cp m <ℤ cp n) ⊎ (cp m ≤ℤ cp n) × (delta n <ℤ delta m)

  -- `n` is at least as good as `m`.
  abbrev pub Ties : ℕ → ℕ → Type 0
  Ties n m = (cp m <ℤ cp n) ⊎ (cp m ≤ℤ cp n) × (delta n ≤ℤ delta m)

  -- `n` beats all that stands before it in the queue, and nothing behind it beats `n`.
  pub record IsFirstBest (queue : List ℕ) (n : ℕ) : Type 0 where
    pub before : List ℕ
    pub after : List ℕ
    pub split : queue ≡ before ++ n ∷ after
    pub beats : (m : ℕ) → elem m before ≡ true → Beats n m
    pub ties : (m : ℕ) → elem m after ≡ true → Ties n m

  record Chosen (queue : List ℕ) (b : Best) : Type 0 where
    node : ℕ
    is_node : b.best ≡ some node
    is_cp : b.best_cp ≡ cp node
    is_delta : b.best_delta ≡ delta node
    first : IsFirstBest queue node

  Beats-trans : (x n m : ℕ) → Beats x n → Ties n m → Beats x m
  Beats-trans x n m h k = omega arith

  Ties-of : (n x : ℕ) → ¬ Beats x n → Ties n x
  Ties-of n x h = ground arith

  Beats-step :
      {queue : List ℕ} {b : Best} (x : ℕ) (c : Chosen queue b)
      → Beats x c.node
      → (m : ℕ) → elem m queue ≡ true
      → Beats x m
  Beats-step {queue} x c h m e =
      let d : elem m (c.first.before ++ c.node ∷ c.first.after) ≡ true =
        subst (λ q. elem m q ≡ true) c.first.split e in
      ground (
        arith,
        elem-append m c.first.before (c.node ∷ c.first.after),
        c.first.beats m,
        c.first.ties m,
        Beats-trans x c.node m,
      )

  Chosen-new :
      (queue : List ℕ) (x : ℕ)
      → ((m : ℕ) → elem m queue ≡ true → Beats x m)
      → Chosen (queue ++ x ∷ []) (record { best = some x; best_cp = cp x; best_delta = delta x })
  Chosen-new queue x h = record {
    node = x;
    is_node = refl;
    is_cp = refl;
    is_delta = refl;
    first = record {
      before = queue;
      after = [];
      split = refl;
      beats = h;
      ties = λ m e. ground arith;
    };
  }

  Chosen-keep :
      {queue : List ℕ} {b : Best} (x : ℕ) (c : Chosen queue b)
      → Ties c.node x
      → Chosen (queue ++ x ∷ []) b
  Chosen-keep {queue} x c h = record {
    node = c.node;
    is_node = c.is_node;
    is_cp = c.is_cp;
    is_delta = c.is_delta;
    first = record {
      before = c.first.before;
      after = c.first.after ++ x ∷ [];
      split =
          subst (λ q. q ++ x ∷ [] ≡ c.first.before ++ c.node ∷ (c.first.after ++ x ∷ []))
            (sym c.first.split) (append_assoc c.first.before (c.node ∷ c.first.after) (x ∷ []));
      beats = c.first.beats;
      ties = λ m e. ground (arith, elem-append m c.first.after (x ∷ []), c.first.ties m);
    };
  }

  wins : ℕ → Best → Bool
  wins x b = ltb_ℤ b.best_cp (cp x) || (eqb_ℤ (cp x) b.best_cp && ltb_ℤ (delta x) b.best_delta)

  consider-wins :
      (x : ℕ) (b : Best)
      → consider cp delta x b
        ≡ (if wins x b then record { best = some x; best_cp = cp x; best_delta = delta x } else b)
  unfolding wins
  consider-wins x b = ground arith

  wins-Beats :
      {queue : List ℕ} {b : Best} (x : ℕ) (c : Chosen queue b) → wins x b ≡ true → Beats x c.node
  unfolding wins
  wins-Beats x c e = let cp_is = c.is_cp in let delta_is = c.is_delta in ground arith

  not_wins-Ties :
      {queue : List ℕ} {b : Best} (x : ℕ) (c : Chosen queue b) → wins x b ≡ false → Ties c.node x
  unfolding wins
  not_wins-Ties x c e = let cp_is = c.is_cp in let delta_is = c.is_delta in ground arith

  Chosen-consider :
      {queue : List ℕ} {b : Best} (x : ℕ)
      → Chosen queue b
      → Chosen (queue ++ x ∷ []) (consider cp delta x b)
  Chosen-consider {queue} {b} x c = elim (Bool-cases (wins x b)) [
    | inl e ↦ rw (consider-wins, e) (Chosen-new queue x (Beats-step x c (wins-Beats x c e)))
    | inr e ↦ rw (consider-wins, e) (Chosen-keep x c (not_wins-Ties x c e))
  ]

  Chosen-pick_from :
      (rest queue : List ℕ) (b : Best)
      → Chosen queue b
      → Chosen (queue ++ rest) (pick_from cp delta rest b)
  unfolding pick_from
  Chosen-pick_from [] queue b c = rw append-nil c
  Chosen-pick_from (x ∷ rest) queue b c =
      subst (λ q. Chosen q (pick_from cp delta rest (consider cp delta x b)))
        (append_assoc queue (x ∷ []) rest)
        (Chosen-pick_from rest (queue ++ x ∷ []) (consider cp delta x b) (Chosen-consider x c))

elem-IsFirstBest :
    {cp delta : ℕ → ℤ} {queue : List ℕ} (n : ℕ) → IsFirstBest cp delta queue n → elem n queue ≡ true
elem-IsFirstBest n f =
    subst (λ q. elem n q ≡ true) (sym f.split)
      (ground (arith, elem-append n f.before (n ∷ f.after)))

-- From a queue that is not empty pickBest returns a node of it: the first one that no other node
-- beats, by a longer critical path or by an equal one with a lower pressure delta.
pub pick_best-IsFirstBest :
    (g : Ddg) (env : PressureEnv) (use_reg_pressure : Bool) (live : BitVec) (ready : List ℕ)
    → ready ≢ []
    → (n : ℕ) × (pick_best g env use_reg_pressure live ready ≡ some n)
      × IsFirstBest (node_cp g) (node_delta g env use_reg_pressure live) ready n
unfolding pick_best
pick_best-IsFirstBest g env p live [] h = absurd (h refl)
pick_best-IsFirstBest g env p live (x ∷ rest) h =
    let cp = node_cp g in
    let delta = node_delta g env p live in
    let first : consider cp delta x no_best
        ≡ record { best = some x; best_cp = cp x; best_delta = delta x } =
      ground arith in
    let c =
      Chosen-pick_from cp delta rest (x ∷ []) (consider cp delta x no_best)
        (rw first (Chosen-new cp delta [] x (λ m e. absurd (ground arith)))) in
    (c.node, c.is_node, c.first)

pub pick_best-elem :
    (g : Ddg) (env : PressureEnv) (use_reg_pressure : Bool) (live : BitVec) (ready : List ℕ)
    → ready ≢ []
    → (n : ℕ) × (pick_best g env use_reg_pressure live ready ≡ some n) × (elem n ready ≡ true)
pick_best-elem g env p live ready h =
    let (n, e, f) = pick_best-IsFirstBest g env p live ready h in (n, e, elem-IsFirstBest n f)
