-- ===== src/Trace/Choice.antt =====
-- bestSuccessor and bestPredecessor: the neighbour that they choose.
use llvm_scheduling_reg_pres.Base.{
  ℕ, ◌≤◌, ◌≡◌, refl, Bool, true, false, not, ◌&&◌, ◌||◌, List, [], ◌∷◌, Option, none, some, ltb,
  if◌then◌else◌, elem, arith, ◌==◌, Bool-cases, inl, inr, ap, sym, subst, ◌∙◌, ==_iff,
}
use llvm_scheduling_reg_pres.Trace.{
  Search, Counters, Candidate, weigh, weigh_all, best_successor, best_predecessor, bfs_pos,
}

-- May the trace grow over an edge of this probability?
abbrev pub eligible : (threshold : ℕ) → (visited back : Bool) → (prob : ℕ) → Bool
eligible threshold visited back prob = not visited && ltb threshold prob && not back

-- `best` is the item of a list that may be chosen with the greatest probability, `none` when none may.
pub record IsBest (ok : ℕ → Bool) (prob : ℕ → ℕ) (items : ℕ → Bool) (best : Option ℕ) : Type 0 where
  pub found :
      (n : ℕ)
      → best ≡ some n
      → (items n ≡ true)
        × (ok n ≡ true)
        × ((m : ℕ) → items m ≡ true → ok m ≡ true → prob m ≤ prob n)
  pub missed : best ≡ none → (m : ℕ) → items m ≡ true → ok m ≡ false

module _ (s : Search) (visited back : ℕ → Bool) (prob : ℕ → ℕ) where
  abbrev ok : ℕ → Bool
  ok n = eligible s.threshold (visited n) (back n) (prob n)

  abbrev weigh_one : ℕ → Candidate → Candidate
  weigh_one n = weigh s (visited n) (back n) n (prob n)

  record Weighed (seen : ℕ → Bool) (c : Candidate) : Type 0 where
    empty : c.best ≡ none → c.best_prob ≡ 0
    found : (n : ℕ) → c.best ≡ some n → (seen n ≡ true) × (ok n ≡ true) × (c.best_prob ≡ prob n)
    most : (m : ℕ) → seen m ≡ true → ok m ≡ true → prob m ≤ c.best_prob

  best-weigh_one :
      (n : ℕ) (c : Candidate)
      → (weigh_one n c).best ≡ (if ok n && ltb c.best_prob (prob n) then some n else c.best)
  best-weigh_one n c = ground arith

  best_prob-weigh_one :
      (n : ℕ) (c : Candidate)
      → (weigh_one n c).best_prob
        ≡ (if ok n && ltb c.best_prob (prob n) then prob n else c.best_prob)
  best_prob-weigh_one n c = ground arith

  Weighed-one :
      (seen : ℕ → Bool) (n : ℕ) (c : Candidate)
      → Weighed seen c
      → Weighed (λ m. (m == n) || seen m) (weigh_one n c)
  Weighed-one seen n c w = elim (Bool-cases (ok n && ltb c.best_prob (prob n))) [
    | inl e ↦
        let b : (weigh_one n c).best ≡ some n = rw e at (best-weigh_one n c) in
        let q : (weigh_one n c).best_prob ≡ prob n = rw e at (best_prob-weigh_one n c) in
        record {
          empty = λ h. absurd (ground arith);
          found = λ k h.
              let same : n ≡ k = ground arith in rw (sym same) (ground arith, ground arith, q);
          most = λ m at okm. elim (Bool-cases (m == n)) [
            | inl same ↦ let eq = ap prob ((==_iff m n).0 same) in omega (arith, eq, q)
            | inr other ↦ let old = w.most m (ground arith) okm in ground arith
          ];
        }
    | inr e ↦
        let b : (weigh_one n c).best ≡ c.best = rw e at (best-weigh_one n c) in
        let q : (weigh_one n c).best_prob ≡ c.best_prob = rw e at (best_prob-weigh_one n c) in
        record {
          empty = λ h. q ∙ w.empty (sym b ∙ h);
          found = λ k h. let (at, okk, is) = w.found k (sym b ∙ h) in (ground arith, okk, q ∙ is);
          most = λ m at okm. elim (Bool-cases (m == n)) [
            | inl same ↦
                let eq = ap prob ((==_iff m n).0 same) in
                let okn : ok n ≡ true = subst (λ k. ok k ≡ true) ((==_iff m n).0 same) okm in
                ground arith
            | inr other ↦ let old = w.most m (ground arith) okm in omega (arith, old, q)
          ];
        }
  ]

  abbrev among : List ℕ → (ℕ → Bool) → ℕ → Bool
  among [] seen = seen
  among (n ∷ ns) seen = among ns (λ m. (m == n) || seen m)

  Weighed-all :
      (ns : List ℕ) (seen : ℕ → Bool) (c : Candidate)
      → Weighed seen c
      → Weighed (among ns seen) (weigh_all weigh_one ns c)
  unfolding weigh_all
  Weighed-all [] seen c w = w
  Weighed-all (n ∷ ns) seen c w =
      Weighed-all ns (λ m. (m == n) || seen m) (weigh_one n c) (Weighed-one seen n c w)

  among-elem : (ns : List ℕ) (seen : ℕ → Bool) (m : ℕ) → among ns seen m ≡ (elem m ns || seen m)
  among-elem [] seen m = refl
  among-elem (n ∷ ns) seen m = ground (arith, among-elem ns (λ k. (k == n) || seen k) m)

  IsBest-weigh_all :
      (ns : List ℕ) (counters : Counters)
      → IsBest ok prob
          (λ m. elem m ns)
          (weigh_all weigh_one ns (record { best = none; best_prob = 0; counters = counters })).best
  IsBest-weigh_all ns counters =
      let c = weigh_all weigh_one ns (record { best = none; best_prob = 0; counters = counters }) in
      let w : Weighed (among ns (λ _. false)) c =
        Weighed-all ns (λ _. false) (record { best = none; best_prob = 0; counters = counters })
          (record {
            empty = λ h. refl;
            found = λ n h. absurd (ground arith);
            most = λ m h. absurd (ground arith);
          }) in
      let most = λ (m : ℕ) (at : elem m ns ≡ true) (okm : ok m ≡ true).
        w.most m (rw (among-elem ns (λ _. false) m) (ground arith)) okm in
      record {
        found = λ n h.
            let (at, okn, is) = w.found n h in
            (
              ground (arith, among-elem ns (λ _. false) n),
              okn,
              λ m am okm. subst (λ q. prob m ≤ q) is (most m am okm),
            );
        missed = λ h m at. elim (Bool-cases (ok m)) [
          | inr e ↦ e
          | inl e ↦ let none_left = most m at e in let zero_prob = w.empty h in ground arith
        ];
      }

-- bestSuccessor returns the most probable of the successors that no trace holds, that an edge above
-- the threshold leads to and that do not stand before the block in the breadth-first order; it
-- returns null just when there is none.
pub best_successor-IsBest :
    (s : Search) (visited : List ℕ) (bb : ℕ) (counters : Counters)
    → IsBest
        (λ n.
          eligible s.threshold
            (elem n visited)
            (ltb (bfs_pos s.index n) (bfs_pos s.index bb))
            (s.profile.probability bb n))
        (λ n. s.profile.probability bb n)
        (λ n. elem n (s.profile.successors bb))
        (best_successor s visited bb counters).best
unfolding best_successor
best_successor-IsBest s visited bb counters =
    IsBest-weigh_all s (λ n. elem n visited) (λ n. ltb (bfs_pos s.index n) (bfs_pos s.index bb))
      (λ n. s.profile.probability bb n) (s.profile.successors bb) counters

-- bestPredecessor returns the most probable of the predecessors that no trace holds, whose edge is
-- above the threshold and that do not stand behind the block in the breadth-first order; it returns
-- null just when there is none.
pub best_predecessor-IsBest :
    (s : Search) (visited : List ℕ) (bb : ℕ) (counters : Counters)
    → IsBest
        (λ n.
          eligible s.threshold
            (elem n visited)
            (ltb (bfs_pos s.index bb) (bfs_pos s.index n))
            (s.profile.probability n bb))
        (λ n. s.profile.probability n bb)
        (λ n. elem n (s.profile.predecessors bb))
        (best_predecessor s visited bb counters).best
unfolding best_predecessor
best_predecessor-IsBest s visited bb counters =
    IsBest-weigh_all s (λ n. elem n visited) (λ n. ltb (bfs_pos s.index bb) (bfs_pos s.index n))
      (λ n. s.profile.probability n bb) (s.profile.predecessors bb) counters
