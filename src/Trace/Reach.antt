-- ===== src/Trace/Reach.antt =====
-- The breadth-first order of the blocks.
use llvm_scheduling_reg_pres.Base.{
  ℕ, zero, suc, ◌+◌, ◌≤◌, ◌<◌, ◌≡◌, refl, true, false, ◌||◌, List, [], ◌∷◌, ◌++◌, Option, none,
  some, elem, arith, ◌==◌, Bool-cases, Option-cases, inl, inr, ap, sym, ◌∙◌, ==_iff, Distinct, ◌↔◌,
  length, elem-append, append_assoc, append-nil, get_elem?, length-append,
}
use llvm_scheduling_reg_pres.Base.{
  length-inside, get_elem?-append_left, get_elem?-last, get_elem?-lt, get_elem?-elem,
  get_elem?-none, index_of-elem,
}
use llvm_scheduling_reg_pres.Ddg.{update}
use llvm_scheduling_reg_pres.Ddg.Edges.{Distinct-snoc}
use llvm_scheduling_reg_pres.Trace.{
  Profile, BfsIndex, note_block, note_blocks, bfs_from, entry_only, bfs,
}
use llvm_scheduling_reg_pres.Trace.Paths.{IsCfg}

-- There is a path of edges from the entry block.
pub data Reachable (p : Profile) : ℕ → Type 0 where
  at_entry : Reachable p p.entry
  along : (a b : ℕ) → elem b (p.successors a) ≡ true → Reachable p a → Reachable p b

pub Reachable-inside :
    (p : Profile) (blocks : List ℕ)
    → IsCfg p blocks
    → (m : ℕ) → Reachable p m
    → elem m blocks ≡ true
Reachable-inside p blocks cfg m at_entry = cfg.entry_in
Reachable-inside p blocks cfg m (along a b e r) =
    cfg.succ_in a m (Reachable-inside p blocks cfg a r) e

module _ (p : Profile) where
  -- The list and the map of the search fit together.
  pub record IsIndex (b : BfsIndex) : Type 0 where
    pub distinct : Distinct b.order
    pub entered : elem p.entry b.order ≡ true
    pub reached : (m : ℕ) → elem m b.order ≡ true → Reachable p m
    pub keyed : (m : ℕ) → b.position m ≡ none → elem m b.order ≡ false
    pub numbered : (m k : ℕ) → b.position m ≡ some k → get_elem? b.order k ≡ some m
    pub sized : b.size ≡ length b.order

  -- `b'` is `b` with more blocks behind its own, `bbs` among them.
  pub record Extends (bbs : List ℕ) (b b' : BfsIndex) : Type 0 where
    pub index : IsIndex b'
    more : List ℕ
    split : b'.order ≡ b.order ++ more
    noted : (m : ℕ) → elem m bbs ≡ true → elem m b'.order ≡ true

  module _ (bb : ℕ) (b : BfsIndex) (r : Reachable p bb) (x : IsIndex b) where
    abbrev added : BfsIndex
    added = record {
      order = b.order ++ bb ∷ [];
      position = update b.position bb (some (length b.order));
      size = suc b.size;
    }

    elem-added : (m : ℕ) → elem m added.order ≡ (elem m b.order || (m == bb))
    elem-added m = ground (arith, elem-append m b.order (bb ∷ []))

    IsIndex-added : b.position bb ≡ none → IsIndex added
    IsIndex-added e = record {
      distinct = Distinct-snoc b.order bb x.distinct (x.keyed bb e);
      entered = ground (arith, elem-added p.entry, x.entered);
      reached = λ m h. elim (Bool-cases (m == bb)) [
        | inl same ↦ rw ((==_iff m bb).0 same) r
        | inr other ↦ x.reached m (ground (arith, elem-added m))
      ];
      keyed = λ m h. ground (arith, elem-added m, x.keyed m);
      numbered = λ m k h. elim (Bool-cases (bb == m)) [
        | inl same ↦
            let at : length b.order ≡ k = ground arith in
            rw (sym at, sym ((==_iff bb m).0 same)) (get_elem?-last b.order bb)
        | inr other ↦
            let old = x.numbered m k (ground arith) in
            get_elem?-append_left b.order (bb ∷ []) k (get_elem?-lt b.order k m old) ∙ old
      ];
      sized = ground (arith, x.sized, length-append b.order (bb ∷ []));
    }

    pub Extends-one : Extends (bb ∷ []) b (note_block bb b)
    Extends-one = elim (Option-cases (b.position bb)) [
      | inl e ↦
          rw (note_block, e)
            (record {
              index = IsIndex-added e;
              more = bb ∷ [];
              split = refl;
              noted = λ m h. ground (arith, elem-added m);
            })
      | inr (k, e) ↦
          rw (note_block, e)
            (record {
              index = x;
              more = [];
              split = sym (append-nil b.order);
              noted = λ m h.
                  rw ((==_iff m bb).0 (ground arith))
                    (get_elem?-elem b.order k bb (x.numbered bb k e));
            })
    ]

  pub Extends-all :
      (bbs : List ℕ) (b : BfsIndex)
      → ((m : ℕ) → elem m bbs ≡ true → Reachable p m)
      → IsIndex b
      → Extends bbs b (note_blocks bbs b)
  unfolding note_blocks
  Extends-all [] b r x = record {
    index = x;
    more = [];
    split = sym (append-nil b.order);
    noted = λ m h. absurd (ground arith);
  }
  Extends-all (bb ∷ bbs) b r x =
      let one = Extends-one bb b (r bb (ground arith)) x in
      let rest = Extends-all bbs (note_block bb b) (λ m h. r m (ground arith)) one.index in
      record {
        index = rest.index;
        more = one.more ++ rest.more;
        split =
            rest.split
            ∙ ap (λ l. l ++ rest.more) one.split
            ∙ append_assoc b.order one.more rest.more;
        noted = λ m h. elim (Bool-cases (m == bb)) [
          | inl e ↦ rw rest.split (
              let old = one.noted m (ground arith) in
              ground (arith, elem-append m (note_block bb b).order rest.more))
          | inr e ↦ rest.noted m (ground arith)
        ];
      }

  -- The successors of the first `i` blocks are in the list.
  abbrev Done : ℕ → BfsIndex → Type 0
  Done i b =
      (j a : ℕ)
      → j < i
      → get_elem? b.order j ≡ some a
      → (n : ℕ) → elem n (p.successors a) ≡ true
      → elem n b.order ≡ true

  Done-next :
      (i bb : ℕ) (b b' : BfsIndex)
      → get_elem? b.order i ≡ some bb
      → Extends (p.successors bb) b b'
      → Done i b
      → Done (suc i) b'
  Done-next i bb b b' at x done j a lt is n m =
      let below : j < length b.order =
        let top = get_elem?-lt b.order i bb at in omega (arith, lt, top) in
      let was : get_elem? b.order j ≡ some a =
        sym (get_elem?-append_left b.order x.more j below)
        ∙ ap (λ l. get_elem? l j) (sym x.split)
        ∙ is in
      elim (Bool-cases (j == i)) [
        | inl same ↦
            let here : get_elem? b.order i ≡ some a =
              ap (λ k. get_elem? b.order k) (sym ((==_iff j i).0 same)) ∙ was in
            let eq : bb ≡ a = ground arith in x.noted n (rw eq m)
        | inr other ↦
            let old = done j a (ground arith) was n m in
            rw x.split (ground (arith, elem-append n b.order x.more))
      ]

  module _ (blocks : List ℕ) (cfg : IsCfg p blocks) where
    -- What the search ends with.
    record Searched (result : Option BfsIndex) : Type 0 where
      end : BfsIndex
      returns : result ≡ some end
      index : IsIndex end
      all_done :
          (a : ℕ)
          → elem a end.order ≡ true
          → (n : ℕ) → elem n (p.successors a) ≡ true
          → elem n end.order ≡ true

    length-order : (b : BfsIndex) → IsIndex b → length b.order ≤ length blocks
    length-order b x =
        length-inside b.order blocks x.distinct
          (λ m h. Reachable-inside p blocks cfg m (x.reached m h))

    Searched-end :
        (i : ℕ) (b : BfsIndex)
        → IsIndex b
        → Done i b
        → get_elem? b.order i ≡ none
        → Searched (some b)
    Searched-end i b x done e = record {
      end = b;
      returns = refl;
      index = x;
      all_done = λ a m.
          let (j, at) = index_of-elem b.order a m in
          let top = get_elem?-lt b.order j a at in
          let over = get_elem?-none b.order i e in done j a (omega (arith, top, over)) at;
    }

    bfs_from-Searched :
        (fuel i : ℕ) (b : BfsIndex)
        → IsIndex b
        → Done i b
        → length blocks ≤ i + fuel
        → Searched (bfs_from p fuel i b)
    unfolding bfs_from
    bfs_from-Searched zero i b x done enough = elim (Option-cases (get_elem? b.order i)) [
      | inl e ↦ rw (bfs_from, e) (Searched-end i b x done e)
      | inr (bb, e) ↦
          let top = get_elem?-lt b.order i bb e in
          let most = length-order b x in absurd (omega (arith, top, most, enough))
    ]
    bfs_from-Searched (suc fuel) i b x done enough = elim (Option-cases (get_elem? b.order i)) [
      | inl e ↦ rw (bfs_from, e) (Searched-end i b x done e)
      | inr (bb, e) ↦
          let here = x.reached bb (get_elem?-elem b.order i bb e) in
          let grown = Extends-all (p.successors bb) b (λ m h. along bb m h here) x in
          rw (bfs_from, e)
            (bfs_from-Searched fuel (suc i) (note_blocks (p.successors bb) b) grown.index
              (Done-next i bb b (note_blocks (p.successors bb) b) e grown done)
              (omega (arith, enough)))
    ]

    Reachable-order :
        {result : Option BfsIndex} (s : Searched result) (m : ℕ)
        → Reachable p m
        → elem m s.end.order ≡ true
    Reachable-order s m at_entry = s.index.entered
    Reachable-order s m (along a b e r) = s.all_done a (Reachable-order s a r) m e

    pub IsIndex-entry_only : IsIndex (entry_only p)
    IsIndex-entry_only = record {
      distinct = (refl, tt);
      entered = ground arith;
      reached = λ m h. rw ((==_iff m p.entry).0 (ground arith)) at_entry;
      keyed = λ m h. ground arith;
      numbered = λ m k h. elim (Bool-cases (p.entry == m)) [
        | inl same ↦
            let at : 0 ≡ k = ground arith in rw (sym at) (ap some ((==_iff p.entry m).0 same))
        | inr other ↦ absurd (ground arith)
      ];
      sized = refl;
    }

    -- With fuel for each block of the function, where these are closed under its edges and each listed
    -- once, the search ends; its order holds exactly the blocks
    -- that can be reached from the entry block, each once, and the map gives their positions.
    pub bfs-Reachable :
        (index : BfsIndex) × (bfs p (length blocks) ≡ some index)
        × IsIndex index
        × ((m : ℕ) → (elem m index.order ≡ true) ↔ Reachable p m)
    unfolding bfs
    bfs-Reachable =
        let s =
          bfs_from-Searched (length blocks) 0 (entry_only p) IsIndex-entry_only
            (λ j a lt. absurd (omega (arith, lt))) (omega arith) in
        (s.end, s.returns, s.index, λ m. (s.index.reached m, Reachable-order s m))
