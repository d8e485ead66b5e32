-- ===== src/Trace/Correct.antt =====
-- identifyTraces as a whole.
use mathlib.Core.List.{flatten}
use llvm_scheduling_reg_pres.Base.{
  ℕ, ◌<◌, ◌≡◌, ◌≢◌, refl, Bool, true, false, ◌||◌, List, [], ◌∷◌, Option, some, elem, arith, ◌==◌,
  Bool-cases, inl, inr, ap, sym, ◌∙◌, ==_iff, Distinct, missing, missing-cons, missing-le, length,
  elem-append, Distinct-append, All,
}
use llvm_scheduling_reg_pres.Trace.{
  Profile, Search, Counters, Trace, no_counters, trace_from, traces_from, identify_traces,
  sort_desc,
}
use llvm_scheduling_reg_pres.Trace.Paths.{
  IsCfg, HotPath, rev_onto, elem-rev_onto, Distinct-rev_onto, IsNew, IsNew-cons,
  grow_forward-GrowsForward, grow_backward-GrowsBackward,
}
use llvm_scheduling_reg_pres.Trace.Reach.{Reachable, Reachable-inside, bfs-Reachable}
use llvm_scheduling_reg_pres.Trace.Sorted.{Falling, elem-sort_desc, Falling-sort_desc}

missing-lt :
    (n : ℕ) (xs ds : List ℕ) → elem n xs ≡ true → elem n ds ≡ true → missing xs ds < length xs
missing-lt n [] ds m h = absurd (ground arith)
missing-lt n (x ∷ xs) ds m h = elim (Bool-cases (n == x)) [
  | inl e ↦
      let at = ap (λ k. elem k ds) ((==_iff n x).0 e) in let few = missing-le xs ds in ground arith
  | inr e ↦ let rest = missing-lt n xs ds (ground arith) h in ground arith
]

or_assoc : (a b c : Bool) → ((a || b) || c) ≡ (a || (b || c))
or_assoc a b c = ground arith

module _ (s : Search) (blocks : List ℕ) (cfg : IsCfg s.profile blocks) where
  -- First the blocks behind the seed are new, then those in front of it.
  IsNew-rev_onto :
      (seed : ℕ) (visited forward middle backward end : List ℕ)
      → elem seed blocks ≡ true
      → elem seed visited ≡ false
      → IsNew s blocks cfg (seed ∷ visited) forward middle
      → IsNew s blocks cfg middle backward end
      → IsNew s blocks cfg visited (rev_onto backward (seed ∷ forward)) end
  IsNew-rev_onto seed visited forward middle backward end at fresh f b =
      let once = IsNew-cons s blocks cfg seed visited forward middle fresh at f in
      record {
        distinct =
            Distinct-rev_onto backward (seed ∷ forward) b.distinct once.distinct (λ m h.
              ground (arith, b.fresh m, once.union m, Bool-cases (elem m (seed ∷ forward))));
        fresh = λ m h. ground (
          arith,
          elem-rev_onto m backward (seed ∷ forward),
          b.fresh m,
          once.union m,
          once.fresh m,
          Bool-cases (elem m backward),
          Bool-cases (elem m visited),
        );
        inside = λ m h. elim (Bool-cases (elem m backward)) [
          | inl e ↦ b.inside m e
          | inr e ↦ once.inside m (sym (rw e at (elem-rev_onto m backward (seed ∷ forward))) ∙ h)
        ];
        union = λ m.
            b.union m
            ∙ ap (λ v. elem m backward || v) (once.union m)
            ∙ sym (or_assoc (elem m backward) (elem m (seed ∷ forward)) (elem m visited))
            ∙ ap (λ v. v || elem m visited) (sym (elem-rev_onto m backward (seed ∷ forward)));
      }

  -- The trace of a seed.
  record Formed (seed : ℕ) (visited : List ℕ) (result : Option Trace) : Type 0 where
    trace : Trace
    returns : result ≡ some trace
    has_seed : elem seed trace.blocks ≡ true
    new : IsNew s blocks cfg visited trace.blocks trace.visited
    hot : HotPath s.profile s.threshold trace.blocks

  trace_from-Formed :
      (seed : ℕ) (visited : List ℕ) (counters : Counters)
      → elem seed blocks ≡ true
      → elem seed visited ≡ false
      → Formed seed visited (trace_from s (length blocks) seed visited counters)
  unfolding trace_from
  trace_from-Formed seed visited counters at fresh =
      let smaller = missing-cons seed blocks visited cfg.distinct at fresh in
      let few = missing-le blocks visited in
      let f =
        grow_forward-GrowsForward s blocks cfg (length blocks) seed (seed ∷ visited) counters at
          (omega (arith, smaller, few)) in
      let b =
        grow_backward-GrowsBackward s blocks cfg (length blocks) seed f.growth.added
          f.growth.visited f.growth.counters at f.hot
          (missing-lt seed blocks f.growth.visited at (f.new.union seed ∙ ground arith)) in
      record {
        trace = b.grown;
        returns = rw f.returns b.returns;
        has_seed = rw b.split (ground (arith, elem-rev_onto seed b.added (seed ∷ f.growth.added)));
        new = rw b.split (
            IsNew-rev_onto seed visited f.growth.added f.growth.visited b.added b.grown.visited at
              fresh f.new b.new);
        hot = b.hot;
      }

  -- The traces of the seeds from the cursor on.
  record Traced (seeds visited : List ℕ) (result : Option (List (List ℕ) × Counters)) : Type 0 where
    traces : List (List ℕ)
    counters : Counters
    returns : result ≡ some (traces, counters)
    distinct : Distinct (flatten traces)
    fresh : (m : ℕ) → elem m (flatten traces) ≡ true → elem m visited ≡ false
    hot : All (HotPath s.profile s.threshold) traces
    covers :
        (m : ℕ)
        → elem m seeds ≡ true
        → s.profile.frequency m ≢ 0
        → (elem m visited || elem m (flatten traces)) ≡ true

  Traced-skip :
      (bb : ℕ) (bbs visited : List ℕ) (result : Option (List (List ℕ) × Counters))
      → elem bb visited ≡ true
      → Traced bbs visited result
      → Traced (bb ∷ bbs) visited result
  Traced-skip bb bbs visited result e t = record {
    traces = t.traces;
    counters = t.counters;
    returns = t.returns;
    distinct = t.distinct;
    fresh = t.fresh;
    hot = t.hot;
    covers = λ m h f. elim (Bool-cases (m == bb)) [
      | inl same ↦ let at = ap (λ k. elem k visited) ((==_iff m bb).0 same) ∙ e in rw at refl
      | inr other ↦ t.covers m (ground arith) f
    ];
  }

  Traced-stop :
      (bb : ℕ) (bbs visited : List ℕ) (counters : Counters)
      → s.profile.frequency bb ≡ 0
      → Falling s.profile.frequency (bb ∷ bbs)
      → Traced (bb ∷ bbs) visited (some ([], counters))
  Traced-stop bb bbs visited counters z falling = record {
    traces = [];
    counters = counters;
    returns = refl;
    distinct = unfold flatten in tt;
    fresh = unfold flatten in λ m h. absurd (ground arith);
    hot = tt;
    covers = λ m h f. elim (Bool-cases (m == bb)) [
      | inl same ↦ absurd (f (ap s.profile.frequency ((==_iff m bb).0 same) ∙ z))
      | inr other ↦ let below = falling.0 m (ground arith) in absurd (f (omega (arith, below, z)))
    ];
  }

  Traced-cons :
      (bb : ℕ) (bbs visited : List ℕ) (first : Option Trace) (f : Formed bb visited first)
      (rest : Option (List (List ℕ) × Counters)) (t : Traced bbs f.trace.visited rest)
      → Traced (bb ∷ bbs) visited (some (f.trace.blocks ∷ t.traces, t.counters))
  unfolding flatten
  Traced-cons bb bbs visited first f rest t = record {
    traces = f.trace.blocks ∷ t.traces;
    counters = t.counters;
    returns = refl;
    distinct =
        Distinct-append f.trace.blocks (flatten t.traces) f.new.distinct t.distinct
          (λ m h. ground (arith, t.fresh m, f.new.union m, Bool-cases (elem m (flatten t.traces))));
    fresh = λ m h. elim (Bool-cases (elem m f.trace.blocks)) [
      | inl e ↦ f.new.fresh m e
      | inr e ↦
          let later = t.fresh m (ground (arith, elem-append m f.trace.blocks (flatten t.traces))) in
          ground (arith, f.new.union m)
    ];
    hot = (f.hot, t.hot);
    covers = λ m h nz. elim (Bool-cases (m == bb)) [
      | inl same ↦
          let at = ap (λ k. elem k f.trace.blocks) ((==_iff m bb).0 same) ∙ f.has_seed in
          ground (arith, elem-append m f.trace.blocks (flatten t.traces))
      | inr other ↦
          let old = t.covers m (ground arith) nz in
          ground (arith, f.new.union m, elem-append m f.trace.blocks (flatten t.traces))
    ];
  }

  traces_from-Traced :
      (seeds visited : List ℕ) (counters : Counters)
      → Falling s.profile.frequency seeds
      → ((m : ℕ) → elem m seeds ≡ true → elem m blocks ≡ true)
      → Traced seeds visited (traces_from s (length blocks) seeds visited counters)
  unfolding traces_from
  traces_from-Traced [] visited counters falling inside = record {
    traces = [];
    counters = counters;
    returns = refl;
    distinct = unfold flatten in tt;
    fresh = unfold flatten in λ m h. absurd (ground arith);
    hot = tt;
    covers = λ m h. absurd (ground arith);
  }
  traces_from-Traced (bb ∷ bbs) visited counters falling inside =
      elim (Bool-cases (elem bb visited)) [
        | inl e ↦ rw e (
            Traced-skip bb bbs visited _ e
              (traces_from-Traced bbs visited counters falling.1 (λ m h. inside m (ground arith))))
        | inr e ↦ elim (Bool-cases (s.profile.frequency bb == 0)) [
          | inl z ↦ rw (e, z) (Traced-stop bb bbs visited counters ((==_iff _ _).0 z) falling)
          | inr nz ↦
              let f = trace_from-Formed bb visited counters (inside bb (ground arith)) e in
              let t =
                traces_from-Traced bbs f.trace.visited f.trace.counters falling.1
                  (λ m h. inside m (ground arith)) in
              rw (e, nz, f.returns, t.returns) (Traced-cons bb bbs visited _ f _ t)
        ]
      ]

-- If `blocks` are the blocks of a function, closed under its edges and each listed once,
-- identifyTraces ends with fuel for each of them. Its traces hold no block twice, neither within
-- a trace nor in two of them; each trace is a path of at least one block along edges above the
-- threshold; and each block that can be reached from the entry and has a positive frequency is in
-- some trace.
pub identify_traces-Distinct :
    (p : Profile) (threshold : ℕ) (stats_on : Bool) (blocks : List ℕ)
    → IsCfg p blocks
    → (traces : List (List ℕ)) × (counters : Counters) × (identify_traces p threshold stats_on
          (length blocks)
        ≡ some (traces, counters))
      × Distinct (flatten traces)
      × All (HotPath p threshold) traces
      × ((m : ℕ) → Reachable p m → p.frequency m ≢ 0 → elem m (flatten traces) ≡ true)
unfolding identify_traces
identify_traces-Distinct p threshold stats_on blocks cfg =
    let (index, found, _, order) = bfs-Reachable p blocks cfg in
    let s : Search = record {
      profile = p;
      threshold = threshold;
      stats_on = stats_on;
      index = index;
    } in
    let seeds = sort_desc p.frequency index.order in
    let t =
      traces_from-Traced s blocks cfg seeds [] no_counters
        (Falling-sort_desc p.frequency index.order)
        (λ m h.
          Reachable-inside p blocks cfg m
            ((order m).0 (sym (elem-sort_desc p.frequency m index.order) ∙ h))) in
    (
      t.traces,
      t.counters,
      rw found t.returns,
      t.distinct,
      t.hot,
      λ m r nz. t.covers m (elem-sort_desc p.frequency m index.order ∙ (order m).1 r) nz,
    )
