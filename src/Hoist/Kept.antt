-- ===== src/Hoist/Kept.antt =====
-- What applying a schedule to a trace keeps: each instruction stands in one block, none is lost.
use llvm_scheduling_reg_pres.Base.{
  ℕ, zero, suc, ◌≡◌, refl, Bool, true, false, ◌&&◌, List, [], ◌∷◌, Option, none, some, elem, arith,
  ◌==◌, Bool-cases, Option-cases, inl, inr, ap, sym, subst, ◌∙◌, ==_iff, elem-perm, Distinct-perm,
  update, ltb,
}
use llvm_scheduling_reg_pres.Legality.{anchor_of, reorder_block_within_regions}
use llvm_scheduling_reg_pres.Legality.Order.{reorder_block-perm}
use llvm_scheduling_reg_pres.Hoist.{
  Hoister, HoistState, HoistStats, Reason, no_reason, move_up, check, terminator_of, with_stats,
  first_blocks, try_targets, hoist_from, hoist_one, hoist_all, original_blocks, reorder_blocks,
  apply_schedule, trace_pos, note_reason, blame, count_candidate, count_done, count_unsafe,
}
use llvm_scheduling_reg_pres.Hoist.Anchors.{contents-with_stats}
use llvm_scheduling_reg_pres.Hoist.Attempts.{try_targets-checked}
use llvm_scheduling_reg_pres.Hoist.Placed.{
  IsPlaced, standing, Keeps, Keeps-refl, Keeps-trans, moved-Keeps,
}

parent-with_stats :
    (c : Bool) (f : HoistStats → HoistStats) (st : HoistState)
    → (with_stats c f st).parent ≡ st.parent
parent-with_stats true f st = refl
parent-with_stats false f st = refl

elem-first_blocks :
    (b n : ℕ) (trace : List ℕ) → elem b (first_blocks n trace) ≡ true → elem b trace ≡ true
elem-first_blocks b zero trace h = absurd (ground arith)
elem-first_blocks b (suc n) [] h = absurd (ground arith)
elem-first_blocks b (suc n) (t ∷ ts) h = ground (arith, elem-first_blocks b n ts)

module _ (h : Hoister) (trace : List ℕ) where
  -- The same for two states.
  abbrev pub KeepsState : HoistState → HoistState → Type 0
  KeepsState st st' = Keeps trace st.contents st.parent st'.contents st'.parent

  KeepsState-with_stats :
      (c d : Bool) (f g : HoistStats → HoistStats) (st st' : HoistState)
      → KeepsState st st'
      → KeepsState (with_stats c f st) (with_stats d g st')
  KeepsState-with_stats c d f g st st' k =
      rw
        (
          contents-with_stats c f st,
          parent-with_stats c f st,
          contents-with_stats d g st',
          parent-with_stats d g st',
        )
        k

  module _ (i : ℕ) (st : HoistState) (placed : IsPlaced st.contents st.parent)
      (stands : standing st.contents st.parent i ≡ true)
      (from_in : elem (st.parent i) trace ≡ true) where
    move_up-Keeps :
        (orig target : ℕ)
        → elem target trace ≡ true
        → check h st orig i target ≡ no_reason
        → KeepsState st (move_up h i target st)
    unfolding check
    move_up-Keeps orig target m ok =
        elim (Option-cases (terminator_of h.env.ir (st.contents target))) [
          | inr (t, e) ↦
              rw (move_up, e)
                (moved-Keeps trace st.contents st.parent placed i target t stands from_in m)
          | inl e ↦ absurd (ground arith)
        ]

    try_targets-Keeps :
        (orig : ℕ) (best : Reason) (targets : List ℕ) (st' : HoistState)
        → ((t : ℕ) → elem t targets ≡ true → elem t trace ≡ true)
        → (try_targets h st orig i best targets).moved ≡ some st'
        → KeepsState st st'
    unfolding try_targets
    try_targets-Keeps orig best [] st' m e = absurd (ground arith)
    try_targets-Keeps orig best (t ∷ ts) st' m e =
        elim (try_targets-checked h st orig i best t ts) [
          | inl (ok, moved) ↦
              let same : move_up h i t st ≡ st' =
                ap (λ o. elim o [ none ↦ st' | some x ↦ x ]) (sym (ap (λ a. a.moved) moved) ∙ e) in
              subst (λ (x : HoistState). KeepsState st x) same
                (move_up-Keeps orig t (m t (ground arith)) ok)
          | inr (r, _, later) ↦
              try_targets-Keeps orig (note_reason h.stats_on r best) ts st'
                (λ b n. m b (ground arith)) (sym (ap (λ a. a.moved) later) ∙ e)
        ]

  -- The instruction stands in its parent, a block of the trace.
  abbrev pub StandsIn : HoistState → ℕ → Type 0
  StandsIn st i = (standing st.contents st.parent i ≡ true) × (elem (st.parent i) trace ≡ true)

  module _ (i : ℕ) (st : HoistState) (placed : IsPlaced st.contents st.parent)
      (s : StandsIn st i) where
    hoist_from-Keeps : (orig idx : ℕ) → KeepsState st (hoist_from h trace orig idx i st)
    unfolding hoist_from
    hoist_from-Keeps orig idx =
        let candidate = h.stats_on && ltb 0 idx in
        let counted = with_stats candidate count_candidate st in
        let a = try_targets h counted orig i no_reason (first_blocks idx trace) in
        let still : KeepsState st counted =
          KeepsState-with_stats false candidate count_candidate count_candidate st st
            (Keeps-refl trace st.contents st.parent placed) in
        let contents = contents-with_stats candidate count_candidate st in
        let parent = parent-with_stats candidate count_candidate st in
        elim (Bool-cases (anchor_of h.env.ir i)) [
          | inl e ↦
              rw (hoist_from, e)
                (KeepsState-with_stats false candidate count_unsafe count_unsafe st counted still)
          | inr e ↦ elim (Option-cases a.moved) [
            | inl m ↦
                rw (hoist_from, e, m)
                  (KeepsState-with_stats false candidate (blame a.reason) (blame a.reason) st
                    counted still)
            | inr (st', m) ↦
                let go =
                  try_targets-Keeps i counted (rw (contents, parent) placed)
                    (rw (contents, parent) s.0) (rw parent s.1) orig no_reason
                    (first_blocks idx trace) st' (λ t. elem-first_blocks t idx trace) m in
                rw (hoist_from, e, m)
                  (KeepsState-with_stats false candidate count_done count_done st st' (
                    Keeps-trans trace st.contents counted.contents st'.contents st.parent
                      counted.parent st'.parent still go))
          ]
        ]

    hoist_one-Keeps : (original : ℕ → Option ℕ) → KeepsState st (hoist_one h trace original i st)
    unfolding hoist_one
    hoist_one-Keeps original =
        let orig : ℕ = elim (original i) [ none ↦ st.parent i | some b ↦ b ] in
        elim (Option-cases (trace_pos trace orig)) [
          | inl e ↦ rw (hoist_one, e) (Keeps-refl trace st.contents st.parent placed)
          | inr (idx, e) ↦ rw (hoist_one, e) (hoist_from-Keeps orig idx)
        ]

  hoist_all-Keeps :
      (original : ℕ → Option ℕ) (is : List ℕ) (st : HoistState)
      → IsPlaced st.contents st.parent
      → ((i : ℕ) → elem i is ≡ true → StandsIn st i)
      → KeepsState st (hoist_all h trace original is st)
  unfolding hoist_all
  hoist_all-Keeps original [] st p s = Keeps-refl trace st.contents st.parent p
  hoist_all-Keeps original (i ∷ is) st p s =
      let st' = hoist_one h trace original i st in
      let one = hoist_one-Keeps i st p (s i (ground arith)) original in
      let rest =
        hoist_all-Keeps original is st' one.placed
          (λ j m. let was = s j (ground arith) in (one.none_lost j ∙ was.0, one.inside j was.1)) in
      let end = hoist_all h trace original is st' in
      Keeps-trans trace st.contents st'.contents end.contents st.parent st'.parent end.parent one
        rest

  -- Phase 1 permutes the instructions of each block.
  reorder_blocks-Keeps :
      (schedule bbs : List ℕ) (contents : ℕ → List ℕ) (parent : ℕ → ℕ)
      → ((b : ℕ) → elem b bbs ≡ true → elem b trace ≡ true)
      → IsPlaced contents parent
      → Keeps trace contents parent (reorder_blocks h schedule bbs contents) parent
  unfolding reorder_blocks
  reorder_blocks-Keeps schedule [] contents parent m p = Keeps-refl trace contents parent p
  reorder_blocks-Keeps schedule (b ∷ bs) contents parent m p =
      let block = reorder_block_within_regions h.env.ir schedule (contents b) in
      let perm = reorder_block-perm h.env.ir schedule (contents b) (p.distinct b) in
      let next = update contents b block in
      let same : (bb k : ℕ) → elem k (next bb) ≡ elem k (contents bb) = λ bb k.
        elim (Bool-cases (b == bb)) [
          | inl e ↦
              let at = ap (λ c. elem k (contents c)) ((==_iff b bb).0 e) in
              rw e (sym (elem-perm (contents b) block perm k) ∙ at)
          | inr e ↦ rw e refl
        ] in
      let one : Keeps trace contents parent next parent = record {
        placed = record {
          distinct = λ bb. elim (Bool-cases (b == bb)) [
            | inl e ↦ rw e (Distinct-perm (contents b) block perm (p.distinct b))
            | inr e ↦ rw e (p.distinct bb)
          ];
          home = λ bb i e. p.home bb i (sym (same bb i) ∙ e);
        };
        none_lost = λ i. same (parent i) i;
        outside = λ bb out. elim (Bool-cases (b == bb)) [
          | inl e ↦ absurd (
              let is = ap (λ c. elem c trace) ((==_iff b bb).0 e) in
              let there = m b (ground arith) in ground arith)
          | inr e ↦ rw e refl
        ];
        inside = λ i n. n;
        away = λ i n. refl;
      } in
      let rest =
        reorder_blocks-Keeps schedule bs next parent (λ c n. m c (ground arith)) one.placed in
      Keeps-trans trace contents next (reorder_blocks h schedule bs next) parent parent parent one
        rest

-- Let every instruction of a block have it as its parent and stand there once, and let those of the
-- schedule stand in blocks of the trace. Applying the schedule then keeps the first of this and loses no
-- instruction: each stands in its parent afterwards exactly if it did before. The blocks outside the
-- trace, and the parents of their instructions, are as they were, and no instruction leaves the trace.
pub apply_schedule-Keeps :
    (h : Hoister) (schedule trace : List ℕ) (contents : ℕ → List ℕ) (parent : ℕ → ℕ)
    (stats : HoistStats)
    → IsPlaced contents parent
    → ((i : ℕ)
        → elem i schedule ≡ true
        → (standing contents parent i ≡ true) × (elem (parent i) trace ≡ true))
    → Keeps trace contents parent
        (apply_schedule h schedule trace contents parent stats).contents
        (apply_schedule h schedule trace contents parent stats).parent
unfolding apply_schedule
apply_schedule-Keeps h schedule trace contents parent stats p s =
    let first = reorder_blocks-Keeps h trace schedule trace contents parent (λ b m. m) p in
    let st : HoistState = record {
      contents = reorder_blocks h schedule trace contents;
      parent = parent;
      live = λ bb. (h.env.liveness bb).in_set;
      stats = stats;
    } in
    let rest =
      hoist_all-Keeps h trace (original_blocks contents trace (λ _. none)) schedule st first.placed
        (λ i m. (first.none_lost i ∙ (s i m).0, (s i m).1)) in
    let end = hoist_all h trace (original_blocks contents trace (λ _. none)) schedule st in
    Keeps-trans trace contents st.contents end.contents parent parent end.parent first rest
