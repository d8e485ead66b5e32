-- ===== src/Hoist/Anchors.antt =====
-- No move touches an anchor.
use llvm_scheduling_reg_pres.Base.{
  ℕ, ◌≡◌, refl, Bool, true, false, List, [], ◌∷◌, Option, none, some, elem, arith, ◌==◌, Bool-cases,
  Option-cases, inl, inr, ap, sym, subst, ◌∙◌, ==_iff, Distinct, remove, select, elem-ne, ltb, ◌&&◌,
}
use llvm_scheduling_reg_pres.Ddg.{update}
use llvm_scheduling_reg_pres.Legality.{anchor_of, insert_before, reorder_block_within_regions}
use llvm_scheduling_reg_pres.Legality.Order.{anchors_only, reorder_block-anchors_only}
use llvm_scheduling_reg_pres.Hoist.{
  Hoister, HoistState, HoistStats, Reason, no_reason, move_up, try_targets, hoist_from, hoist_one,
  hoist_all, original_blocks, reorder_blocks, apply_schedule, terminator_of, trace_pos, note_reason,
  with_stats, blame, count_candidate, count_done, count_unsafe, first_blocks,
}
use llvm_scheduling_reg_pres.Hoist.Attempts.{try_targets-cons}

module _ (p : ℕ → Bool) (i : ℕ) (out : p i ≡ false) where
  select-remove : (xs : List ℕ) → select p (remove i xs) ≡ select p xs
  select-remove [] = refl
  select-remove (x ∷ xs) = elim (Bool-cases (i == x)) [
    | inl e ↦ let same = ap p ((==_iff i x).0 e) in ground arith
    | inr e ↦ let rest = select-remove xs in ground arith
  ]

  select-insert_before : (t : ℕ) (xs : List ℕ) → select p (insert_before i t xs) ≡ select p xs
  select-insert_before t [] = ground arith
  select-insert_before t (x ∷ xs) = let rest = select-insert_before t xs in ground arith

-- The anchors of a block, in order.
abbrev pub anchors : Hoister → List ℕ → List ℕ
anchors h = select (anchor_of h.env.ir)

-- The blocks hold the same anchors in the same order.
abbrev pub SameAnchors : Hoister → (ℕ → List ℕ) → (ℕ → List ℕ) → Type 0
SameAnchors h old new = (bb : ℕ) → anchors h (new bb) ≡ anchors h (old bb)

pub contents-with_stats :
    (c : Bool) (f : HoistStats → HoistStats) (st : HoistState)
    → (with_stats c f st).contents ≡ st.contents
contents-with_stats true f st = refl
contents-with_stats false f st = refl

module _ (h : Hoister) where
  SameAnchors-update :
      (k : ℕ) (xs : List ℕ) (contents : ℕ → List ℕ)
      → anchors h xs ≡ anchors h (contents k)
      → SameAnchors h contents (update contents k xs)
  SameAnchors-update k xs contents e bb = elim (Bool-cases (k == bb)) [
    | inl same ↦
        let at = ap (λ b. anchors h (contents b)) ((==_iff k bb).0 same) in rw same (e ∙ at)
    | inr other ↦ rw other refl
  ]

  move_up-SameAnchors :
      (i target : ℕ) (st : HoistState)
      → anchor_of h.env.ir i ≡ false
      → SameAnchors h st.contents (move_up h i target st).contents
  move_up-SameAnchors i target st out bb =
      elim (Option-cases (terminator_of h.env.ir (st.contents target))) [
        | inl e ↦ rw (move_up, e) refl
        | inr (t, e) ↦
            let p = anchor_of h.env.ir in
            let from = st.parent i in
            let without = update st.contents from (remove i (st.contents from)) in
            let first : SameAnchors h st.contents without =
              SameAnchors-update from (remove i (st.contents from)) st.contents
                (select-remove p i out (st.contents from)) in
            let second : SameAnchors h without
                (update without target (insert_before i t (without target))) =
              SameAnchors-update target (insert_before i t (without target)) without
                (select-insert_before p i out t (without target)) in
            rw (move_up, e) (second bb ∙ first bb)
      ]

  try_targets-SameAnchors :
      (st : HoistState) (orig i : ℕ) (best : Reason) (targets : List ℕ) (st' : HoistState)
      → anchor_of h.env.ir i ≡ false
      → (try_targets h st orig i best targets).moved ≡ some st'
      → SameAnchors h st.contents st'.contents
  unfolding try_targets
  try_targets-SameAnchors st orig i best [] st' out e = absurd (ground arith)
  try_targets-SameAnchors st orig i best (t ∷ ts) st' out e =
      elim (try_targets-cons h st orig i best t ts) [
        | inl moved ↦
            let same : move_up h i t st ≡ st' =
              ap (λ o. elim o [ none ↦ st' | some x ↦ x ]) (sym (ap (λ a. a.moved) moved) ∙ e) in
            subst (λ (x : HoistState). SameAnchors h st.contents x.contents) same
              (move_up-SameAnchors i t st out)
        | inr (r, _, later) ↦
            try_targets-SameAnchors st orig i (note_reason h.stats_on r best) ts st' out
              (sym (ap (λ a. a.moved) later) ∙ e)
      ]

  hoist_from-SameAnchors :
      (trace : List ℕ) (orig idx i : ℕ) (st : HoistState)
      → SameAnchors h st.contents (hoist_from h trace orig idx i st).contents
  unfolding hoist_from
  hoist_from-SameAnchors trace orig idx i st bb =
      let candidate = h.stats_on && ltb 0 idx in
      let counted = with_stats candidate count_candidate st in
      let kept = ap (λ c. anchors h (c bb)) (contents-with_stats candidate count_candidate st) in
      let a = try_targets h counted orig i no_reason (first_blocks idx trace) in
      elim (Bool-cases (anchor_of h.env.ir i)) [
        | inl e ↦
            rw (hoist_from, e)
              (ap (λ c. anchors h (c bb)) (contents-with_stats candidate count_unsafe counted)
                ∙ kept)
        | inr e ↦ elim (Option-cases a.moved) [
          | inl m ↦
              rw (hoist_from, e, m)
                (ap (λ c. anchors h (c bb)) (contents-with_stats candidate (blame a.reason) counted)
                  ∙ kept)
          | inr (st', m) ↦
              rw (hoist_from, e, m)
                (ap (λ c. anchors h (c bb)) (contents-with_stats candidate count_done st')
                  ∙ try_targets-SameAnchors counted orig i no_reason (first_blocks idx trace) st' e
                      m bb
                  ∙ kept)
        ]
      ]

  hoist_one-SameAnchors :
      (trace : List ℕ) (original : ℕ → Option ℕ) (i : ℕ) (st : HoistState)
      → SameAnchors h st.contents (hoist_one h trace original i st).contents
  unfolding hoist_one
  hoist_one-SameAnchors trace original i st bb =
      let orig : ℕ = elim (original i) [ none ↦ st.parent i | some b ↦ b ] in
      elim (Option-cases (trace_pos trace orig)) [
        | inl e ↦ rw (hoist_one, e) refl
        | inr (idx, e) ↦ rw (hoist_one, e) (hoist_from-SameAnchors trace orig idx i st bb)
      ]

  hoist_all-SameAnchors :
      (trace : List ℕ) (original : ℕ → Option ℕ) (is : List ℕ) (st : HoistState)
      → SameAnchors h st.contents (hoist_all h trace original is st).contents
  unfolding hoist_all
  hoist_all-SameAnchors trace original [] st bb = refl
  hoist_all-SameAnchors trace original (i ∷ is) st bb =
      hoist_all-SameAnchors trace original is (hoist_one h trace original i st) bb
      ∙ hoist_one-SameAnchors trace original i st bb

  from_blots : List (Option ℕ) → List ℕ
  from_blots [] = []
  from_blots (none ∷ os) = from_blots os
  from_blots (some i ∷ os) = i ∷ from_blots os

  from_blots-anchors_only :
      (xs : List ℕ) → from_blots (anchors_only (anchor_of h.env.ir) xs) ≡ anchors h xs
  unfolding from_blots
  from_blots-anchors_only [] = refl
  from_blots-anchors_only (x ∷ xs) = elim (Bool-cases (anchor_of h.env.ir x)) [
    | inl e ↦ rw e (ap (λ l. x ∷ l) (from_blots-anchors_only xs))
    | inr e ↦ rw e (from_blots-anchors_only xs)
  ]

  reorder-anchors :
      (schedule block : List ℕ)
      → Distinct block
      → anchors h (reorder_block_within_regions h.env.ir schedule block) ≡ anchors h block
  reorder-anchors schedule block d =
      sym (from_blots-anchors_only (reorder_block_within_regions h.env.ir schedule block))
      ∙ ap from_blots (reorder_block-anchors_only h.env.ir schedule block d)
      ∙ from_blots-anchors_only block

  reorder_blocks-SameAnchors :
      (schedule trace : List ℕ) (contents : ℕ → List ℕ)
      → Distinct trace
      → ((bb : ℕ) → elem bb trace ≡ true → Distinct (contents bb))
      → SameAnchors h contents (reorder_blocks h schedule trace contents)
  unfolding reorder_blocks
  reorder_blocks-SameAnchors schedule [] contents d once bb = refl
  reorder_blocks-SameAnchors schedule (b ∷ bs) contents d once bb =
      let block = reorder_block_within_regions h.env.ir schedule (contents b) in
      reorder_blocks-SameAnchors schedule bs (update contents b block) d.1
        (λ k m.
          let same : update contents b block k ≡ contents k =
            let ne = elem-ne k b bs m d.0 in ground arith in
          subst (λ l. Distinct l) (sym same) (once k (ground arith)))
        bb
      ∙ SameAnchors-update b block contents
          (reorder-anchors schedule (contents b) (once b (ground arith))) bb

-- If the blocks of a trace are all different and hold no instruction twice, applying a schedule to it
-- leaves the anchors of every block as they were, the same ones in the same order, whatever is moved
-- inside the blocks and between them.
pub apply_schedule-SameAnchors :
    (h : Hoister) (schedule trace : List ℕ) (contents : ℕ → List ℕ) (parent : ℕ → ℕ)
    (stats : HoistStats)
    → Distinct trace
    → ((bb : ℕ) → elem bb trace ≡ true → Distinct (contents bb))
    → SameAnchors h contents (apply_schedule h schedule trace contents parent stats).contents
unfolding apply_schedule
apply_schedule-SameAnchors h schedule trace contents parent stats d once bb =
    hoist_all-SameAnchors h trace (original_blocks contents trace (λ _. none)) schedule _ bb
    ∙ reorder_blocks-SameAnchors h schedule trace contents d once bb
