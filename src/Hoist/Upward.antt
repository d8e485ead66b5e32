-- ===== src/Hoist/Upward.antt =====
-- Phase 2 of applySchedule as a sequence of legal moves.
use llvm_scheduling_reg_pres.Base.{
  ℕ, ◌≡◌, ◌⊎◌, refl, sym, ap, subst, ◌∙◌, Bool, true, false, ◌&&◌, List, [], ◌∷◌, Option, none,
  some, elem, arith, ◌==◌, ==_iff, Bool-cases, Option-cases, inl, inr, ltb,
}
use llvm_scheduling_reg_pres.Legality.{anchor_of}
use llvm_scheduling_reg_pres.Hoist.{
  Hoister, HoistState, HoistStats, Reason, no_reason, move_up, with_stats, first_blocks,
  try_targets, hoist_from, hoist_one, hoist_all, original_blocks, reorder_blocks, apply_schedule,
  trace_pos, note_reason, blame, count_candidate, count_done, count_unsafe,
}
use llvm_scheduling_reg_pres.Hoist.Attempts.{try_targets-checked}
use llvm_scheduling_reg_pres.Hoist.Placed.{IsPlaced, standing}
use llvm_scheduling_reg_pres.Hoist.Origins.{original_blocks-home}
use llvm_scheduling_reg_pres.Hoist.Legal.{
  Earlier, IsAbove, IsLegalMove, check-IsAbove, check-Fits, check-terminator, trace_pos-get_elem?,
  first_blocks-get_elem?,
}

-- One state leads to another by legal moves alone, each from the block where the instruction stood at
-- first, `home`. Only the moves change anything but the statistics.
pub data Hoists (h : Hoister) (trace : List ℕ) (home : ℕ → ℕ)
    : HoistState → HoistState → Type 0 where
  stay : (st : HoistState) → Hoists h trace home st st
  tally :
      (st st' : HoistState) (s : HoistStats)
      → Hoists h trace home (record st { stats = s }) st'
      → Hoists h trace home st st'
  move :
      (st st' : HoistState) (i to : ℕ)
      → IsLegalMove h trace st i (home i) to
      → Hoists h trace home (move_up h i to st) st'
      → Hoists h trace home st st'

module _ (h : Hoister) (trace : List ℕ) (home : ℕ → ℕ) where
  Hoists-trans :
      (a b c : HoistState)
      → Hoists h trace home a b
      → Hoists h trace home b c
      → Hoists h trace home a c
  Hoists-trans a b c (stay st) y = y
  Hoists-trans a b c (tally st st' s x) y = tally st c s (Hoists-trans _ b c x y)
  Hoists-trans a b c (move st st' i to l x) y = move st c i to l (Hoists-trans _ b c x y)

  Hoists-with_stats :
      (c : Bool) (f : HoistStats → HoistStats) (st : HoistState)
      → Hoists h trace home st (with_stats c f st)
  Hoists-with_stats true f st = tally st _ (f st.stats) (stay _)
  Hoists-with_stats false f st = stay st

  try_targets-Hoists :
      (i : ℕ) (st : HoistState) (best : Reason) (targets : List ℕ) (st' : HoistState)
      → anchor_of h.env.ir i ≡ false
      → ((t : ℕ) → elem t targets ≡ true → Earlier trace t (home i))
      → (try_targets h st (home i) i best targets).moved ≡ some st'
      → Hoists h trace home st st'
  unfolding try_targets
  try_targets-Hoists i st best [] st' out above e = absurd (ground arith)
  try_targets-Hoists i st best (t ∷ ts) st' out above e =
      elim (try_targets-checked h st (home i) i best t ts) [
        | inl (ok, moved) ↦
            let same : move_up h i t st ≡ st' =
              ap (λ o. elim o [ none ↦ st' | some x ↦ x ]) (sym (ap (λ a. a.moved) moved) ∙ e) in
            let (point, ends) = check-terminator h st (home i) i t ok in
            let legal : IsLegalMove h trace st i (home i) t = record {
              no_anchor = out;
              earlier = above t (ground arith);
              above = check-IsAbove h st (home i) i t ok;
              point = point;
              ends = ends;
              fits = check-Fits h st (home i) i t ok point ends;
            } in
            move st st' i t legal
              (subst (λ (x : HoistState). Hoists h trace home (move_up h i t st) x) same (stay _))
        | inr (r, _, later) ↦
            try_targets-Hoists i st (note_reason h.stats_on r best) ts st' out
              (λ b m. above b (ground arith)) (sym (ap (λ a. a.moved) later) ∙ e)
      ]

  hoist_from-Hoists :
      (i idx : ℕ) (st : HoistState)
      → trace_pos trace (home i) ≡ some idx
      → Hoists h trace home st (hoist_from h trace (home i) idx i st)
  unfolding hoist_from
  hoist_from-Hoists i idx st at =
      let candidate = h.stats_on && ltb 0 idx in
      let counted = with_stats candidate count_candidate st in
      let a = try_targets h counted (home i) i no_reason (first_blocks idx trace) in
      let first = Hoists-with_stats candidate count_candidate st in
      let above : (t : ℕ) → elem t (first_blocks idx trace) ≡ true → Earlier trace t (home i) =
        λ t m.
          let (k, lt, found) = first_blocks-get_elem? t idx trace m in
          (k, idx, lt, found, trace_pos-get_elem? trace (home i) idx at) in
      elim (Bool-cases (anchor_of h.env.ir i)) [
        | inl e ↦
            rw (hoist_from, e)
              (Hoists-trans st counted _ first (Hoists-with_stats candidate count_unsafe counted))
        | inr e ↦ elim (Option-cases a.moved) [
          | inl m ↦
              rw (hoist_from, e, m)
                (Hoists-trans st counted _ first
                  (Hoists-with_stats candidate (blame a.reason) counted))
          | inr (st', m) ↦
              rw (hoist_from, e, m)
                (Hoists-trans st counted _ first (
                  Hoists-trans counted st' _
                    (try_targets-Hoists i counted no_reason (first_blocks idx trace) st' e above m)
                    (Hoists-with_stats candidate count_done st')))
        ]
      ]

  hoist_one-Hoists :
      (original : ℕ → Option ℕ) (i : ℕ) (st : HoistState)
      → original i ≡ some (home i)
      → Hoists h trace home st (hoist_one h trace original i st)
  unfolding hoist_one
  hoist_one-Hoists original i st at =
      let known : hoist_one h trace original i st ≡ elim (trace_pos trace (home i)) [
        | none ↦ st
        | some idx ↦ hoist_from h trace (home i) idx i st
      ] =
        ap
          (λ (o : Option ℕ).
            let orig : ℕ = elim o [ none ↦ st.parent i | some bb ↦ bb ] in
            elim (trace_pos trace orig) [ none ↦ st | some idx ↦ hoist_from h trace orig idx i st ])
          at in
      elim (Option-cases (trace_pos trace (home i))) [
        | inl e ↦ rw (known, e) (stay st)
        | inr (idx, e) ↦ rw (known, e) (hoist_from-Hoists i idx st e)
      ]

  hoist_all-Hoists :
      (original : ℕ → Option ℕ) (is : List ℕ) (st : HoistState)
      → ((i : ℕ) → elem i is ≡ true → original i ≡ some (home i))
      → Hoists h trace home st (hoist_all h trace original is st)
  unfolding hoist_all
  hoist_all-Hoists original [] st at = stay st
  hoist_all-Hoists original (i ∷ is) st at =
      let mid = hoist_one h trace original i st in
      Hoists-trans st mid _ (hoist_one-Hoists original i st (at i (ground arith)))
        (hoist_all-Hoists original is mid (λ j m. at j (ground arith)))

pub apply_schedule-Hoists :
    (h : Hoister) (schedule trace : List ℕ) (contents : ℕ → List ℕ) (parent : ℕ → ℕ)
    (stats : HoistStats)
    → IsPlaced contents parent
    → ((i : ℕ)
        → elem i schedule ≡ true
        → (standing contents parent i ≡ true) × (elem (parent i) trace ≡ true))
    → Hoists h trace parent
        (record {
          contents = reorder_blocks h schedule trace contents;
          parent = parent;
          live = λ bb. (h.env.liveness bb).in_set;
          stats = stats;
        })
        (apply_schedule h schedule trace contents parent stats)
unfolding apply_schedule
apply_schedule-Hoists h schedule trace contents parent stats p s =
    hoist_all-Hoists h trace parent (original_blocks contents trace (λ _. none)) schedule _
      (λ i m. original_blocks-home contents parent p i trace (λ _. none) (s i m).0 (s i m).1)

-- Every instruction is where it was, or it moved up.
module _ (h : Hoister) (trace : List ℕ) (home : ℕ → ℕ) where
  abbrev pub MovedUp : ℕ → ℕ → Type 0
  MovedUp i bb =
      (bb ≡ home i)
      ⊎ ((anchor_of h.env.ir i ≡ false) × Earlier trace bb (home i) × IsAbove h (home i) bb)

  Hoists-MovedUp :
      (st st' : HoistState)
      → Hoists h trace home st st'
      → ((i : ℕ) → MovedUp i (st.parent i))
      → (i : ℕ) → MovedUp i (st'.parent i)
  Hoists-MovedUp st st' (stay s) at = at
  Hoists-MovedUp st st' (tally a b s x) at = Hoists-MovedUp _ st' x at
  Hoists-MovedUp st st' (move a b k to l x) at = Hoists-MovedUp _ st' x (λ i.
      elim (Bool-cases (k == i)) [
        | inl e ↦
            let here =
              subst (λ j. MovedUp j to) ((==_iff k i).0 e)
                (inr (l.no_anchor, l.earlier, l.above)) in
            rw e here
        | inr e ↦ rw e (at i)
      ])

-- Let every instruction of a block have it as its parent and stand there once, and let those of the
-- schedule stand in blocks of the trace. When the schedule is applied every instruction ends in the block
-- where it stood, or it is no anchor and ends in an earlier block of the trace that is no loop header, is
-- in the same loop and dominates the block where it stood.
pub apply_schedule-MovedUp :
    (h : Hoister) (schedule trace : List ℕ) (contents : ℕ → List ℕ) (parent : ℕ → ℕ)
    (stats : HoistStats)
    → IsPlaced contents parent
    → ((i : ℕ)
        → elem i schedule ≡ true
        → (standing contents parent i ≡ true) × (elem (parent i) trace ≡ true))
    → (i : ℕ)
    → MovedUp h trace parent i ((apply_schedule h schedule trace contents parent stats).parent i)
apply_schedule-MovedUp h schedule trace contents parent stats p s =
    Hoists-MovedUp h trace parent _ _
      (apply_schedule-Hoists h schedule trace contents parent stats p s) (λ i. inl refl)
