-- ===== src/Hoist/Balance.antt =====
-- The statistics of the moves add up.
use llvm_scheduling_reg_pres.Base.{
  ℕ, zero, suc, ◌+◌, ◌≤◌, ◌≡◌, refl, Bool, true, false, ◌&&◌, List, [], ◌∷◌, Option, none, some,
  ltb, if◌then◌else◌, arith, Bool-cases, Option-cases, inl, inr, ap, sym, subst, ◌∙◌,
}
use llvm_scheduling_reg_pres.Legality.{anchor_of}
use llvm_scheduling_reg_pres.Hoist.{
  Hoister, HoistState, HoistStats, Reason, no_reason, loop, dominance, operand, unsafe, pressure,
  try_targets, hoist_from, hoist_one, hoist_all, apply_schedule, trace_pos, note_reason, with_stats,
  blame, count_candidate, count_done, count_unsafe, first_blocks, rank, original_blocks,
}
use llvm_scheduling_reg_pres.Hoist.Attempts.{try_targets-cons}

abbrev pub blocked : HoistStats → ℕ
blocked s =
    s.blocked_dominance + s.blocked_loop + s.blocked_operand + s.blocked_unsafe + s.blocked_pressure

-- Each candidate either moved or is counted under one reason.
abbrev pub IsBalanced : HoistStats → Type 0
IsBalanced s = s.candidates ≡ s.done + blocked s

IsBalanced-blame :
    (r : Reason) (s : HoistStats)
    → 1 ≤ rank r
    → IsBalanced s
    → IsBalanced (blame r (count_candidate s))
IsBalanced-blame no_reason s h b = absurd (omega (arith, h))
IsBalanced-blame loop s h b = omega (arith, b)
IsBalanced-blame dominance s h b = omega (arith, b)
IsBalanced-blame operand s h b = omega (arith, b)
IsBalanced-blame unsafe s h b = omega (arith, b)
IsBalanced-blame pressure s h b = omega (arith, b)

rank-note_reason :
    (r best : Reason)
    → (rank r ≤ rank (note_reason true r best)) × (rank best ≤ rank (note_reason true r best))
rank-note_reason r best = elim (Bool-cases (ltb (rank best) (rank r))) [
  | inl e ↦ rw e (omega arith, ground arith)
  | inr e ↦ rw e (ground arith, omega arith)
]

stats-counted :
    (c : Bool) (st : HoistState)
    → (with_stats c count_candidate st).stats ≡ (if c then count_candidate st.stats else st.stats)
stats-counted true st = refl
stats-counted false st = refl

-- The last update of a round, on a state that counts the candidate already.
IsBalanced-with_stats :
    (c : Bool) (f : HoistStats → HoistStats) (st : HoistState) (before : HoistStats)
    → st.stats ≡ (if c then count_candidate before else before)
    → (c ≡ true → IsBalanced (f (count_candidate before)))
    → IsBalanced before
    → IsBalanced (with_stats c f st).stats
IsBalanced-with_stats true f st before has good ok =
    subst (λ x. IsBalanced (f x)) (sym has) (good refl)
IsBalanced-with_stats false f st before has good ok = subst (λ x. IsBalanced x) (sym has) ok

module _ (h : Hoister) where
  stats-try_targets :
      (st : HoistState) (orig i : ℕ) (best : Reason) (targets : List ℕ) (st' : HoistState)
      → (try_targets h st orig i best targets).moved ≡ some st'
      → st'.stats ≡ st.stats
  unfolding try_targets
  stats-try_targets st orig i best [] st' e = absurd (ground arith)
  stats-try_targets st orig i best (t ∷ ts) st' e = elim (try_targets-cons h st orig i best t ts) [
    | inl moved ↦ sym (
        ap (λ o. elim o [ none ↦ st.stats | some x ↦ x.stats ]) (sym (ap (λ a. a.moved) moved) ∙ e))
    | inr (r, _, later) ↦
        stats-try_targets st orig i (note_reason h.stats_on r best) ts st'
          (sym (ap (λ a. a.moved) later) ∙ e)
  ]

  -- A failed attempt never makes the reason smaller.
  rank-try_targets :
      (st : HoistState) (orig i : ℕ) (best : Reason) (targets : List ℕ)
      → h.stats_on ≡ true
      → (try_targets h st orig i best targets).moved ≡ none
      → rank best ≤ rank (try_targets h st orig i best targets).reason
  unfolding try_targets
  rank-try_targets st orig i best [] on e = omega arith
  rank-try_targets st orig i best (t ∷ ts) on e = elim (try_targets-cons h st orig i best t ts) [
    | inl moved ↦ let no = sym (ap (λ a. a.moved) moved) ∙ e in absurd (ground arith)
    | inr (r, _, later) ↦
        let rest =
          rank-try_targets st orig i (note_reason h.stats_on r best) ts on
            (sym (ap (λ a. a.moved) later) ∙ e) in
        let more = (rank-note_reason r best).1 in
        let same = ap (λ a. rank a.reason) later in
        let noted : rank (note_reason true r best) ≡ rank (note_reason h.stats_on r best) =
          ap (λ b. rank (note_reason b r best)) (sym on) in
        omega (arith, rest, more, same, noted)
  ]

  noted-try_targets :
      (st : HoistState) (orig i : ℕ) (best : Reason) (t : ℕ) (ts : List ℕ)
      → h.stats_on ≡ true
      → (try_targets h st orig i best (t ∷ ts)).moved ≡ none
      → 1 ≤ rank (try_targets h st orig i best (t ∷ ts)).reason
  noted-try_targets st orig i best t ts on e = elim (try_targets-cons h st orig i best t ts) [
    | inl moved ↦ let no = sym (ap (λ a. a.moved) moved) ∙ e in absurd (ground arith)
    | inr (r, big, later) ↦
        let rest =
          rank-try_targets st orig i (note_reason h.stats_on r best) ts on
            (sym (ap (λ a. a.moved) later) ∙ e) in
        let more = (rank-note_reason r best).0 in
        let same = ap (λ a. rank a.reason) later in
        let noted : rank (note_reason true r best) ≡ rank (note_reason h.stats_on r best) =
          ap (λ b. rank (note_reason b r best)) (sym on) in
        omega (arith, big, rest, more, same, noted)
  ]

  noted-first_blocks :
      (st : HoistState) (orig i b idx : ℕ) (trace : List ℕ)
      → (h.stats_on && ltb 0 idx) ≡ true
      → (try_targets h st orig i no_reason (first_blocks idx (b ∷ trace))).moved ≡ none
      → 1 ≤ rank (try_targets h st orig i no_reason (first_blocks idx (b ∷ trace))).reason
  noted-first_blocks st orig i b zero trace on e = absurd (ground arith)
  noted-first_blocks st orig i b (suc idx) trace on e =
      noted-try_targets st orig i no_reason b (first_blocks idx trace) (ground arith) e

  hoist_from-IsBalanced :
      (b : ℕ) (trace : List ℕ) (orig idx i : ℕ) (st : HoistState)
      → IsBalanced st.stats
      → IsBalanced (hoist_from h (b ∷ trace) orig idx i st).stats
  unfolding hoist_from
  hoist_from-IsBalanced b trace orig idx i st ok =
      let candidate = h.stats_on && ltb 0 idx in
      let counted = with_stats candidate count_candidate st in
      let has = stats-counted candidate st in
      let a = try_targets h counted orig i no_reason (first_blocks idx (b ∷ trace)) in
      elim (Bool-cases (anchor_of h.env.ir i)) [
        | inl e ↦
            rw (hoist_from, e)
              (IsBalanced-with_stats candidate count_unsafe counted st.stats has
                (λ on. omega (arith, ok)) ok)
        | inr e ↦ elim (Option-cases a.moved) [
          | inl m ↦
              rw (hoist_from, e, m)
                (IsBalanced-with_stats candidate (blame a.reason) counted st.stats has
                  (λ on.
                    IsBalanced-blame a.reason st.stats
                      (noted-first_blocks counted orig i b idx trace on m) ok)
                  ok)
          | inr (st', m) ↦
              rw (hoist_from, e, m)
                (IsBalanced-with_stats candidate count_done st' st.stats
                  (stats-try_targets counted orig i no_reason (first_blocks idx (b ∷ trace)) st' m
                    ∙ has)
                  (λ on. omega (arith, ok)) ok)
        ]
      ]

  hoist_one-IsBalanced :
      (trace : List ℕ) (original : ℕ → Option ℕ) (i : ℕ) (st : HoistState)
      → IsBalanced st.stats
      → IsBalanced (hoist_one h trace original i st).stats
  unfolding hoist_one
  hoist_one-IsBalanced [] original i st ok = ok
  hoist_one-IsBalanced (b ∷ trace) original i st ok =
      let orig : ℕ = elim (original i) [ none ↦ st.parent i | some bb ↦ bb ] in
      elim (Option-cases (trace_pos (b ∷ trace) orig)) [
        | inl e ↦ rw (hoist_one, e) ok
        | inr (idx, e) ↦ rw (hoist_one, e) (hoist_from-IsBalanced b trace orig idx i st ok)
      ]

  hoist_all-IsBalanced :
      (trace : List ℕ) (original : ℕ → Option ℕ) (is : List ℕ) (st : HoistState)
      → IsBalanced st.stats
      → IsBalanced (hoist_all h trace original is st).stats
  unfolding hoist_all
  hoist_all-IsBalanced trace original [] st ok = ok
  hoist_all-IsBalanced trace original (i ∷ is) st ok =
      hoist_all-IsBalanced trace original is (hoist_one h trace original i st)
        (hoist_one-IsBalanced trace original i st ok)

-- Applying a schedule keeps the statistics balanced: if each candidate so far has either moved or been
-- counted under one reason, so has each candidate afterwards. No candidate is blocked for no reason.
pub apply_schedule-IsBalanced :
    (h : Hoister) (schedule trace : List ℕ) (contents : ℕ → List ℕ) (parent : ℕ → ℕ)
    (stats : HoistStats)
    → IsBalanced stats
    → IsBalanced (apply_schedule h schedule trace contents parent stats).stats
unfolding apply_schedule
apply_schedule-IsBalanced h schedule trace contents parent stats ok =
    hoist_all-IsBalanced h trace (original_blocks contents trace (λ _. none)) schedule _ ok
