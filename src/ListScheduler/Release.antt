-- ===== src/ListScheduler/Release.antt =====
-- What one round of the loop does to the counts and to the ready queue, successor by successor.
use llvm_scheduling_reg_pres.Base.{
  ℕ, ◌≡◌, refl, Bool, true, false, ◌&&◌, ◌||◌, List, [], ◌∷◌, ◌==◌, if◌then◌else◌, elem, Distinct,
  elem-append, arith,
}
use llvm_scheduling_reg_pres.Base.Int.{pos, pred_ℤ, eqb_ℤ}
use llvm_scheduling_reg_pres.Ddg.Edges.{Distinct-snoc}
use llvm_scheduling_reg_pres.ListScheduler.{Job, SchedState, schedulable, release_one, release}

-- Does the decrement bring the count of `s` to zero, and may `s` be queued?
abbrev pub freed : Job → SchedState → ℕ → Bool
freed job st s = eqb_ℤ (pred_ℤ (st.counts s)) (pos 0) && schedulable job s

release_one-counts_ne :
    (job : Job) (s n : ℕ) (st : SchedState)
    → (s == n) ≡ false
    → (release_one job s st).counts n ≡ st.counts n
release_one-counts_ne job s n st h = ground arith

pub release-counts :
    (job : Job) (n : ℕ) (ss : List ℕ) (st : SchedState)
    → Distinct ss
    → (release job ss st).counts n ≡ (if elem n ss then pred_ℤ (st.counts n) else st.counts n)
unfolding release
release-counts job n [] st d = refl
release-counts job n (s ∷ ss) st d = ground (arith, release-counts job n ss (release_one job s st))

pub release-ready :
    (job : Job) (n : ℕ) (ss : List ℕ) (st : SchedState)
    → Distinct ss
    → elem n (release job ss st).ready ≡ (elem n st.ready || (elem n ss && freed job st n))
unfolding release
release-ready job n [] st d = ground arith
release-ready job n (s ∷ ss) st d =
    ground (arith, release-ready job n ss (release_one job s st), elem-append n st.ready (s ∷ []))

pub release-Distinct :
    (job : Job) (ss : List ℕ) (st : SchedState)
    → Distinct ss
    → Distinct st.ready
    → ((s : ℕ) → elem s ss ≡ true → elem s st.ready ≡ false)
    → Distinct (release job ss st).ready
unfolding release
release-Distinct job [] st d q apart = q
release-Distinct job (s ∷ ss) st d q apart =
    release-Distinct job ss (release_one job s st) d.1
      (ground (arith, Distinct-snoc st.ready s, apart s))
      (λ t m. ground (arith, apart t, elem-append t st.ready (s ∷ [])))
