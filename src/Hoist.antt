-- ===== src/Hoist.antt =====
-- include/applySchedule.hpp: the schedule of a trace, first inside each block, then across blocks.
-- `Hoister` holds LLVM's answers; those on single instructions depend on where all of them stand.
mod Check
pub mod Attempts
pub mod Anchors
pub mod Balance
pub mod Placed
pub mod Kept
pub mod Legal
pub mod Origins
pub mod Upward
unfoldable pub use Check.*
use llvm_scheduling_reg_pres.Base.{
  ℕ, zero, suc, Bool, true, false, ◌&&◌, List, [], ◌∷◌, Option, none, some, ltb, if◌then◌else◌,
  remove,
}
use llvm_scheduling_reg_pres.Ir.BitVec.{BitVec, set}
use llvm_scheduling_reg_pres.Ddg.{update}
use llvm_scheduling_reg_pres.ListScheduler.{PressureEnv, result_bit}
use llvm_scheduling_reg_pres.Legality.{anchor_of, insert_before, reorder_block_within_regions}
use Check.{
  Hoister, HoistStats, HoistState, Reason, no_reason, loop, dominance, operand, unsafe, pressure,
  check, terminator_of,
}

-- I->moveBefore(*targetBB, targetBB->getTerminator()->getIterator()), and the bit of the result.
abbrev pub move_up : Hoister → ℕ → ℕ → HoistState → HoistState
move_up h i target st =
    let without = update st.contents (st.parent i) (remove i (st.contents (st.parent i))) in
    record st {
      contents = elim (terminator_of h.env.ir (st.contents target)) [
        | none ↦ st.contents
        | some t ↦ update without target (insert_before i t (without target))
      ];
      parent = update st.parent i target;
      live = elim (result_bit h.env i) [
        | none ↦ st.live
        | some idx ↦ update st.live target (set (st.live target) idx)
      ];
    }

abbrev pub rank : Reason → ℕ
rank no_reason = 0
rank loop = 1
rank dominance = 2
rank operand = 3
rank unsafe = 4
rank pressure = 5

abbrev pub note_reason : Bool → Reason → Reason → Reason
note_reason stats_on r best = if stats_on && ltb (rank best) (rank r) then r else best

-- `moved` is the state after the move, if one target passed all checks.
pub record Attempt : Type 0 where
  pub reason : Reason
  pub moved : Option HoistState

pub try_targets : Hoister → HoistState → (orig i : ℕ) → Reason → List ℕ → Attempt
try_targets h st orig i best [] = record { reason = best; moved = none }
try_targets h st orig i best (target ∷ targets) = elim (check h st orig i target) [
  | no_reason ↦ record { reason = best; moved = some (move_up h i target st) }
  | blocked ↦ try_targets h st orig i (note_reason h.stats_on blocked best) targets
]

abbrev pub blame : Reason → HoistStats → HoistStats
blame no_reason s = s
blame loop s = record s { blocked_loop = suc s.blocked_loop }
blame dominance s = record s { blocked_dominance = suc s.blocked_dominance }
blame operand s = record s { blocked_operand = suc s.blocked_operand }
blame unsafe s = record s { blocked_unsafe = suc s.blocked_unsafe }
blame pressure s = record s { blocked_pressure = suc s.blocked_pressure }

abbrev pub count_candidate : HoistStats → HoistStats
count_candidate s = record s { candidates = suc s.candidates }

abbrev pub count_done : HoistStats → HoistStats
count_done s = record s { done = suc s.done }

abbrev pub count_unsafe : HoistStats → HoistStats
count_unsafe s = record s { blocked_unsafe = suc s.blocked_unsafe }

-- tracePos
abbrev pub positions_from : ℕ → List ℕ → (ℕ → Option ℕ) → ℕ → Option ℕ
positions_from i [] m = m
positions_from i (bb ∷ bbs) m = positions_from (suc i) bbs (update m bb (some i))

abbrev pub trace_pos : List ℕ → ℕ → Option ℕ
trace_pos trace = positions_from 0 trace (λ _. none)

-- trace[0], ..., trace[n - 1]
abbrev pub first_blocks : ℕ → List ℕ → List ℕ
first_blocks zero bbs = []
first_blocks (suc n) [] = []
first_blocks (suc n) (bb ∷ bbs) = bb ∷ first_blocks n bbs

abbrev pub with_stats : Bool → (HoistStats → HoistStats) → HoistState → HoistState
with_stats candidate f st = if candidate then record st { stats = f st.stats } else st

-- The body of the loop over the schedule, for an instruction whose block has this index.
pub hoist_from : Hoister → List ℕ → (orig idx i : ℕ) → HoistState → HoistState
unfolding try_targets
hoist_from h trace orig idx i st =
    let candidate = h.stats_on && ltb 0 idx in
    let counted = with_stats candidate count_candidate st in
    let a = try_targets h counted orig i no_reason (first_blocks idx trace) in
    if anchor_of h.env.ir i then with_stats candidate count_unsafe counted else elim a.moved [
      | some st' ↦ with_stats candidate count_done st'
      | none ↦ with_stats candidate (blame a.reason) counted
    ]

pub hoist_one : Hoister → List ℕ → (ℕ → Option ℕ) → ℕ → HoistState → HoistState
unfolding hoist_from
hoist_one h trace original i st =
    let orig : ℕ = elim (original i) [ none ↦ st.parent i | some bb ↦ bb ] in
    elim (trace_pos trace orig) [ none ↦ st | some idx ↦ hoist_from h trace orig idx i st ]

pub hoist_all : Hoister → List ℕ → (ℕ → Option ℕ) → List ℕ → HoistState → HoistState
unfolding hoist_one
hoist_all h trace original [] st = st
hoist_all h trace original (i ∷ is) st =
    hoist_all h trace original is (hoist_one h trace original i st)

-- originalBlock
abbrev pub note_all : ℕ → List ℕ → (ℕ → Option ℕ) → ℕ → Option ℕ
note_all bb [] m = m
note_all bb (i ∷ is) m = note_all bb is (update m i (some bb))

abbrev pub original_blocks : (ℕ → List ℕ) → List ℕ → (ℕ → Option ℕ) → ℕ → Option ℕ
original_blocks contents [] m = m
original_blocks contents (bb ∷ bbs) m = original_blocks contents bbs (note_all bb (contents bb) m)

-- Phase 1
pub reorder_blocks : Hoister → List ℕ → List ℕ → (ℕ → List ℕ) → ℕ → List ℕ
reorder_blocks h schedule [] contents = contents
reorder_blocks h schedule (bb ∷ bbs) contents =
    reorder_blocks h schedule bbs
      (update contents bb (reorder_block_within_regions h.env.ir schedule (contents bb)))

unfoldable pub apply_schedule :
    Hoister → (schedule trace : List ℕ) → (ℕ → List ℕ) → (ℕ → ℕ) → HoistStats → HoistState
unfolding hoist_all reorder_blocks
apply_schedule h schedule trace contents parent stats =
    hoist_all h trace (original_blocks contents trace (λ _. none)) schedule (record {
      contents = reorder_blocks h schedule trace contents;
      parent = parent;
      live = λ bb. (h.env.liveness bb).in_set;
      stats = stats;
    })
