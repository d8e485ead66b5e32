-- ===== src/ListScheduler.antt =====
-- include/listScheduler.hpp: the choice of the next instruction and the scheduling loop. The
-- `predCount` fields, which alone change while the loop runs, are the map `counts`; the statistic
-- g_peakLivePressure is the field `peak`.
mod Pressure
mod Pick
pub mod Release
pub mod Choice
pub mod Loop
pub mod Start
pub mod Order
pub mod Correct
pub mod Delta
unfoldable pub use Pressure.*
unfoldable pub use Pick.*
use llvm_scheduling_reg_pres.Base.{
  ℕ, zero, suc, ◌≡◌, Bool, true, false, not, ◌&&◌, List, [], ◌∷◌, ◌++◌, map, Option, none, some,
  bind, ltb, if◌then◌else◌, length, remove, select,
}
use llvm_scheduling_reg_pres.Base.Int.{ℤ, pos, pred_ℤ, eqb_ℤ}
use llvm_scheduling_reg_pres.Ir.{Ir, is_phi}
use llvm_scheduling_reg_pres.Ir.BitVec.{BitVec, count}
use llvm_scheduling_reg_pres.Ddg.{Ddg, update}
use Pressure.{PressureEnv, pressure_delta, update_live_set}
use Pick.{pick_best}

pub record SchedState : Type 0 where
  pub counts : ℕ → ℤ
  pub ready : List ℕ
  pub live : BitVec
  pub peak : ℕ

-- Everything that stays fixed during one call of listSchedule.
pub record Job : Type 0 where
  pub ddg : Ddg
  pub env : PressureEnv
  pub use_reg_pressure : Bool
  pub stats_on : Bool

-- !node->instr->isTerminator() && !isa<PHINode>(node->instr)
abbrev pub schedulable : Job → ℕ → Bool
schedulable job n =
    let i = job.env.ir (job.ddg.heap n).instr in not i.is_terminator && not (is_phi i)

abbrev pub note_peak : Bool → BitVec → ℕ → ℕ
note_peak stats_on live peak = if stats_on && ltb peak (count live) then count live else peak

-- for (DDGNode* node : ddg->nodes) node->predCount = node->predecessors.size();
abbrev pub reset_counts : Ddg → List ℕ → (ℕ → ℤ) → ℕ → ℤ
reset_counts g [] counts = counts
reset_counts g (n ∷ ns) counts =
    reset_counts g ns (update counts n (pos (length (g.heap n).predecessors)))

-- The leaves, in the order of the nodes.
abbrev pub initial_ready : Job → (ℕ → ℤ) → List ℕ → List ℕ
initial_ready job counts = select (λ n. eqb_ℤ (counts n) (pos 0) && schedulable job n)

-- succ->predCount--, and the push that follows when it reaches zero
abbrev pub release_one : Job → ℕ → SchedState → SchedState
release_one job s st =
    let left = pred_ℤ (st.counts s) in
    record st {
      counts = update st.counts s left;
      ready = if eqb_ℤ left (pos 0) && schedulable job s then st.ready ++ s ∷ [] else st.ready;
    }

pub release : Job → List ℕ → SchedState → SchedState
release job [] st = st
release job (s ∷ ss) st = release job ss (release_one job s st)

-- The state when the body of the loop has taken `best` and not yet visited its successors.
abbrev pub take : Job → ℕ → SchedState → SchedState
take job best st =
    let live = update_live_set job.env (job.ddg.heap best).instr st.live in
    record st {
      ready = remove best st.ready;
      live = live;
      peak = note_peak job.stats_on live st.peak;
    }

pub body : Job → ℕ → SchedState → SchedState
unfolding release
body job best st = release job (job.ddg.heap best).successors (take job best st)

-- The nodes in the order in which the loop picks them; `none` is a null `best`, or fuel that has
-- run out.
pub run : Job → ℕ → SchedState → Option (List ℕ × SchedState)
unfolding body
run job zero st = elim st.ready [ [] ↦ some ([], st) | _ ∷ _ ↦ none ]
run job (suc fuel) st = elim st.ready [
  | [] ↦ some ([], st)
  | _ ∷ _ ↦
      bind (pick_best job.ddg job.env job.use_reg_pressure st.live st.ready)
        λ best. bind (run job fuel (body job best st)) λ (picked, end). some (best ∷ picked, end)
]

abbrev pub start : Job → BitVec → ℕ → SchedState
start job live peak =
    let counts = reset_counts job.ddg job.ddg.nodes (λ n. (job.ddg.heap n).pred_count) in
    record {
      counts = counts;
      ready = initial_ready job counts job.ddg.nodes;
      live = live;
      peak = note_peak job.stats_on live peak;
    }

-- The instructions of some nodes.
abbrev pub instrs : Ddg → List ℕ → List ℕ
instrs g = map (λ n. (g.heap n).instr)

-- listSchedule, with a round of the loop for each node: the schedule and the final state.
unfoldable pub list_schedule : Job → BitVec → ℕ → Option (List ℕ × SchedState)
unfolding run
list_schedule job live peak =
    bind (run job (length job.ddg.nodes) (start job live peak))
      λ (picked, end). some (instrs job.ddg picked, end)
