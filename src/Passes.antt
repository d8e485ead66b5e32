-- ===== src/Passes.antt =====
-- src/schedulerPass.cpp: the two passes, as the sequence of the parts that they call.
pub mod Pipeline
pub mod Locally
pub mod Globally
use llvm_scheduling_reg_pres.Base.{
  ℕ, Bool, true, List, [], ◌∷◌, Option, none, some, bind, map, length,
}
use llvm_scheduling_reg_pres.Base.Int.{ℤ}
use llvm_scheduling_reg_pres.Ir.Values.{build_value_index}
use llvm_scheduling_reg_pres.Ir.Function.{Function, blocks_of, universe_of}
use llvm_scheduling_reg_pres.Liveness.{compute_liveness}
use llvm_scheduling_reg_pres.Reaching.{compute_reaching}
use llvm_scheduling_reg_pres.Reaching.Sets.{Names}
use llvm_scheduling_reg_pres.Trace.{Profile, get_trace_threshold, identify_traces}
use llvm_scheduling_reg_pres.Ddg.{Ddg}
use llvm_scheduling_reg_pres.Ddg.Build.{build_ddg}
use llvm_scheduling_reg_pres.Critical.{compute_critical_path}
use llvm_scheduling_reg_pres.ListScheduler.{list_schedule}
use llvm_scheduling_reg_pres.Local.{LocalState, run_local_scheduler}
use llvm_scheduling_reg_pres.Hoist.{Hoister, HoistStats, get_pressure_budget, apply_schedule}

-- localSchedulerPass::run. `parent` is Instruction::getParent.
unfoldable pub run_local_pass : Function → (parent : ℕ → ℕ) → (stats_on : Bool) → Option LocalState
run_local_pass f parent stats_on = bind (compute_liveness f) λ liveness.
    run_local_scheduler
      (record {
        ir = f.ir;
        parent = parent;
        universe_index = build_value_index (universe_of f);
        liveness = liveness;
      })
      stats_on (blocks_of f) (record { contents = f.contents; peak = 0 })

-- What the pass gets from LLVM's analyses (BranchProbabilityInfo, BlockFrequencyInfo, DominatorTree,
-- LoopInfo, AssumptionCache, TargetLibraryInfo) and from the environment.
pub record Answers : Type 0 where
  pub names : Names
  pub probability : ℕ → ℕ → ℕ
  pub frequency : ℕ → ℕ
  pub percent : ℕ → ℕ
  pub is_loop_header : ℕ → Bool
  pub loop_of : ℕ → Option ℕ
  pub block_dominates : ℕ → ℕ → Bool
  pub dominates : (ℕ → List ℕ) → ℕ → ℕ → Bool
  pub is_safe : (ℕ → List ℕ) → ℕ → ℕ → Bool
  pub stats_on : Bool
  pub threshold : Option ℤ
  pub budget : Option ℤ

abbrev pub profile_of : Function → Answers → Profile
profile_of f llvm = record {
  entry = f.entry;
  successors = f.successors;
  predecessors = f.predecessors;
  probability = llvm.probability;
  frequency = llvm.frequency;
  percent = llvm.percent;
}

-- What the loop over the traces changes.
pub record GlobalState : Type 0 where
  pub contents : ℕ → List ℕ
  pub parent : ℕ → ℕ
  pub stats : HoistStats
  pub peak : ℕ

-- resetHoistStats
abbrev pub no_hoists : HoistStats
no_hoists = record {
  candidates = 0;
  done = 0;
  blocked_dominance = 0;
  blocked_loop = 0;
  blocked_operand = 0;
  blocked_unsafe = 0;
  blocked_pressure = 0;
}

-- The hoister with the parents of this state.
abbrev pub at_state : Hoister → GlobalState → Hoister
at_state h st = record h { env = record h.env { parent = st.parent } }

-- The body of the loop over the traces. `traces[i][0]` of an empty trace is out of range.
unfoldable pub schedule_trace : Hoister → Ddg → List ℕ → GlobalState → Option GlobalState
schedule_trace h ddg [] st = none
schedule_trace h ddg (first ∷ rest) st =
    bind
      (list_schedule
        (record {
          ddg = ddg;
          env = (at_state h st).env;
          use_reg_pressure = h.use_pressure;
          stats_on = h.stats_on;
        })
        (h.env.liveness first).in_set st.peak)
      λ (schedule, s).
        let end =
          apply_schedule (at_state h st) schedule (first ∷ rest) st.contents st.parent st.stats in
        some (record {
          contents = end.contents;
          parent = end.parent;
          stats = end.stats;
          peak = s.peak;
        })

-- for (size_t i = 0; i < ddgs.size(); ++i)
unfoldable pub schedule_traces :
    Hoister → List Ddg → List (List ℕ) → GlobalState → Option GlobalState
unfolding schedule_trace
schedule_traces h [] traces st = some st
schedule_traces h (ddg ∷ ddgs) [] st = none
schedule_traces h (ddg ∷ ddgs) (trace ∷ traces) st =
    bind (schedule_trace h ddg trace st) λ st'. schedule_traces h ddgs traces st'

-- buildDDG, for all traces.
abbrev pub build_ddgs : Function → List (List ℕ) → List Ddg
build_ddgs f traces = map (λ trace. build_ddg f.ir (map f.contents trace)) traces

-- for (DDG* ddg : ddgs) computeCriticalPath(ddg);
unfoldable pub critical_paths : List Ddg → Option (List Ddg)
critical_paths [] = some []
critical_paths (ddg ∷ ddgs) =
    bind (compute_critical_path ddg) λ g. bind (critical_paths ddgs) λ gs. some (g ∷ gs)

-- globalSchedulerPass::run
unfoldable pub run_global_pass :
    Function → (parent : ℕ → ℕ) → Answers → (use_pressure : Bool) → Option GlobalState
unfolding schedule_traces critical_paths
run_global_pass f parent llvm use_pressure = bind (compute_liveness f) λ liveness.
    bind (compute_reaching f llvm.names) λ reaching.
      let profile = profile_of f llvm in
      let threshold = get_trace_threshold profile llvm.threshold in
      bind (identify_traces profile threshold llvm.stats_on (length (blocks_of f)))
        λ (traces, counters). bind (critical_paths (build_ddgs f traces)) λ ddgs.
          schedule_traces
            (record {
              env = record {
                ir = f.ir;
                parent = parent;
                universe_index = build_value_index (universe_of f);
                liveness = liveness;
              };
              is_loop_header = llvm.is_loop_header;
              loop_of = llvm.loop_of;
              block_dominates = llvm.block_dominates;
              dominates = llvm.dominates;
              is_safe = llvm.is_safe;
              budget = get_pressure_budget llvm.budget;
              use_pressure = use_pressure;
              stats_on = llvm.stats_on;
            })
            ddgs traces
            (record { contents = f.contents; parent = parent; stats = no_hoists; peak = 0 })
