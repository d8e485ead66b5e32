-- ===== src/Passes/Globally.antt =====
-- The global pass on a function.
pub mod Flattened
pub mod Traces
use mathlib.Core.List.{flatten}
use llvm_scheduling_reg_pres.Base.{
  ℕ, ◌≡◌, refl, Bool, not, List, [], ◌∷◌, Option, some, true, false, elem, Distinct,
  Distinct-select, All, length,
}
use llvm_scheduling_reg_pres.Ir.Values.{build_value_index}
use llvm_scheduling_reg_pres.Ir.Function.{Function, blocks_of, universe_of, instructions_of}
use llvm_scheduling_reg_pres.Liveness.Correct.{compute_liveness-some}
use llvm_scheduling_reg_pres.Reaching.Visits.{cfg_of}
use llvm_scheduling_reg_pres.Reaching.Correct.{compute_reaching-ReachesEnd}
use llvm_scheduling_reg_pres.Trace.{Profile, get_trace_threshold}
use llvm_scheduling_reg_pres.Trace.Paths.{IsCfg, HotPath}
use llvm_scheduling_reg_pres.Trace.Correct.{identify_traces-Distinct}
use llvm_scheduling_reg_pres.Hoist.{Hoister, get_pressure_budget}
use llvm_scheduling_reg_pres.Hoist.Anchors.{anchors}
use llvm_scheduling_reg_pres.Hoist.Balance.{IsBalanced}
use llvm_scheduling_reg_pres.Hoist.Placed.{IsPlaced, standing}
use llvm_scheduling_reg_pres.Legality.{anchor_of}
use llvm_scheduling_reg_pres.Base.{select}
use llvm_scheduling_reg_pres.Passes.{GlobalState, Answers, profile_of, no_hoists, run_global_pass}
use llvm_scheduling_reg_pres.Passes.Globally.Flattened.{Distinct-flatten}
use llvm_scheduling_reg_pres.Passes.Globally.Traces.{
  NonEmpty, critical_paths-Prepared, schedule_traces-TraceDone,
}

NonEmpty-hot :
    (p : Profile) (threshold : ℕ) (ts : List (List ℕ)) → All (HotPath p threshold) ts → NonEmpty ts
unfolding NonEmpty
NonEmpty-hot p threshold [] h = tt
NonEmpty-hot p threshold ([] ∷ ts) h = absurd h.0
NonEmpty-hot p threshold ((b ∷ bs) ∷ ts) h = NonEmpty-hot p threshold ts h.1

-- Let the edges of the function stay inside it, and let every instruction stand once, in its parent.
-- globalSchedulerPass then ends, with and without pressure: the analyses reach their fixed points, every
-- trace is scheduled. Every instruction still stands once, in its parent, and none is lost; every block
-- has the same anchors (terminators, PHIs, instructions with effects) in the same order; and each
-- candidate for a move has either moved or is counted under one reason.
pub run_global_pass-IsPlaced :
    (f : Function) (parent : ℕ → ℕ) (llvm : Answers) (use_pressure : Bool)
    → IsCfg (cfg_of f) (blocks_of f)
    → IsPlaced f.contents parent
    → (end : GlobalState) × (run_global_pass f parent llvm use_pressure ≡ some end)
      × IsPlaced end.contents end.parent
      × ((i : ℕ) → standing end.contents end.parent i ≡ standing f.contents parent i)
      × ((b : ℕ)
          → select (anchor_of f.ir) (end.contents b) ≡ select (anchor_of f.ir) (f.contents b))
      × IsBalanced end.stats
unfolding run_global_pass
run_global_pass-IsPlaced f parent llvm use_pressure cfg placed =
    let (liveness, lived) = compute_liveness-some f in
    let distinct =
      Distinct-select (λ k. not (f.ir k).is_void) (instructions_of f)
        (Distinct-flatten f.contents parent (blocks_of f) placed cfg.distinct) in
    let (reaching, reached, _) = compute_reaching-ReachesEnd f llvm.names cfg distinct in
    let profile = profile_of f llvm in
    let threshold = get_trace_threshold profile llvm.threshold in
    let inside : IsCfg profile (blocks_of f) = record {
      distinct = cfg.distinct;
      entry_in = cfg.entry_in;
      succ_in = cfg.succ_in;
      pred_in = cfg.pred_in;
    } in
    let (traces, counters, identified, apart, hot, _) =
      identify_traces-Distinct profile threshold llvm.stats_on (blocks_of f) inside in
    let (gs, prepared, ready) = critical_paths-Prepared f parent placed traces apart in
    let h : Hoister = record {
      env = record {
        ir = f.ir;
        parent = parent;
        universe_index = build_value_index (universe_of f);
        liveness = liveness;
      };
      is_loop_header = llvm.is_loop_header;
      loop_of = llvm.loop_of;
      block_dominates = llvm.block_dominates;
      dominates = llvm.dominates;
      is_safe = llvm.is_safe;
      budget = get_pressure_budget llvm.budget;
      use_pressure = use_pressure;
      stats_on = llvm.stats_on;
    } in
    let done =
      schedule_traces-TraceDone f parent placed h traces gs
        (record { contents = f.contents; parent = parent; stats = no_hoists; peak = 0 }) apart
        (NonEmpty-hot profile threshold traces hot) ready placed (λ b m. refl) in
    (
      done.end,
      rw (lived, reached, identified, prepared) (done.returns),
      done.keeps.placed,
      done.keeps.none_lost,
      done.anchors,
      done.balanced refl,
    )
