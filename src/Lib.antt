-- ===== src/Lib.antt =====
-- The instruction schedulers of this repository: an LLVM pass that orders the instructions of a
-- basic block (the local scheduler) or of a trace of blocks (the global one) by critical path and
-- register pressure. A scheduler builds a data dependence graph, computes the length of the
-- critical path from each node, runs list scheduling over a ready queue, and carries out the
-- schedule inside runs of instructions that may move.
--
-- Files and code:
-- - Ir and its children BitVec, Subset, Values, Index, Function: what the code reads of LLVM. An
--   `Instruction*` or `BasicBlock*` is a number; `Ir` gives LLVM's answers (isa, operands,
--   mayReadOrWriteMemory, ...) for each instruction and is an argument of all that asks. A block is
--   the list of its instructions, `moveBefore` is a removal and an insertion. `build_value_index`
--   is buildValueIndex of include/schedulerPass.hpp.
-- - Ddg, Ddg/Build: include/ddg.hpp (DDGNode, DDG, getDelay, addEdge, buildDDG) and buildLocalDDG
--   of include/localScheduler.hpp. Nodes live in a heap; an address is the number of nodes that
--   were made before. Loops over the blocks of a trace and the instructions of each go through the
--   concatenation of the blocks. `build_ddg` is the body of buildDDG's loop over the traces, and
--   `build_ddgs` of Passes the loop.
-- - Critical: include/critical.hpp (topoSortDFS, topologicalSort, computeCriticalPath).
-- - ListScheduler and its children Pressure and Pick: include/listScheduler.hpp (pressureDelta,
--   updateLiveSet, pickBest, listSchedule). The predCount fields are a map while the loop runs, and
--   the statistic g_peakLivePressure is a field of the state.
-- - Legality: include/scheduleLegality.hpp (isSchedulingAnchor, reorderBlockWithinRegions).
-- - Local: include/localScheduler.hpp (applyLocalSchedule, runLocalScheduler).
-- - Trace: include/traceIdentification.hpp (bfsPos, bestSuccessor, bestPredecessor,
--   identifyTraces). `Profile` gives LLVM's answers about edges, probabilities and frequencies.
-- - Hoist: include/applySchedule.hpp (getPressureBudget, isSameLoopOrOuter, applySchedule). The
--   blocks map to their instructions; `Hoister` gives LLVM's answers on dominance, loops and
--   speculation, those on single instructions as functions of where all of them stand.
-- - Dataflow: the loop that include/liveness.hpp, include/reaching.hpp and include/dom.hpp share
--   (while (changed) over the blocks). Dataflow/Fixpoint has its interface, the record `Analysis`,
--   whose laws make it end; Dataflow/Flow and Dataflow/Union serve analyses that collect bits along
--   edges.
-- - Liveness: include/liveness.hpp (computeLiveness).
-- - Reaching: include/reaching.hpp (computeReaching). The name of an instruction is an argument.
-- - Dominators: include/dom.hpp (computeDominators), whose loop is the same. The position of a
--   block in the order, the loop's counter, is what the index map gives for it.
-- - Passes: src/schedulerPass.cpp (localSchedulerPass::run, globalSchedulerPass::run and the
--   callback of registerPipelineParsingCallback), which compose the parts above but Dominators.
--   `Answers` gives what LLVM's analyses and the environment answer.
-- - Driver: src/schedRegAllocDriver.cpp (main), as the sequence of its fallible steps. `Llvm` gives
--   what the libraries answer to each.
-- - Base: tests on numbers, lists without repetition, and what stands before what in a list.
-- - Samples, PressureSamples, TraceSamples, HoistSamples, AnalysisSamples, PassSamples,
--   DriverSamples: runs on small inputs.
--
-- Bounds: loops that need it run on fuel and return `none` when it is gone. The recursion of the
-- topological sort and the loop of the list scheduler get the number of nodes, since no path of the
-- search and no schedule holds a node twice; the loops of trace identification get the number of
-- blocks. A pass of the data-flow loop that is not the last one sets a bit that was clear (or
-- clears one, for dominators), so that the number of bits of all blocks bounds the number of
-- passes. Delays, path lengths and counters are unbounded numbers and pressure deltas unbounded
-- integers, where the code has int and unsigned, and no overflow is modelled. INT_MAX, the first
-- bound of pickBest, is kept. BitVector reads outside the universe, which the code does not make,
-- give false. The environment variables (SCHED_STATS, SCHED_TRACE_THRESHOLD_PCT,
-- SCHED_PRESSURE_BUDGET) are arguments, and printing is left out.
--
-- Not modelled: the command line of the driver; what the passes print, and the deletion of the
-- graphs; the classes and registries of LLVM that the passes stand in; scripts, tests and
-- benchmarks.
pub mod Base
pub mod Ir
pub mod Ddg
pub mod Dataflow
pub mod Liveness
pub mod ListScheduler
pub mod Legality
pub mod Critical
pub mod Local
pub mod Trace
pub mod Hoist
pub mod Reaching
pub mod Dominators
pub mod Passes
pub mod Driver
mod Samples
mod PressureSamples
mod TraceSamples
mod HoistSamples
mod AnalysisSamples
mod PassSamples
mod DriverSamples
