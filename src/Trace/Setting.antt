-- ===== src/Trace/Setting.antt =====
-- include/traceIdentification.hpp: what trace identification reads, its index and its statistics.
use llvm_scheduling_reg_pres.Base.{ℕ, Bool, List, Option, none, some, leb, if◌then◌else◌}
use llvm_scheduling_reg_pres.Base.Int.{ℤ, pos, negsuc}

-- Probabilities are the numerators of BranchProbability, over its fixed denominator; `percent n` is
-- BranchProbability(n, 100).
pub record Profile : Type 0 where
  pub entry : ℕ
  pub successors : ℕ → List ℕ
  pub predecessors : ℕ → List ℕ
  pub probability : ℕ → ℕ → ℕ
  pub frequency : ℕ → ℕ
  pub percent : ℕ → ℕ

-- std::atoi of the environment variable, if it is set
abbrev pub threshold_percent : Option ℤ → ℕ
threshold_percent none = 60
threshold_percent (some (pos n)) = if leb 1 n then if leb n 100 then n else 60 else 60
threshold_percent (some (negsuc n)) = 60

unfoldable pub get_trace_threshold : Profile → Option ℤ → ℕ
get_trace_threshold p env = p.percent (threshold_percent env)

-- TraceIdStats
pub record Counters : Type 0 where
  pub above : ℕ
  pub below : ℕ
  pub backedges : ℕ

abbrev pub no_counters : Counters
no_counters = record { above = 0; below = 0; backedges = 0 }

-- bfsOrder and bfsIndex; `size` is the number of keys of bfsIndex.
pub record BfsIndex : Type 0 where
  pub order : List ℕ
  pub position : ℕ → Option ℕ
  pub size : ℕ

abbrev pub bfs_pos : BfsIndex → ℕ → ℕ
bfs_pos b bb = elim (b.position bb) [ none ↦ b.size | some i ↦ i ]

-- What stays fixed while the traces of a function grow.
pub record Search : Type 0 where
  pub profile : Profile
  pub threshold : ℕ
  pub stats_on : Bool
  pub index : BfsIndex
