-- ===== src/Critical.antt =====
-- include/critical.hpp: the depth-first topological sort and the critical path lengths.
pub mod Search
pub mod Lengths
pub mod Longest
pub mod Forward
pub mod Bound
use llvm_scheduling_reg_pres.Base.{
  ℕ, zero, suc, ◌+◌, Bool, List, [], ◌∷◌, ◌++◌, Option, none, some, bind, ltb, if◌then◌else◌, elem,
  length,
}
use mathlib.Core.List.{reverse}
use llvm_scheduling_reg_pres.Ddg.{Ddg, DdgNode, update}

-- The set and the vector that the recursion passes on.
pub record Sorting : Type 0 where
  pub visited : List ℕ
  pub result : List ℕ

-- for (...) if (!visited.count(node)) topoSortDFS(node, visited, result);
pub visit_all : (ℕ → Sorting → Option Sorting) → List ℕ → Sorting → Option Sorting
visit_all dfs [] st = some st
visit_all dfs (n ∷ ns) st =
    let skipped = visit_all dfs ns st in
    let entered = bind (dfs n st) (visit_all dfs ns) in
    if elem n st.visited then skipped else entered

-- Fuel bounds the depth of the recursion; `none` means that it ran out.
pub topo_sort_dfs : Ddg → ℕ → ℕ → Sorting → Option Sorting
unfolding visit_all
topo_sort_dfs g zero n st = none
topo_sort_dfs g (suc fuel) n st =
    bind
      (visit_all (topo_sort_dfs g fuel) (g.heap n).successors
        (record st { visited = n ∷ st.visited }))
      λ st'. some (record st' { result = st'.result ++ n ∷ [] })

-- No path visits a node twice, so the depth is at most the number of nodes.
pub topological_sort : Ddg → Option (List ℕ)
unfolding topo_sort_dfs
topological_sort g =
    bind
      (visit_all (topo_sort_dfs g (length g.nodes)) g.nodes (record { visited = []; result = [] }))
      λ st. some (reverse st.result)

abbrev pub max_succ_cp : (ℕ → DdgNode) → List ℕ → ℕ → ℕ
max_succ_cp heap [] max = max
max_succ_cp heap (s ∷ ss) max =
    max_succ_cp heap ss (if ltb max (heap s).critical_path then (heap s).critical_path else max)

-- What the loop of computeCriticalPath stores in a node with this delay and these successors.
abbrev pub cp_from : (ℕ → DdgNode) → ℕ → List ℕ → ℕ
cp_from heap delay [] = delay
cp_from heap delay (s ∷ ss) = delay + max_succ_cp heap (s ∷ ss) 0

abbrev pub cp_of : (ℕ → DdgNode) → ℕ → ℕ
cp_of heap n = cp_from heap (heap n).delay (heap n).successors

abbrev pub set_cp : ℕ → ℕ → Ddg → Ddg
set_cp n cp g = record g { heap = update g.heap n (record (g.heap n) { critical_path = cp }) }

pub assign_all : List ℕ → Ddg → Ddg
assign_all [] g = g
assign_all (n ∷ ns) g = assign_all ns (set_cp n (cp_of g.heap n) g)

unfoldable pub compute_critical_path : Ddg → Option Ddg
unfolding topological_sort assign_all
compute_critical_path g = bind (topological_sort g) λ order. some (assign_all (reverse order) g)
