-- ===== src/Trace/Grow.antt =====
-- include/traceIdentification.hpp: the growth of a trace from its seed.
use llvm_scheduling_reg_pres.Base.{
  ℕ, zero, suc, Bool, List, [], ◌∷◌, Option, none, some, bind, ltb, leb, if◌then◌else◌, elem,
}
use llvm_scheduling_reg_pres.Trace.Setting.{Search, Counters, bfs_pos}

-- The variables `best` and `bestProb`, and g_traceIdStats.
pub record Candidate : Type 0 where
  pub best : Option ℕ
  pub best_prob : ℕ
  pub counters : Counters

abbrev pub count_below : Bool → Counters → Counters
count_below stats_on c = if stats_on then record c { below = suc c.below } else c

abbrev pub count_above : Bool → Counters → Counters
count_above stats_on c = if stats_on then record c { above = suc c.above } else c

abbrev pub count_back : Bool → Counters → Counters
count_back stats_on c = if stats_on then record c { backedges = suc c.backedges } else c

-- One round of the loop in bestSuccessor and bestPredecessor, for the block `bb` over an edge of
-- probability `prob`.
abbrev pub weigh : Search → (visited back : Bool) → ℕ → ℕ → Candidate → Candidate
weigh s visited back bb prob c =
    let above = count_above s.stats_on c.counters in
    if visited
    then c
    else if leb prob s.threshold
    then record c { counters = count_below s.stats_on c.counters }
    else if back
    then record c { counters = count_back s.stats_on above }
    else if ltb c.best_prob prob
    then record { best = some bb; best_prob = prob; counters = above }
    else record c { counters = above }

abbrev pub weigh_successor : Search → List ℕ → ℕ → ℕ → Candidate → Candidate
weigh_successor s visited bb succ =
    weigh s (elem succ visited) (ltb (bfs_pos s.index succ) (bfs_pos s.index bb)) succ
      (s.profile.probability bb succ)

abbrev pub weigh_predecessor : Search → List ℕ → ℕ → ℕ → Candidate → Candidate
weigh_predecessor s visited bb pred =
    weigh s (elem pred visited) (ltb (bfs_pos s.index bb) (bfs_pos s.index pred)) pred
      (s.profile.probability pred bb)

unfoldable pub weigh_all : (ℕ → Candidate → Candidate) → List ℕ → Candidate → Candidate
weigh_all f [] c = c
weigh_all f (bb ∷ bbs) c = weigh_all f bbs (f bb c)

unfoldable pub best_successor : Search → List ℕ → ℕ → Counters → Candidate
unfolding weigh_all
best_successor s visited bb counters =
    weigh_all (weigh_successor s visited bb) (s.profile.successors bb)
      (record { best = none; best_prob = 0; counters = counters })

unfoldable pub best_predecessor : Search → List ℕ → ℕ → Counters → Candidate
unfolding weigh_all
best_predecessor s visited bb counters =
    weigh_all (weigh_predecessor s visited bb) (s.profile.predecessors bb)
      (record { best = none; best_prob = 0; counters = counters })

-- What the first growth loop adds behind the seed.
pub record Growth : Type 0 where
  pub added : List ℕ
  pub visited : List ℕ
  pub counters : Counters

unfoldable pub grow_forward : Search → (fuel : ℕ) → ℕ → List ℕ → Counters → Option Growth
unfolding best_successor
grow_forward s zero current visited counters = none
grow_forward s (suc fuel) current visited counters =
    let c = best_successor s visited current counters in
    elim c.best [
      | none ↦ some (record { added = []; visited = visited; counters = c.counters })
      | some next ↦
          bind (grow_forward s fuel next (next ∷ visited) c.counters)
            λ g. some (record g { added = next ∷ g.added })
    ]

pub record Trace : Type 0 where
  pub blocks : List ℕ
  pub visited : List ℕ
  pub counters : Counters

unfoldable pub grow_backward : Search → (fuel : ℕ) → ℕ → List ℕ → List ℕ → Counters → Option Trace
unfolding best_predecessor
grow_backward s zero current trace visited counters = none
grow_backward s (suc fuel) current trace visited counters =
    let c = best_predecessor s visited current counters in
    elim c.best [
      | none ↦ some (record { blocks = trace; visited = visited; counters = c.counters })
      | some prev ↦ grow_backward s fuel prev (prev ∷ trace) (prev ∷ visited) c.counters
    ]
