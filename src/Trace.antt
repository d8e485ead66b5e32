-- ===== src/Trace.antt =====
-- include/traceIdentification.hpp: blocks are addresses, and `Profile` holds LLVM's answers about
-- the control flow graph, the branch probabilities and the block frequencies.
mod Setting
mod Grow
mod Bfs
pub mod Choice
pub mod Paths
pub mod Reach
pub mod Sorted
pub mod Correct
unfoldable pub use Setting.*
unfoldable pub use Grow.*
unfoldable pub use Bfs.*
use llvm_scheduling_reg_pres.Base.{
  ℕ, Bool, List, [], ◌∷◌, Option, none, some, bind, ltb, ◌==◌, if◌then◌else◌, elem, length,
}
use Setting.{Profile, Counters, no_counters, Search, BfsIndex}
use Grow.{Growth, Trace, grow_forward, grow_backward}
use Bfs.{bfs}

-- One entry in front of a list that is sorted by falling frequency; it stays in front of its equals.
abbrev insert_desc : (ℕ → ℕ) → ℕ → List ℕ → List ℕ
insert_desc freq bb [] = bb ∷ []
insert_desc freq bb (b ∷ bs) =
    if ltb (freq bb) (freq b) then b ∷ insert_desc freq bb bs else bb ∷ b ∷ bs

-- std::stable_sort by falling frequency
pub sort_desc : (ℕ → ℕ) → List ℕ → List ℕ
sort_desc freq [] = []
sort_desc freq (b ∷ bs) = insert_desc freq b (sort_desc freq bs)

-- The trace of one seed. Each growth visits a block that was not visited before, so the fuel is the
-- number of blocks.
pub trace_from : Search → (fuel : ℕ) → ℕ → List ℕ → Counters → Option Trace
trace_from s fuel seed visited counters =
    bind (grow_forward s fuel seed (seed ∷ visited) counters)
      λ g. grow_backward s fuel seed (seed ∷ g.added) g.visited g.counters

-- The loop over the seeds from the cursor on, with the blocks visited so far.
pub traces_from :
    Search → (fuel : ℕ) → List ℕ → List ℕ → Counters → Option (List (List ℕ) × Counters)
unfolding trace_from
traces_from s fuel [] visited counters = some ([], counters)
traces_from s fuel (bb ∷ bbs) visited counters =
    let skipped = traces_from s fuel bbs visited counters in
    let grown : Option (List (List ℕ) × Counters) =
      bind (trace_from s fuel bb visited counters) λ t.
        bind (traces_from s fuel bbs t.visited t.counters)
          λ (traces, end). some (t.blocks ∷ traces, end) in
    if elem bb visited
    then skipped
    else if s.profile.frequency bb == 0
    then some ([], counters)
    else grown

-- identifyTraces for a function of at most `fuel` blocks; `none` is fuel that has run out.
unfoldable pub identify_traces :
    Profile → (threshold : ℕ) → (stats_on : Bool) → (fuel : ℕ) → Option (List (List ℕ) × Counters)
unfolding sort_desc traces_from
identify_traces profile threshold stats_on fuel = bind (bfs profile fuel) λ index.
    traces_from
      (record { profile = profile; threshold = threshold; stats_on = stats_on; index = index }) fuel
      (sort_desc profile.frequency index.order) [] no_counters
