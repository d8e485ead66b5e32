-- ===== src/Liveness.antt =====
-- include/liveness.hpp: the sets that liveness analysis keeps for a block, and their computation.
pub mod Sets
pub mod Step
pub mod Correct
use mathlib.Core.List.{reverse}
use llvm_scheduling_reg_pres.Base.{
  ℕ, suc, ◌+◌, ◌*◌, Bool, true, false, ◌&&◌, List, [], ◌∷◌, Option, none, some, if◌then◌else◌,
  length, update,
}
use llvm_scheduling_reg_pres.Ir.{Ir, Value, instruction}
use llvm_scheduling_reg_pres.Ir.Values.{ValueIndex, build_value_index}
use llvm_scheduling_reg_pres.Ir.Function.{Function, blocks_of, universe_of}
use llvm_scheduling_reg_pres.Ir.BitVec.{BitVec, test, set, zeros, or_bits, minus_bits, same_bits}
use llvm_scheduling_reg_pres.Dataflow.{iterate, fill}
use llvm_scheduling_reg_pres.Dataflow.Union.{union_from}

pub record BlockStateLiveness : Type 0 where
  pub in_set : BitVec
  pub out_set : BitVec
  pub use_set : BitVec
  pub def_set : BitVec

-- if (!bs.def.test(idx)) bs.use.set(idx);
abbrev pub note_use : ValueIndex → BitVec → Value → BitVec → BitVec
note_use index def v uses = elim (index v) [
  | none ↦ uses
  | some idx ↦ if test def idx then uses else set uses idx
]

abbrev pub note_uses : ValueIndex → BitVec → List Value → BitVec → BitVec
note_uses index def [] uses = uses
note_uses index def (v ∷ vs) uses = note_uses index def vs (note_use index def v uses)

abbrev pub note_def : ValueIndex → ℕ → BitVec → BitVec
note_def index i def = elim (index (instruction i)) [ none ↦ def | some idx ↦ set def idx ]

-- The loop over the instructions of a block.
pub scan_block : Ir → ValueIndex → List ℕ → BlockStateLiveness → BlockStateLiveness
scan_block ir index [] bs = bs
scan_block ir index (i ∷ is) bs = scan_block ir index is (record bs {
  use_set = note_uses index bs.def_set (ir i).operands bs.use_set;
  def_set = note_def index i bs.def_set;
})

abbrev pub all_zeros : ℕ → BlockStateLiveness
all_zeros n = record { in_set = zeros n; out_set = zeros n; use_set = zeros n; def_set = zeros n }

-- What DenseMap gives for a block that it has no entry for.
abbrev pub no_entry : BlockStateLiveness
no_entry = record { in_set = []; out_set = []; use_set = []; def_set = [] }

-- The states before the fixed-point iteration.
pub first_states :
    Function → ValueIndex → (width : ℕ) → List ℕ → (ℕ → BlockStateLiveness) → ℕ → BlockStateLiveness
unfolding scan_block
first_states f index width bs st =
    fill (λ b. scan_block f.ir index (f.contents b) (all_zeros width)) bs st

-- newOut and newIn
abbrev pub new_out : Function → (width : ℕ) → ℕ → (ℕ → BlockStateLiveness) → BitVec
new_out f width b st = union_from (zeros width) (λ k. (st k).in_set) (f.successors b)

abbrev pub new_in : Function → (width : ℕ) → ℕ → (ℕ → BlockStateLiveness) → BitVec
new_in f width b st = or_bits (st b).use_set (minus_bits (new_out f width b st) (st b).def_set)

-- The body of the loop over the blocks.
pub liveness_step :
    Function → (width : ℕ) → ℕ → (ℕ → BlockStateLiveness) → BlockStateLiveness × Bool
liveness_step f width b st =
    if same_bits (new_in f width b st) (st b).in_set
      && same_bits (new_out f width b st) (st b).out_set
    then (st b, false)
    else (record (st b) { in_set = new_in f width b st; out_set = new_out f width b st }, true)

-- Each pass but the last sets a bit of `in` or `out` of some block.
unfoldable pub compute_liveness : Function → Option (ℕ → BlockStateLiveness)
unfolding iterate liveness_step first_states
compute_liveness f =
    let width = length (universe_of f) in
    let order = reverse (blocks_of f) in
    iterate (liveness_step f width) (suc (length order * (width + width))) order
      (first_states f (build_value_index (universe_of f)) width (blocks_of f) (λ _. no_entry))
