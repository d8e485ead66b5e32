-- ===== src/Legality.antt =====
-- include/scheduleLegality.hpp: the anchors, and reorderBlockWithinRegions. A block is the list of
-- its instructions.
pub mod Ordered
pub mod Moves
pub mod Reference
pub mod Order
use llvm_scheduling_reg_pres.Base.{
  ℕ, Bool, true, false, not, ◌&&◌, ◌||◌, List, [], ◌∷◌, ◌++◌, Option, none, some, ◌==◌,
  if◌then◌else◌, elem, remove, length,
}
use llvm_scheduling_reg_pres.Ir.{Instr, Ir, is_phi, is_call_base, is_alloca}

abbrev pub is_scheduling_anchor : Instr → Bool
is_scheduling_anchor i =
    is_phi i
    || i.is_terminator
    || is_alloca i
    || is_call_base i
    || i.is_eh_pad
    || i.is_token
    || i.may_read_or_write_memory
    || i.may_have_side_effects

-- An entry of `regions` and the entry of `boundaries` at the same index; `none` is nullptr.
pub record Region : Type 0 where
  pub members : List ℕ
  pub boundary : Option ℕ

-- The current run, if it is not empty, as a region in front of the others.
abbrev pub close : List ℕ → Option ℕ → List Region → List Region
close [] boundary rest = rest
close (i ∷ is) boundary rest = record { members = i ∷ is; boundary = boundary } ∷ rest

-- The first loop, from an instruction on, with `current` as it stands there.
pub regions_from : (anchor : ℕ → Bool) → List ℕ → List ℕ → List Region
regions_from anchor [] current = close current none []
regions_from anchor (i ∷ is) current =
    let grown = regions_from anchor is (current ++ i ∷ []) in
    let closed = close current (some i) (regions_from anchor is []) in
    if not (anchor i) then grown else closed

-- The members of a region in the order of the schedule, each once.
pub ordered_from : List ℕ → List ℕ → List ℕ → List ℕ
ordered_from members seen [] = []
ordered_from members seen (i ∷ is) =
    let taken = i ∷ ordered_from members (i ∷ seen) is in
    let skipped = ordered_from members seen is in
    if elem i members && not (elem i seen) then taken else skipped

abbrev pub insert_before : ℕ → ℕ → List ℕ → List ℕ
insert_before i boundary [] = i ∷ []
insert_before i boundary (j ∷ js) =
    if boundary == j then i ∷ j ∷ js else j ∷ insert_before i boundary js

-- I->moveBefore(boundary->getIterator())
abbrev pub move_before : ℕ → ℕ → List ℕ → List ℕ
move_before i boundary block = insert_before i boundary (remove i block)

pub move_all : List ℕ → ℕ → List ℕ → List ℕ
move_all [] boundary block = block
move_all (i ∷ is) boundary block = move_all is boundary (move_before i boundary block)

-- The body of the second loop.
pub reorder_region : List ℕ → Region → List ℕ → List ℕ
unfolding ordered_from move_all
reorder_region schedule region block =
    let ordered = ordered_from region.members [] schedule in
    if length ordered == length region.members
    then elim region.boundary [ none ↦ block | some boundary ↦ move_all ordered boundary block ]
    else block

pub reorder_regions : List ℕ → List Region → List ℕ → List ℕ
unfolding reorder_region
reorder_regions schedule [] block = block
reorder_regions schedule (r ∷ rs) block =
    reorder_regions schedule rs (reorder_region schedule r block)

abbrev pub anchor_of : Ir → ℕ → Bool
anchor_of ir i = is_scheduling_anchor (ir i)

unfoldable pub reorder_block_within_regions : Ir → List ℕ → List ℕ → List ℕ
unfolding regions_from reorder_regions
reorder_block_within_regions ir schedule block =
    reorder_regions schedule (regions_from (anchor_of ir) block []) block
