-- ===== src/Reaching/Sets.antt =====
-- include/reaching.hpp: the sets that reaching definitions keeps for a block, and what a block does to
-- them.
use llvm_scheduling_reg_pres.Base.{
  ℕ, suc, Bool, false, List, [], ◌∷◌, Option, none, some, ◌==◌, if◌then◌else◌,
}
use llvm_scheduling_reg_pres.Ir.{Ir}
use llvm_scheduling_reg_pres.Ir.BitVec.{BitVec, set, zeros}

pub record BlockStateReaching : Type 0 where
  pub in_set : BitVec
  pub out_set : BitVec
  pub gen_set : BitVec
  pub kill_set : BitVec

-- I.getName() of each instruction; `none` is the empty name.
abbrev pub Names : Type 0
Names = ℕ → Option ℕ

-- !I.getName().empty() && universe[i]->getName() == I.getName()
abbrev pub same_name : Option ℕ → Option ℕ → Bool
same_name none other = false
same_name (some n) none = false
same_name (some n) (some m) = m == n

-- std::find in the rest of the universe from position `i` on; `none` is universe.end().
abbrev pub find_from : ℕ → List ℕ → ℕ → Option ℕ
find_from i [] d = none
find_from i (u ∷ us) d = let rest = find_from (suc i) us d in if u == d then some i else rest

-- The loop over the universe, from position `i` on.
abbrev pub kill_others : Names → (def_idx : ℕ) → ℕ → ℕ → List ℕ → BitVec → BitVec
kill_others names def_idx d i [] kill = kill
kill_others names def_idx d i (u ∷ us) kill =
    kill_others names def_idx d (suc i) us
      (if i == def_idx then kill else if same_name (names d) (names u) then set kill i else kill)

-- The loop's body for an instruction that is not void.
abbrev pub note_definition : Names → List ℕ → ℕ → BlockStateReaching → BlockStateReaching
note_definition names universe d bs = elim (find_from 0 universe d) [
  | none ↦ bs
  | some def_idx ↦ record bs {
    gen_set = set bs.gen_set def_idx;
    kill_set = kill_others names def_idx d 0 universe bs.kill_set;
  }
]

-- The loop over the instructions of a block.
unfoldable pub collect : Ir → Names → List ℕ → List ℕ → BlockStateReaching → BlockStateReaching
collect ir names universe [] bs = bs
collect ir names universe (i ∷ is) bs =
    collect ir names universe is
      (if (ir i).is_void then bs else note_definition names universe i bs)

abbrev pub empty_sets : ℕ → BlockStateReaching
empty_sets n = record { in_set = zeros n; out_set = zeros n; gen_set = zeros n; kill_set = zeros n }

-- What DenseMap gives for a block that it has no entry for.
abbrev pub absent : BlockStateReaching
absent = record { in_set = []; out_set = []; gen_set = []; kill_set = [] }
