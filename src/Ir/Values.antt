-- ===== src/Ir/Values.antt =====
-- include/schedulerPass.hpp: the map from a value to its bit.
use llvm_scheduling_reg_pres.Base.{
  ℕ, zero, suc, Bool, false, List, [], ◌∷◌, Option, none, some, ◌==◌, if◌then◌else◌,
}
use llvm_scheduling_reg_pres.Ir.{Value, instruction, argument, constant}

-- Equality of `Value*`.
abbrev pub same_value : Value → Value → Bool
same_value (instruction i) (instruction j) = i == j
same_value (argument i) (argument j) = i == j
same_value (constant i) (constant j) = i == j
same_value _ _ = false

-- DenseMap<Value*, unsigned>
abbrev pub ValueIndex : Type 0
ValueIndex = Value → Option ℕ

-- index[universe[i]] = i, for the rest of the universe from position i on.
abbrev pub index_from : ℕ → List Value → ValueIndex → ValueIndex
index_from i [] index = index
index_from i (v ∷ vs) index =
    index_from (suc i) vs (λ w. if same_value v w then some i else index w)

unfoldable pub build_value_index : List Value → ValueIndex
build_value_index universe = index_from zero universe (λ _. none)
