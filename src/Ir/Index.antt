-- ===== src/Ir/Index.antt =====
-- buildValueIndex against the universe.
use llvm_scheduling_reg_pres.Base.{
  ℕ, zero, suc, ◌+◌, ◌≡◌, refl, ap, sym, ◌∙◌, Bool, true, false, ◌||◌, List, [], ◌∷◌, none, some,
  if◌then◌else◌, arith, get_elem?, ==_refl,
}
use llvm_scheduling_reg_pres.Ir.{Value, instruction, argument, constant}
use llvm_scheduling_reg_pres.Ir.Values.{ValueIndex, same_value, index_from, build_value_index}

abbrev pub has_value : Value → List Value → Bool
has_value w [] = false
has_value w (v ∷ vs) = same_value v w || has_value w vs

-- No value twice.
abbrev pub DistinctValues : List Value → Type 0
DistinctValues [] = Unit
DistinctValues (v ∷ vs) = (has_value v vs ≡ false) × DistinctValues vs

same_value_refl : (v : Value) → same_value v v ≡ true
same_value_refl (instruction i) = ==_refl i
same_value_refl (argument i) = ==_refl i
same_value_refl (constant i) = ==_refl i

index_from_absent :
    (vs : List Value) (i : ℕ) (index : ValueIndex) (w : Value)
    → has_value w vs ≡ false
    → index_from i vs index w ≡ index w
index_from_absent [] i index w h = refl
index_from_absent (v ∷ vs) i index w h =
    let other : same_value v w ≡ false = ground arith in
    index_from_absent vs (suc i) (λ u. if same_value v u then some i else index u) w (ground arith)
    ∙ rw other refl

index_from-get_elem? :
    (vs : List Value) (i k : ℕ) (index : ValueIndex) (w : Value)
    → DistinctValues vs
    → get_elem? vs k ≡ some w
    → index_from i vs index w ≡ some (i + k)
index_from-get_elem? [] i k index w d at = absurd (ground arith)
index_from-get_elem? (v ∷ vs) i zero index w d at =
    let is : v ≡ w = ground arith in
    ap (λ u. index_from (suc i) vs (λ x. if same_value v x then some i else index x) u) (sym is)
    ∙ index_from_absent vs (suc i) (λ u. if same_value v u then some i else index u) v d.0
    ∙ rw (same_value_refl v) (ap some (omega arith))
index_from-get_elem? (v ∷ vs) i (suc k) index w d at =
    index_from-get_elem? vs (suc i) k (λ u. if same_value v u then some i else index u) w d.1 at
    ∙ ap some (omega arith)

-- For a universe that holds no value twice, the index maps the value at each position to that
-- position, and every value outside the universe to none.
pub build_value_index-get_elem? :
    (universe : List Value)
    → DistinctValues universe
    → ((k : ℕ) (v : Value) → get_elem? universe k ≡ some v → build_value_index universe v ≡ some k)
      × ((v : Value) → has_value v universe ≡ false → build_value_index universe v ≡ none)
unfolding build_value_index
build_value_index-get_elem? universe d = (
  λ k v at. index_from-get_elem? universe zero k (λ _. none) v d at ∙ ap some (omega arith),
  λ v h. index_from_absent universe zero (λ _. none) v h,
)
