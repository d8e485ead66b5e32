-- ===== src/Ddg/Build/Delays.antt =====
-- The delays of a new graph, and its size.
use mathlib.Core.List.{flatten}
use llvm_scheduling_reg_pres.Base.{
  not, ◌&&◌, suc, subst, append-nil, ℕ, ◌+◌, ◌≤◌, ◌≡◌, refl, Bool, true, List, [], ◌∷◌, ◌++◌, arith,
  length, length-append, elem, ◌==◌, Bool-cases, Option-cases, inl, inr,
}
use llvm_scheduling_reg_pres.Ir.{
  is_phi, Ir, Instr, Value, Class, Opcode, load, store, call, call_terminator, phi, alloca, other,
  binary, mul, udiv, sdiv, other_opcode, as_instruction,
}
use llvm_scheduling_reg_pres.Ddg.{Ddg, opcode_delay, get_delay, add_edge}
use llvm_scheduling_reg_pres.Ddg.Build.{
  Builder, NodeMap, add_node, add_nodes, link_operand, link_operands, link_instr, link_all,
  is_ordered, order_pair, order_after, order_block, order_blocks, no_nodes, build, build_ddg,
  build_local_ddg,
}

-- Before critical paths are computed: delays of at most ten, paths of length zero, and at most `k` nodes.
pub record IsFresh (k : ℕ) (g : Ddg) : Type 0 where
  pub delay_le : (n : ℕ) → (g.heap n).delay ≤ 10
  pub no_path : (n : ℕ) → (g.heap n).critical_path ≡ 0
  pub few : length g.nodes ≤ k

opcode_delay_le : (o : Opcode) → opcode_delay o ≤ 10
unfolding opcode_delay
opcode_delay_le mul = omega arith
opcode_delay_le udiv = omega arith
opcode_delay_le sdiv = omega arith
opcode_delay_le other_opcode = omega arith

get_delay_le : (i : Instr) → get_delay i ≤ 10
unfolding get_delay
get_delay_le i = by_class i.class
  where
    by_class :
        (c : Class)
        → elim c [ load ↦ 3 | store ↦ 1 | call ↦ 5 | binary op ↦ opcode_delay op | _ ↦ 1 ] ≤ 10
    by_class phi = omega arith
    by_class alloca = omega arith
    by_class load = omega arith
    by_class store = omega arith
    by_class call = omega arith
    by_class call_terminator = omega arith
    by_class other = omega arith
    by_class (binary op) = opcode_delay_le op

module _ (k : ℕ) where
  IsFresh-add_edge : (src dst : ℕ) (g : Ddg) → IsFresh k g → IsFresh k (add_edge src dst g)
  unfolding add_edge
  IsFresh-add_edge src dst g f = elim (Bool-cases (elem dst (g.heap src).successors)) [
    | inl e ↦ rw (add_edge, e) f
    | inr e ↦
        rw (add_edge, e)
          (record {
            delay_le = λ n.
                let old = f.delay_le n in
                let a = f.delay_le src in let b = f.delay_le dst in ground arith;
            no_path = λ n.
                let old = f.no_path n in
                let a = f.no_path src in let b = f.no_path dst in ground arith;
            few = f.few;
          })
  ]

  IsFresh-link_operand :
      (gives : ℕ → Bool) (m : NodeMap) (dst : ℕ) (v : Value) (g : Ddg)
      → IsFresh k g
      → IsFresh k (link_operand gives m dst v g)
  IsFresh-link_operand gives m dst v g f = elim (Option-cases (as_instruction v)) [
    | inl e ↦ rw (link_operand, e) f
    | inr (def, e) ↦ elim (Bool-cases (gives def)) [
      | inr n ↦ rw (link_operand, e, n) f
      | inl y ↦ elim (Option-cases (m def)) [
        | inl n ↦ rw (link_operand, e, y, n) f
        | inr (src, at) ↦ rw (link_operand, e, y, at) (IsFresh-add_edge src dst g f)
      ]
    ]
  ]

  IsFresh-link_operands :
      (gives : ℕ → Bool) (m : NodeMap) (dst : ℕ) (vs : List Value) (g : Ddg)
      → IsFresh k g
      → IsFresh k (link_operands gives m dst vs g)
  unfolding link_operands
  IsFresh-link_operands gives m dst [] g f = f
  IsFresh-link_operands gives m dst (v ∷ vs) g f =
      IsFresh-link_operands gives m dst vs (link_operand gives m dst v g)
        (IsFresh-link_operand gives m dst v g f)

  IsFresh-link_instr :
      (takes gives : ℕ → Bool) (ir : Ir) (m : NodeMap) (i : ℕ) (g : Ddg)
      → IsFresh k g
      → IsFresh k (link_instr takes gives ir m i g)
  unfolding link_instr
  IsFresh-link_instr takes gives ir m i g f = elim (Bool-cases (takes i)) [
    | inr n ↦ rw (link_instr, n) f
    | inl y ↦ elim (Option-cases (m i)) [
      | inl n ↦ rw (link_instr, y, n) f
      | inr (dst, at) ↦
          rw (link_instr, y, at) (IsFresh-link_operands gives m dst (ir i).operands g f)
    ]
  ]

  IsFresh-link_all :
      (takes gives : ℕ → Bool) (ir : Ir) (m : NodeMap) (is : List ℕ) (g : Ddg)
      → IsFresh k g
      → IsFresh k (link_all takes gives ir m is g)
  unfolding link_all
  IsFresh-link_all takes gives ir m [] g f = f
  IsFresh-link_all takes gives ir m (i ∷ is) g f =
      IsFresh-link_all takes gives ir m is (link_instr takes gives ir m i g)
        (IsFresh-link_instr takes gives ir m i g f)

  IsFresh-order_pair :
      (m : NodeMap) (prev i : ℕ) (g : Ddg) → IsFresh k g → IsFresh k (order_pair m prev i g)
  IsFresh-order_pair m prev i g f = elim (Option-cases (m prev)) [
    | inl e ↦ rw (order_pair, e) f
    | inr (src, e) ↦ elim (Option-cases (m i)) [
      | inl n ↦ rw (order_pair, e, n) f
      | inr (dst, at) ↦ rw (order_pair, e, at) (IsFresh-add_edge src dst g f)
    ]
  ]

  IsFresh-order_after :
      (m : NodeMap) (prevs : List ℕ) (i : ℕ) (g : Ddg)
      → IsFresh k g
      → IsFresh k (order_after m prevs i g)
  unfolding order_after
  IsFresh-order_after m [] i g f = f
  IsFresh-order_after m (prev ∷ prevs) i g f =
      IsFresh-order_after m prevs i (order_pair m prev i g) (IsFresh-order_pair m prev i g f)

  IsFresh-order_block :
      (ir : Ir) (m : NodeMap) (ops is : List ℕ) (g : Ddg)
      → IsFresh k g
      → IsFresh k (order_block ir m ops is g)
  unfolding order_block
  IsFresh-order_block ir m ops [] g f = f
  IsFresh-order_block ir m ops (i ∷ is) g f = elim (Bool-cases (is_ordered (ir i))) [
    | inl e ↦ rw e (
        IsFresh-order_block ir m (ops ++ i ∷ []) is (order_after m ops i g)
          (IsFresh-order_after m ops i g f))
    | inr e ↦ rw e (IsFresh-order_block ir m ops is g f)
  ]

  IsFresh-order_blocks :
      (ir : Ir) (m : NodeMap) (blocks : List (List ℕ)) (g : Ddg)
      → IsFresh k g
      → IsFresh k (order_blocks ir m blocks g)
  unfolding order_blocks
  IsFresh-order_blocks ir m [] g f = f
  IsFresh-order_blocks ir m (block ∷ blocks) g f =
      IsFresh-order_blocks ir m blocks (order_block ir m [] block g)
        (IsFresh-order_block ir m [] block g f)

IsFresh-add_nodes :
    (has_node : ℕ → Bool) (ir : Ir) (is : List ℕ) (k : ℕ) (b : Builder)
    → IsFresh k b.ddg
    → IsFresh (k + length is) (add_nodes has_node ir is b).ddg
unfolding add_nodes
IsFresh-add_nodes has_node ir [] k b f = record {
  delay_le = f.delay_le;
  no_path = f.no_path;
  few = let few = f.few in omega (arith, few);
}
IsFresh-add_nodes has_node ir (i ∷ is) k b f =
    let shift : suc k + length is ≡ k + suc (length is) = omega arith in
    let few = f.few in
    elim (Bool-cases (has_node i)) [
      | inl e ↦
          let one : IsFresh (suc k) (add_node ir i b).ddg = record {
            delay_le = λ n. elim (Bool-cases (b.fresh == n)) [
              | inl s ↦ rw s (get_delay_le (ir i))
              | inr s ↦ rw s (f.delay_le n)
            ];
            no_path = λ n. elim (Bool-cases (b.fresh == n)) [
              | inl s ↦ rw s refl
              | inr s ↦ rw s (f.no_path n)
            ];
            few = let long = length-append b.ddg.nodes (b.fresh ∷ []) in omega (arith, long, few);
          } in
          rw (add_nodes, e)
            (subst (λ n. IsFresh n (add_nodes has_node ir is (add_node ir i b)).ddg) shift
              (IsFresh-add_nodes has_node ir is (suc k) (add_node ir i b) one))
      | inr e ↦
          let one : IsFresh (suc k) b.ddg = record {
            delay_le = f.delay_le;
            no_path = f.no_path;
            few = omega (arith, few);
          } in
          rw (add_nodes, e)
            (subst (λ n. IsFresh n (add_nodes has_node ir is b).ddg) shift
              (IsFresh-add_nodes has_node ir is (suc k) b one))
    ]

IsFresh-build :
    (has_node takes gives : ℕ → Bool) (ir : Ir) (blocks : List (List ℕ))
    → IsFresh (length (flatten blocks)) (build has_node takes gives ir blocks)
unfolding build
IsFresh-build has_node takes gives ir blocks =
    let b = add_nodes has_node ir (flatten blocks) no_nodes in
    let start : 0 + length (flatten blocks) ≡ length (flatten blocks) = omega arith in
    let made =
      subst (λ n. IsFresh n b.ddg) start
        (IsFresh-add_nodes has_node ir (flatten blocks) 0 no_nodes
          (record { delay_le = λ n. omega arith; no_path = λ n. refl; few = omega arith })) in
    IsFresh-order_blocks (length (flatten blocks)) ir b.instr_to_node blocks
      (link_all takes gives ir b.instr_to_node (flatten blocks) b.ddg)
      (IsFresh-link_all (length (flatten blocks)) takes gives ir b.instr_to_node (flatten blocks)
        b.ddg made)

pub IsFresh-build_ddg :
    (ir : Ir) (trace : List (List ℕ)) → IsFresh (length (flatten trace)) (build_ddg ir trace)
unfolding build_ddg
IsFresh-build_ddg ir trace =
    let linked = λ (i : ℕ). not (is_phi (ir i)) && not (ir i).is_terminator in
    IsFresh-build (λ i. not (is_phi (ir i))) linked linked ir trace

pub IsFresh-build_local_ddg :
    (ir : Ir) (block : List ℕ) → IsFresh (length block) (build_local_ddg ir block)
unfolding build_local_ddg flatten
IsFresh-build_local_ddg ir block =
    subst (λ l. IsFresh (length l) (build_local_ddg ir block)) (append-nil block)
      (IsFresh-build (λ _. true) (λ _. true) (λ _. true) ir (block ∷ []))
