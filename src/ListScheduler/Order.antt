-- ===== src/ListScheduler/Order.antt =====
-- The order of the picked nodes, and the nodes that are never picked.
use llvm_scheduling_reg_pres.Base.{
  ℕ, zero, suc, ◌<◌, ◌≡◌, refl, sym, ◌∙◌, Bool, true, false, not, ◌&&◌, ◌||◌, List, [], ◌∷◌, ◌==◌,
  elem, Distinct, Before, missing-elem, missing-witness, arith, Bool-cases, inl, inr, ◌⊎◌, ==_iff,
  Before-elem, ◌≢◌,
}
use mathlib.Core.Bool.{false≢true}
use llvm_scheduling_reg_pres.Ddg.Edges.{IsWf, preds, edge}
use llvm_scheduling_reg_pres.ListScheduler.{Job, schedulable}
use llvm_scheduling_reg_pres.ListScheduler.Loop.{all_done, waits, is_ready, Follows}

-- What the order of the picked nodes has to do with the graph.
pub record IsTopological (job : Job) (picked : List ℕ) : Type 0 where
  pub distinct : Distinct picked
  pub from_nodes : (n : ℕ) → elem n picked ≡ true → elem n job.ddg.nodes ≡ true
  pub may_move : (n : ℕ) → elem n picked ≡ true → schedulable job n ≡ true
  pub ordered : (a b : ℕ) → edge job.ddg a b ≡ true → elem b picked ≡ true → Before picked a b

-- A node that is a PHI or a terminator, or that depends on such a node, at any distance.
pub data Blocked (job : Job) : ℕ → Type 0 where
  fixed : (n : ℕ) → schedulable job n ≡ false → Blocked job n
  behind : (p n : ℕ) → edge job.ddg p n ≡ true → Blocked job p → Blocked job n

unready :
    {a b c d : Bool} → a ≡ true → b ≡ true → c ≡ true → d ≡ false → (a && b && c && not d) ≡ true
unready {a} {b} {c} {d} p q r z = ground arith

record Ready (job : Job) (done : List ℕ) (n : ℕ) : Type 0 where
  node : elem n job.ddg.nodes ≡ true
  movable : schedulable job n ≡ true
  free : waits job done n ≡ 0
  fresh : elem n done ≡ false

and-true :
    {a b c d : Bool} → (a && b && c && d) ≡ true → (a ≡ true) × (b ≡ true) × (c ≡ true) × (d ≡ true)
and-true {a} {b} {c} {d} h = ground arith

is_ready-Ready : (job : Job) (done : List ℕ) (n : ℕ) → is_ready job done n ≡ true → Ready job done n
is_ready-Ready job done n h =
    let (node, movable, free, fresh) = and-true h in
    record { node = node; movable = movable; free = (==_iff _ 0).0 free; fresh = ground arith }

module _ (job : Job) where
  Follows-fresh :
      (n : ℕ) (done ns : List ℕ) → Follows job done ns → elem n done ≡ true → elem n ns ≡ false
  Follows-fresh n done [] f m = refl
  Follows-fresh n done (x ∷ ns) f m =
      let fresh = (is_ready-Ready job done x f.0).fresh in
      elim (Bool-cases (n == x)) [
        | inl e ↦ let same = (==_iff n x).0 e in ground arith
        | inr e ↦ let later = Follows-fresh n (x ∷ done) ns f.1 (ground arith) in ground arith
      ]

  Follows-Distinct : (done ns : List ℕ) → Follows job done ns → Distinct ns
  Follows-Distinct done [] f = tt
  Follows-Distinct done (x ∷ ns) f =
      (Follows-fresh x (x ∷ done) ns f.1 (ground arith), Follows-Distinct (x ∷ done) ns f.1)

  Follows-elem :
      (n : ℕ) (done ns : List ℕ)
      → Follows job done ns
      → elem n ns ≡ true
      → (elem n job.ddg.nodes ≡ true) × (schedulable job n ≡ true)
  Follows-elem n done [] f m = absurd (ground arith)
  Follows-elem n done (x ∷ ns) f m = elim (Bool-cases (n == x)) [
    | inl e ↦ let r = is_ready-Ready job done x f.0 in rw ((==_iff n x).0 e) (r.node, r.movable)
    | inr e ↦ Follows-elem n (x ∷ done) ns f.1 (ground arith)
  ]

  Follows-ordered :
      IsWf job.ddg
      → (a b : ℕ) (done ns : List ℕ) → Follows job done ns
      → edge job.ddg a b ≡ true
      → elem b ns ≡ true
      → (elem a done ≡ true) ⊎ Before ns a b
  Follows-ordered w a b done [] f e m = absurd (ground arith)
  Follows-ordered w a b done (x ∷ ns) f e m = elim (Bool-cases (b == x)) [
    | inl here ↦
        let free = (is_ready-Ready job done x f.0).free in
        let same = (==_iff b x).0 here in
        inl (missing-elem a (preds job.ddg x) done free (rw (w.mirrored a x, ← same) e))
    | inr later ↦
        let m' : elem b ns ≡ true = ground arith in
        elim (Follows-ordered w a b (x ∷ done) ns f.1 e m') [
          | inl d ↦ elim (Bool-cases (a == x)) [
            | inl first ↦ inr (inl (sym ((==_iff a x).0 first), m'))
            | inr old ↦ inl (ground arith)
          ]
          | inr p ↦ inr (inr p)
        ]
  ]

  pub Follows-IsTopological :
      IsWf job.ddg → (ns : List ℕ) → Follows job [] ns → IsTopological job ns
  Follows-IsTopological w ns f = record {
    distinct = Follows-Distinct [] ns f;
    from_nodes = λ n m. (Follows-elem n [] ns f m).0;
    may_move = λ n m. (Follows-elem n [] ns f m).1;
    ordered = λ a b e m. elim (Follows-ordered w a b [] ns f e m) [
      | inl d ↦ absurd (ground arith)
      | inr p ↦ p
    ];
  }

  pub elem-all_done :
      (n : ℕ) (done ns : List ℕ) → elem n (all_done done ns) ≡ (elem n done || elem n ns)
  elem-all_done n done [] = ground arith
  elem-all_done n done (x ∷ ns) = ground (arith, elem-all_done n (x ∷ done) ns)

  -- A picked node waits for nothing that is blocked.
  pub not-Blocked :
      (ns : List ℕ) → IsTopological job ns → (n : ℕ) → Blocked job n → elem n ns ≡ true → ⊥
  not-Blocked ns t n (fixed _ h) m = let movable = t.may_move n m in cc
  not-Blocked ns t n (behind p _ e b) m =
      not-Blocked ns t p b (Before-elem p n ns (t.ordered p n e m))

  module _ (w : IsWf job.ddg) (forward : (a b : ℕ) → edge job.ddg a b ≡ true → a < b) where
    -- What is left when the queue is empty is blocked.
    pub left-Blocked :
        (done : List ℕ)
        → ((n : ℕ) → is_ready job done n ≡ false)
        → (k n : ℕ) → n < k
        → elem n job.ddg.nodes ≡ true
        → elem n done ≡ false
        → Blocked job n
    left-Blocked done idle zero n h m a = absurd (omega arith)
    left-Blocked done idle (suc k) n h m a = elim (Bool-cases (schedulable job n)) [
      | inr e ↦ fixed n e
      | inl e ↦
          let (p, before, undone) = missing-witness (preds job.ddg n) done (waits_some e) in
          let from_p = sym (w.mirrored p n) ∙ before in
          behind p n from_p (
            left-Blocked done idle k p (omega (arith, forward p n from_p))
              (w.closed_from p n from_p) undone)
    ]
      where
        waits_some : schedulable job n ≡ true → waits job done n ≢ 0
        waits_some e z = false≢true (sym (idle n) ∙ unready m e ((==_iff _ 0).1 z) a)
