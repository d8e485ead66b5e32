-- ===== src/Dataflow/Flow.antt =====
-- Analyses that collect bits along edges: what a block generates, and what its neighbours hold and
-- the block does not kill.
use llvm_scheduling_reg_pres.Base.{
  ℕ, ◌≤◌, ◌≡◌, refl, ap, sym, subst, ◌∙◌, Bool, true, false, List, [], ◌⊎◌, inl, inr, arith, elem,
  length, update, ◌==◌, if◌then◌else◌, ==_iff, Bool-cases,
}
use llvm_scheduling_reg_pres.Ir.BitVec.{BitVec, test, zeros}
use llvm_scheduling_reg_pres.Ir.Subset.{
  SubBits, SubBits-refl, SubBits-trans, zeros-SubBits, length-zeros, test-zeros,
}

-- Bit `i` is generated in the block, or reaches it from a neighbour.
pub data Flows (next : ℕ → List ℕ) (gen kill : ℕ → ℕ → Bool) (i : ℕ) : ℕ → Type 0 where
  generated : (b : ℕ) → gen b i ≡ true → Flows next gen kill i b
  passed :
      (b n : ℕ)
      → elem n (next b) ≡ true
      → kill b i ≡ false
      → Flows next gen kill i n
      → Flows next gen kill i b

pub Flows-map :
    (order : List ℕ) (next : ℕ → List ℕ) (gen kill gen' kill' : ℕ → ℕ → Bool) (i : ℕ)
    → ((b n : ℕ) → elem b order ≡ true → elem n (next b) ≡ true → elem n order ≡ true)
    → ((b : ℕ) → elem b order ≡ true → gen b i ≡ gen' b i)
    → ((b : ℕ) → elem b order ≡ true → kill b i ≡ kill' b i)
    → (b : ℕ) → elem b order ≡ true
    → Flows next gen kill i b
    → Flows next gen' kill' i b
Flows-map order next gen kill gen' kill' i c g k b at (generated _ h) =
    generated b (sym (g b at) ∙ h)
Flows-map order next gen kill gen' kill' i c g k b at (passed _ n m h f) =
    passed b n m (sym (k b at) ∙ h)
      (Flows-map order next gen kill gen' kill' i c g k n (c b n at m) f)

module _ (order : List ℕ) (width : ℕ) (next : ℕ → List ℕ) (gen kill : ℕ → ℕ → Bool)
    (flow : ℕ → (ℕ → BitVec) → BitVec) where
  -- No vector is too long, and only the blocks in the order have one.
  pub record Fits (V : ℕ → BitVec) : Type 0 where
    pub narrow : (k : ℕ) → length (V k) ≤ width
    pub outside : (k : ℕ) → elem k order ≡ false → V k ≡ []

  -- The laws of the transfer function.
  pub record IsFlow : Type 0 where
    pub mono :
        (b : ℕ) (V W : ℕ → BitVec) → ((k : ℕ) → SubBits (V k) (W k)) → SubBits (flow b V) (flow b W)
    pub wide : (b : ℕ) (V : ℕ → BitVec) → elem b order ≡ true → Fits V → length (flow b V) ≡ width
    pub hit :
        (b i : ℕ) (V : ℕ → BitVec)
        → elem b order ≡ true
        → Fits V
        → test (flow b V) i ≡ true
        → (gen b i ≡ true)
          ⊎ ((n : ℕ) × (elem n (next b) ≡ true) × (test (V n) i ≡ true) × (kill b i ≡ false))
    pub gens :
        (b i : ℕ) (V : ℕ → BitVec) → elem b order ≡ true → gen b i ≡ true → test (flow b V) i ≡ true
    pub passes :
        (b n i : ℕ) (V : ℕ → BitVec)
        → elem b order ≡ true
        → Fits V
        → elem n (next b) ≡ true
        → test (V n) i ≡ true
        → kill b i ≡ false
        → test (flow b V) i ≡ true

  -- While the loop runs, vectors only grow, and never beyond what flows.
  pub record FlowInv (V : ℕ → BitVec) : Type 0 where
    pub fits : Fits V
    pub filled : (k : ℕ) → elem k order ≡ true → length (V k) ≡ width
    pub below : (k : ℕ) → elem k order ≡ true → SubBits (V k) (flow k V)
    pub sound : (k i : ℕ) → test (V k) i ≡ true → Flows next gen kill i k

  -- Before the first pass.
  abbrev pub Start : (ℕ → BitVec) → Type 0
  Start V = (k : ℕ) → V k ≡ (if elem k order then zeros width else [])

  Start-in : (V : ℕ → BitVec) → Start V → (k : ℕ) → elem k order ≡ true → V k ≡ zeros width
  Start-in V h k m = h k ∙ rw m refl

  Start-clear : (V : ℕ → BitVec) → Start V → (k i : ℕ) → test (V k) i ≡ false
  Start-clear V h k i = elim (Bool-cases (elem k order)) [
    | inl e ↦ rw (h k) (rw e (test-zeros width i))
    | inr e ↦ rw (h k) (rw e refl)
  ]

  Fits-Start : (V : ℕ → BitVec) → Start V → Fits V
  Fits-Start V h = record {
    narrow = λ k. elim (Bool-cases (elem k order)) [
      | inl e ↦ rw (h k) (rw e (omega (arith, length-zeros width)))
      | inr e ↦ rw (h k) (rw e (omega arith))
    ];
    outside = λ k out. h k ∙ rw out refl;
  }

  module _ (laws : IsFlow) where
    pub FlowInv-Start : (V : ℕ → BitVec) → Start V → FlowInv V
    FlowInv-Start V h =
        let fits = Fits-Start V h in
        record {
          fits = fits;
          filled = λ k m. ap length (Start-in V h k m) ∙ length-zeros width;
          below = λ k m.
              subst (λ v. SubBits v (flow k V)) (sym (Start-in V h k m))
                (zeros-SubBits width (flow k V) (laws.wide k V m fits));
          sound = λ k i t. absurd (let none_set = Start-clear V h k i in cc);
        }

    module _ (b : ℕ) (V : ℕ → BitVec) (at : elem b order ≡ true) (inv : FlowInv V) where
      abbrev pub grown : ℕ → BitVec
      grown = update V b (flow b V)

      pub grown-SubBits : (k : ℕ) → SubBits (V k) (grown k)
      grown-SubBits k = elim (Bool-cases (b == k)) [
        | inl e ↦
            let is = (==_iff b k).0 e in
            rw e (subst (λ j. SubBits (V j) (flow b V)) is (inv.below b at))
        | inr e ↦ rw e (SubBits-refl (V k))
      ]

      grown-Fits : Fits grown
      grown-Fits = record {
        narrow = λ k. elim (Bool-cases (b == k)) [
          | inl e ↦ rw e (omega (arith, laws.wide b V at inv.fits))
          | inr e ↦ rw e (inv.fits.narrow k)
        ];
        outside = λ k out. elim (Bool-cases (b == k)) [
          | inl e ↦ let same = ap (λ j. elem j order) ((==_iff b k).0 e) in absurd (cc)
          | inr e ↦ rw e (inv.fits.outside k out)
        ];
      }

      pub grown-FlowInv : FlowInv grown
      grown-FlowInv = record {
        fits = grown-Fits;
        filled = λ k m. elim (Bool-cases (b == k)) [
          | inl e ↦ rw e (laws.wide b V at inv.fits)
          | inr e ↦ rw e (inv.filled k m)
        ];
        below = λ k m. elim (Bool-cases (b == k)) [
          | inl e ↦
              let is = (==_iff b k).0 e in
              rw e (
                subst (λ j. SubBits (flow b V) (flow j grown)) is
                  (laws.mono b V grown grown-SubBits))
          | inr e ↦ rw e (
              SubBits-trans (V k) (flow k V) (flow k grown) (inv.below k m)
                (laws.mono k V grown grown-SubBits))
        ];
        sound = λ k i t. elim (Bool-cases (b == k)) [
          | inl e ↦
              let is = (==_iff b k).0 e in
              let here : test (flow b V) i ≡ true = rw e at t in
              subst (λ j. Flows next gen kill i j) is
                (elim (laws.hit b i V at inv.fits here) [
                  | inl g ↦ generated b g
                  | inr (n, m, v, free) ↦ passed b n m free (inv.sound n i v)
                ])
          | inr e ↦ inv.sound k i (rw e at t)
        ];
      }

    -- A state that no step changes holds all that flows.
    pub Flows-fixed :
        (V : ℕ → BitVec)
        → FlowInv V
        → ((k : ℕ) → elem k order ≡ true → V k ≡ flow k V)
        → ((k n : ℕ) → elem k order ≡ true → elem n (next k) ≡ true → elem n order ≡ true)
        → (i k : ℕ) → Flows next gen kill i k
        → elem k order ≡ true
        → test (V k) i ≡ true
    Flows-fixed V inv fixed closed i k (generated _ g) m = rw (fixed k m) (laws.gens k i V m g)
    Flows-fixed V inv fixed closed i k (passed _ n at free f) m = rw (fixed k m) (
        laws.passes k n i V m inv.fits at (Flows-fixed V inv fixed closed i n f (closed k n m at))
          free)
