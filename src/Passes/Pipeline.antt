-- ===== src/Passes/Pipeline.antt =====
-- src/schedulerPass.cpp: the callback that parses the name of a pass in a pipeline.
use mathlib.Core.Path.{◌≡◌, refl, sym, ap, ◌∙◌}
use mathlib.Core.Logic.{◌≢◌, ◌⊎◌, ◌↔◌, inl, inr}
use mathlib.Core.Bool.{Bool, true, false, false≢true}
use mathlib.Core.List.{List, [], ◌∷◌, ◌++◌}
use Prim.Native.String.{String}
use text.Mathlib.Text.{◌==◌}
use text.Mathlib.TextEquality.{eq_iff}
use llvm_scheduling_reg_pres.Base.{if◌then◌else◌, Bool-cases}

-- The passes that the plugin adds; the global one has usePressure.
pub data Pass : Type 0 where
  global_pass : (use_pressure : Bool) → Pass
  local_pass : Pass

-- The callback on the pass manager's list: what it returns, and the list.
unfoldable pub parse_pass : String → List Pass → Bool × List Pass
parse_pass name fpm =
    if name == "globalSchedulerPass"
    then (true, fpm ++ global_pass true ∷ [])
    else if name == "localSchedulerPass"
    then (true, fpm ++ local_pass ∷ [])
    else if name == "globalSchedulerPassNoPressure"
    then (true, fpm ++ global_pass false ∷ [])
    else (false, fpm)

-- The name of a pass on the command line.
abbrev pub name_of : Pass → String
name_of (global_pass true) = "globalSchedulerPass"
name_of (global_pass false) = "globalSchedulerPassNoPressure"
name_of local_pass = "localSchedulerPass"

abbrev pass_at : String → Pass
pass_at name =
    if name == "globalSchedulerPass"
    then global_pass true
    else if name == "localSchedulerPass"
    then local_pass
    else global_pass false

pass_at-name_of : (p : Pass) → pass_at (name_of p) ≡ p
pass_at-name_of (global_pass true) = refl
pass_at-name_of (global_pass false) = refl
pass_at-name_of local_pass = refl

-- Three different names.
name_of_injective : (p q : Pass) → name_of p ≡ name_of q → p ≡ q
name_of_injective p q e = sym (pass_at-name_of p) ∙ ap pass_at e ∙ pass_at-name_of q

last_or : Pass → List Pass → Pass
last_or q [] = q
last_or q (p ∷ ps) = last_or p ps

last_or-append : (q p : Pass) (ps : List Pass) → last_or q (ps ++ p ∷ []) ≡ p
unfolding last_or
last_or-append q p [] = refl
last_or-append q p (r ∷ ps) = last_or-append r p ps

-- What the callback adds, if it adds something.
added :
    (fpm : List Pass) (p q : Pass)
    → ◌≡◌ {A = Bool × List Pass} (true, fpm ++ p ∷ []) (true, fpm ++ q ∷ [])
    → p ≡ q
added fpm p q e =
    sym (last_or-append p p fpm)
    ∙ ap (λ (r : Bool × List Pass). last_or p r.1) e
    ∙ last_or-append p q fpm

unknown :
    (name : String)
    → (name == "globalSchedulerPass") ≡ false
    → (name == "localSchedulerPass") ≡ false
    → (name == "globalSchedulerPassNoPressure") ≡ false
    → (p : Pass) → name ≢ name_of p
unknown name e g h (global_pass true) q =
    false≢true (sym e ∙ (eq_iff name "globalSchedulerPass").1 q)
unknown name e g h (global_pass false) q =
    false≢true (sym h ∙ (eq_iff name "globalSchedulerPassNoPressure").1 q)
unknown name e g h local_pass q = false≢true (sym g ∙ (eq_iff name "localSchedulerPass").1 q)

parse_pass_found :
    (name : String) (fpm : List Pass)
    → ((p : Pass) × (name ≡ name_of p) × (parse_pass name fpm ≡ (true, fpm ++ p ∷ [])))
      ⊎ (((p : Pass) → name ≢ name_of p) × (parse_pass name fpm ≡ (false, fpm)))
unfolding parse_pass
parse_pass_found name fpm = elim (Bool-cases (name == "globalSchedulerPass")) [
  | inl e ↦ inl (global_pass true, (eq_iff name "globalSchedulerPass").0 e, rw e refl)
  | inr e ↦ elim (Bool-cases (name == "localSchedulerPass")) [
    | inl g ↦ inl (local_pass, (eq_iff name "localSchedulerPass").0 g, rw (e, g) refl)
    | inr g ↦ elim (Bool-cases (name == "globalSchedulerPassNoPressure")) [
      | inl h ↦
          inl (
            global_pass false,
            (eq_iff name "globalSchedulerPassNoPressure").0 h,
            rw (e, g, h) refl,
          )
      | inr h ↦ inr (unknown name e g h, rw (e, g, h) refl)
    ]
  ]
]

-- The callback adds a pass exactly for the name of that pass. For a name that is none of the three it
-- answers false and adds nothing.
pub parse_pass-name_of :
    (name : String) (fpm : List Pass)
    → ((p : Pass) → (parse_pass name fpm ≡ (true, fpm ++ p ∷ [])) ↔ (name ≡ name_of p))
      × (((p : Pass) → name ≢ name_of p) → parse_pass name fpm ≡ (false, fpm))
parse_pass-name_of name fpm = elim (parse_pass_found name fpm) [
  | inl (p, is, found) ↦ (
    λ q. (
      λ e. is ∙ ap name_of (added fpm p q (sym found ∙ e)),
      λ e.
          let same = name_of_injective p q (sym is ∙ e) in
          found ∙ ap (λ r. (true, fpm ++ r ∷ [])) same,
    ),
    λ none_is. absurd (none_is p is),
  )
  | inr (none_is, refused) ↦ (
    λ q. (λ e. absurd (false≢true (ap (λ r. r.0) (sym refused ∙ e))), λ e. absurd (none_is q e)),
    λ _. refused,
  )
]
