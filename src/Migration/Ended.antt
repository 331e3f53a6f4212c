-- ===== src/Migration/Ended.antt =====
-- When a Job has ended (the loop of ensureMigrationJob over the conditions, in
-- internal/controller/kubernaut_controller.go).
use kubernaut_operator.Base.{
  String, ◌≡◌, ◌↔◌, refl, sym, ap, ◌∙◌, inl, inr, true, false, some, none, List, [], ◌∷◌, ◌++◌,
  ◌==◌, ◌&&◌, All, Bool-cases,
}
use kubernaut_operator.Kube.Object.{JobCondition}
use kubernaut_operator.Validation.Accept.{same, and_true}
use kubernaut_operator.Migration.{complete, failed_job, terminal}

-- The condition says that the Job has ended in this way.
abbrev pub Tells : String → JobCondition → Type 0
Tells type condition = (condition.type ≡ type) × (condition.status ≡ "True")

-- The condition says neither that the Job is complete nor that it failed.
abbrev pub IsOpen : JobCondition → Type 0
IsOpen condition = ¬ Tells "Complete" condition × ¬ Tells "Failed" condition

-- A condition says that the Job is complete, and none before it says that it has ended.
pub record HasSucceeded (conditions : List JobCondition) : Type 0 where
  pub before : List JobCondition
  pub condition : JobCondition
  pub after : List JobCondition
  pub split : conditions ≡ before ++ condition ∷ after
  pub told : Tells "Complete" condition
  pub open_before : All IsOpen before

told_iff :
    (type : String) (x : JobCondition)
    → (x.type == type && x.status == "True" ≡ true) ↔ Tells type x
told_iff type x = and_true (same x.type type) (same x.status "True")

not-Tells :
    (type : String) (x : JobCondition)
    → x.type == type && x.status == "True" ≡ false
    → ¬ Tells type x
not-Tells type x n told = let e : true ≡ false = sym ((told_iff type x).1 told) ∙ n in cc

pub terminal-HasSucceeded :
    (conditions : List JobCondition) → terminal conditions ≡ some complete → HasSucceeded conditions
unfolding terminal
terminal-HasSucceeded [] h = cc
terminal-HasSucceeded (x ∷ xs) h = elim (Bool-cases (x.type == "Complete" && x.status == "True")) [
  | inl y ↦ record {
    before = [];
    condition = x;
    after = xs;
    split = refl;
    told = (told_iff "Complete" x).0 y;
    open_before = tt;
  }
  | inr n ↦ elim (Bool-cases (x.type == "Failed" && x.status == "True")) [
    | inl y ↦ absurd (let e : some failed_job ≡ some complete = rw (n, y) at h in cc)
    | inr m ↦
        let rest = terminal-HasSucceeded xs (rw (n, m) at h) in
        record {
          before = x ∷ rest.before;
          condition = rest.condition;
          after = rest.after;
          split = ap (λ ys. x ∷ ys) rest.split;
          told = rest.told;
          open_before = ((not-Tells "Complete" x n, not-Tells "Failed" x m), rest.open_before);
        }
  ]
]

pub terminal-IsOpen :
    (conditions : List JobCondition) → terminal conditions ≡ none → All IsOpen conditions
unfolding terminal
terminal-IsOpen [] h = tt
terminal-IsOpen (x ∷ xs) h = elim (Bool-cases (x.type == "Complete" && x.status == "True")) [
  | inl y ↦ absurd (let e : some complete ≡ none = rw y at h in cc)
  | inr n ↦ elim (Bool-cases (x.type == "Failed" && x.status == "True")) [
    | inl y ↦ absurd (let e : some failed_job ≡ none = rw (n, y) at h in cc)
    | inr m ↦
        ((not-Tells "Complete" x n, not-Tells "Failed" x m), terminal-IsOpen xs (rw (n, m) at h))
  ]
]
