-- ===== src/Validation/Checks.antt =====
-- The steps that the validations are made of (internal/resources/validation.go): a list of errors
-- that grows by `append`. A text names the field and the rule; the rejected value that the code
-- formats into it is left out.
use kubernaut_operator.Base.{
  String, ◌≢◌, Bool, true, false, Option, none, some, List, [], ◌∷◌, ◌++◌,
}
use kubernaut_operator.Kube.Op.{Error, message}

-- `base + ".field"`
unfoldable pub at : String → String → String
at base field = Prim.Native.String.◌++◌ base field

-- `fmt.Errorf("%s: ...", path)`
unfoldable pub issue : String → String → Error
issue path rule = message (Prim.Native.String.◌++◌ path (Prim.Native.String.◌++◌ ": " rule))

-- `if b { errs = append(errs, e) }`
unfoldable pub report : Bool → Error → List Error
report true e = e ∷ []
report false e = []

-- `if b { errs = append(errs, f()...) }`
unfoldable pub only : Bool → List Error → List Error
only true errors = errors
only false errors = []

-- `if b { return errs }`, and what follows
unfoldable pub unless : Bool → List Error → List Error
unless true errors = []
unless false errors = errors

-- `if err := f(); err != nil { errs = append(errs, err) }`
unfoldable pub to_list : Option Error → List Error
to_list none = []
to_list (some e) = e ∷ []

-- `if b { return e }`, and what follows
unfoldable pub first : Bool → Error → Option Error → Option Error
first true e next = some e
first false e next = next

-- `append(xs, ys...)`
infixl 64 ◌+++◌
unfoldable pub ◌+++◌ : List Error → List Error → List Error
xs +++ ys = xs ++ ys

-- `if err := f(); err != nil { return err }`, and what follows
abbrev pub and_then : Option Error → Option Error → Option Error
and_then none next = next
and_then (some e) next = some e

module _ {A : Type 0} where
  -- `for _, x := range xs { if err := f(x); err != nil { return err } }`
  unfoldable pub first_of : (A → Option Error) → List A → Option Error
  first_of f [] = none
  first_of f (x ∷ xs) = and_then (f x) (first_of f xs)

  -- `if p == nil { return nil }`, and what follows
  unfoldable pub when_given : Option A → (A → List Error) → List Error
  when_given none f = []
  when_given (some a) f = f a

  -- `for _, x := range xs { errs = append(errs, f(x)...) }`
  unfoldable pub for_each : (A → List Error) → List A → List Error
  for_each f [] = []
  for_each f (x ∷ xs) = f x +++ for_each f xs

  -- `err != nil || f(parsed)`
  unfoldable pub fails : Option A → (A → Bool) → Bool
  fails none f = true
  fails (some a) f = f a

  -- The parse succeeds, and its value satisfies P.
  abbrev pub Parses : (A → Type 0) → Option A → Type 0
  Parses P none = ⊥
  Parses P (some a) = P a

  -- What an optional block has to satisfy.
  abbrev pub Given : (A → Type 0) → Option A → Type 0
  Given P none = Unit
  Given P (some a) = P a

-- A conjunction that nests as `+++` does.
infixl 2 ◌&◌
abbrev pub ◌&◌ : Type 0 → Type 0 → Type 0
P & Q = P × Q

abbrev pub IsPresent : String → Type 0
IsPresent x = x ≢ ""

-- What a text that may be left out has to satisfy.
abbrev pub IfSet : (String → Type 0) → String → Type 0
IfSet P x = IsPresent x → P x
