-- ===== src/Ensure/Writes.antt =====
-- How the operations of one reconciliation extend the history of writes.
use kubernaut_operator.Base.{◌≡◌, All, ◌⊎◌, inl, inr, Bool, List, [], ◌∷◌}
use kubernaut_operator.Kube.Object.{Key, key_of}
use kubernaut_operator.Kube.Client.{Write, created, updated, deleted, stored}
use kubernaut_operator.Kubernaut.{Kubernaut}
use kubernaut_operator.Kube.Library.{Library}
use kubernaut_operator.Ownership.Contract.{IsAuthorized, HasMarker}

-- `after` is `before` with new writes in front, each of which `P` allows.
pub data Extends (P : Write → Type 0) (before : List Write) : List Write → Type 0 where
  same : Extends P before before
  more :
      {after : List Write} {w : Write} → P w → Extends P before after → Extends P before (w ∷ after)

pub Extends-trans :
    {P : Write → Type 0} {a b d : List Write} → Extends P a b → Extends P b d → Extends P a d
Extends-trans h same = h
Extends-trans h (more p t) = more p (Extends-trans h t)

-- Every new write is allowed.
pub Extends-All : {P : Write → Type 0} {b : List Write} → Extends P [] b → All P b
Extends-All same = tt
Extends-All (more p t) = (p, Extends-All t)

-- What `kn` may write: a new object with its marker, or an object with its marker in place of a
-- state that the contract authorizes.
abbrev pub Allowed : Library → Kubernaut → Write → Type 0
Allowed lib kn (created o) = HasMarker kn o
Allowed lib kn (updated old new) =
    ((controller_owned : Bool) × IsAuthorized lib.parse_group kn old controller_owned)
    × HasMarker kn new
Allowed lib kn (deleted old) = ⊥
Allowed lib kn (stored new) = ⊥

-- The removal of an object of that key, in a state that the contract authorizes.
abbrev pub Removal : Library → Kubernaut → Key → Write → Type 0
Removal lib kn k (created o) = ⊥
Removal lib kn k (updated old new) = ⊥
Removal lib kn k (deleted old) =
    ((controller_owned : Bool) × IsAuthorized lib.parse_group kn old controller_owned)
    × (key_of old ≡ k)
Removal lib kn k (stored new) = ⊥

-- What is allowed in one way is allowed in a wider one.
pub Extends-mono :
    {P Q : Write → Type 0} {a b : List Write}
    → ((w : Write) → P w → Q w)
    → Extends P a b
    → Extends Q a b
Extends-mono f same = same
Extends-mono f (more p t) = more (f _ p) (Extends-mono f t)

module _ {P : Write → Type 0} {before after : List Write} where
  pub Extends-eq : after ≡ before → Extends P before after
  Extends-eq e = rw e same

  pub Extends-one :
      {w : Write} → P w → (after ≡ before) ⊎ (after ≡ w ∷ before) → Extends P before after
  Extends-one p (inl e) = rw e same
  Extends-one p (inr e) = rw e (more p same)
