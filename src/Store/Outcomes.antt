-- ===== src/Store/Outcomes.antt =====
-- What holds when an action returns, and what a transaction therefore keeps: a throw takes it back.
use truckmaster.Base.{◌≡◌, refl, Bool, true, false, Option, none, some}
use truckmaster.Store.Transaction.{
  Store, Action, Result, Failure, ok, err, or_throw, throw_if, when, commit,
  with_tenant_transaction, ◌>>=◌, ◌>>◌,
}

abbrev pub has_returned : {A : Type 0} → Result A → Bool
has_returned (ok a) = true
has_returned (err e) = false

abbrev pub After : {A : Type 0} → (A → Store → Type 0) → Result A × Store → Type 0
After Q (ok a, s) = Q a s
After Q (err e, s) = Unit

-- If the action returns, `Q` holds of its value and the store.
abbrev pub Returns : {A : Type 0} → (A → Store → Type 0) → Action A → Store → Type 0
Returns Q m s = After Q (m s)

module _ {A B : Type 0} (Q : B → Store → Type 0) where
  After-bind :
      (f : A → Action B) (x : Result A × Store)
      → After (λ a. Returns Q (f a)) x
      → After Q (elim x.0 [ ok a ↦ f a x.1 | err e ↦ (err e, x.1) ])
  After-bind f (ok a, s) h = h
  After-bind f (err e, s) h = tt

  pub Returns-bind :
      (m : Action A) (f : A → Action B) (s : Store)
      → Returns (λ a. Returns Q (f a)) m s
      → Returns Q (m >>= f) s
  Returns-bind m f s h = After-bind f (m s) h

  -- `if (!x) throw` goes on with the row that was found.
  pub Returns-found :
      (e : Failure) (row : Option A) (f : A → Action B) (s : Store)
      → ((a : A) → row ≡ some a → Returns Q (f a) s)
      → Returns Q (or_throw e row >>= f) s
  Returns-found e none f s h = tt
  Returns-found e (some a) f s h = h a refl

After-weaken :
    {A : Type 0} (Q R : A → Store → Type 0) (x : Result A × Store)
    → ((a : A) (t : Store) → Q a t → R a t)
    → After Q x
    → After R x
After-weaken Q R (ok a, s) weaker h = weaker a s h
After-weaken Q R (err e, s) weaker h = tt

module _ {B : Type 0} (Q : B → Store → Type 0) where
  pub Returns-unless :
      (b : Bool) (e : Failure) (m : Action B) (s : Store)
      → (b ≡ false → Returns Q m s)
      → Returns Q (throw_if b e >> m) s
  Returns-unless true e m s h = tt
  Returns-unless false e m s h = h refl

pub Returns-weaken :
    {A : Type 0} (Q R : A → Store → Type 0) (m : Action A) (s : Store)
    → ((a : A) (t : Store) → Q a t → R a t)
    → Returns Q m s
    → Returns R m s
Returns-weaken Q R m s weaker h = After-weaken Q R (m s) weaker h

pub Returns-passed :
    (Q : Unit {0} → Store → Type 0) (b : Bool) (e : Failure) (s : Store)
    → (b ≡ false → Q tt s)
    → Returns Q (throw_if b e) s
Returns-passed Q true e s h = tt
Returns-passed Q false e s h = h refl

pub Returns-when :
    (Q : Unit {0} → Store → Type 0) (b : Bool) (m : Action (Unit {0})) (s : Store)
    → Q tt s
    → Returns Q m s
    → Returns Q (when b m) s
Returns-when Q true m s skipped done = done
Returns-when Q false m s skipped done = skipped

module _ {A : Type 0} (P : Store → Type 0) where
  After-commit : (s : Store) (x : Result A × Store) → P s → After (λ a. P) x → P (commit s x).1
  After-commit s (ok a, t) before h = h
  After-commit s (err e, t) before h = before

  pub transaction-keeps :
      (m : Action A) (s : Store) → P s → Returns (λ a. P) m s → P (with_tenant_transaction m s).1
  unfolding with_tenant_transaction
  transaction-keeps m s before h = After-commit s (m s) before h
