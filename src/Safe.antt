-- ===== src/Safe.antt =====
-- Safety of actions: from a state of the invariant an action returns, without a panic and with
-- enough fuel, and leaves a state of the invariant. One rule for each way to build an action.
use wiznet_rs.Prelude.{Bool, true, false, if◌then◌else◌}
use wiznet_rs.Exec.{
  continue, Error, Result, ok, err, panic, out_of_fuel, Exec, pure, raise, gets, ◌>>=◌, Returned,
}

pub record Safe {ℓ κ μ} {S : Type ℓ} {A : Type κ} (I : S → Type μ) (m : Exec S A)
    : Type (ℓ ⊔ μ) where
  pub at : (s : S) → I s → Returned (m s).0 × I (m s).1

module _ {ℓ κ μ} {S : Type ℓ} {A : Type κ} {I : S → Type μ} where
  pub Safe-pure : (a : A) → Safe I (pure a)
  Safe-pure a = record { at = λ s i. (tt, i) }

  pub Safe-raise : (e : Error) → Safe {A = A} I (raise e)
  Safe-raise e = record { at = λ s i. (tt, i) }

  pub Safe-gets : (f : S → A) → Safe I (gets f)
  Safe-gets f = record { at = λ s i. (tt, i) }

  pub Safe-if : (b : Bool) (m n : Exec S A) → Safe I m → Safe I n → Safe I (if b then m else n)
  Safe-if true m n km kn = km
  Safe-if false m n km kn = kn

module _ {ℓ κ ν μ} {S : Type ℓ} {A : Type κ} {B : Type ν} {I : S → Type μ} where
  Safe-continue :
      (r : Result A) (s : S) (f : A → Exec S B)
      → Returned r
      → I s
      → ((a : A) → Safe I (f a))
      → Returned (continue r f s).0 × I (continue r f s).1
  Safe-continue (ok a) s f h i k = (k a).at s i
  Safe-continue (err e) s f h i k = (tt, i)
  Safe-continue panic s f h i k = absurd h
  Safe-continue out_of_fuel s f h i k = absurd h

  pub Safe-bind :
      (m : Exec S A) (f : A → Exec S B) → Safe I m → ((a : A) → Safe I (f a)) → Safe I (m >>= f)
  Safe-bind m f km kf = record {
    at = λ s i. let (h, i') = km.at s i in Safe-continue (m s).0 (m s).1 f h i' kf;
  }

pub ruleset safe_rules = (Safe-pure, Safe-raise, Safe-gets, Safe-if, Safe-bind)

-- What holds of the value and the state when an action returns a value.
abbrev pub Post {ℓ κ μ} : {S : Type ℓ} {A : Type κ} → (A → S → Type μ) → Result A → S → Type μ
Post Q (ok a) s = Q a s
Post Q (err e) s = Unit
Post Q panic s = Unit
Post Q out_of_fuel s = Unit

module _ {ℓ κ ν μ} {S : Type ℓ} {A : Type κ} {B : Type ν} (P : A → S → Type μ)
    (Q : B → S → Type μ) where
  Post-continue :
      (r : Result A) (s : S) (f : A → Exec S B)
      → Post P r s
      → ((a : A) (s' : S) → P a s' → Post Q (f a s').0 (f a s').1)
      → Post Q (continue r f s).0 (continue r f s).1
  Post-continue (ok a) s f p k = k a s p
  Post-continue (err e) s f p k = tt
  Post-continue panic s f p k = tt
  Post-continue out_of_fuel s f p k = tt

  pub Post-bind :
      (m : Exec S A) (f : A → Exec S B) (s : S)
      → Post P (m s).0 (m s).1
      → ((a : A) (s' : S) → P a s' → Post Q (f a s').0 (f a s').1)
      → Post Q ((m >>= f) s).0 ((m >>= f) s).1
  Post-bind m f s p k = Post-continue (m s).0 (m s).1 f p k

module _ {ℓ κ μ} {S : Type ℓ} {A : Type κ} (Q : A → S → Type μ) where
  pub Post-if :
      (b : Bool) (m n : Exec S A) (s : S)
      → Post Q (m s).0 (m s).1
      → Post Q (n s).0 (n s).1
      → Post Q ((if b then m else n) s).0 ((if b then m else n) s).1
  Post-if true m n s p q = p
  Post-if false m n s p q = q

  -- The same of a state that the action's own is a part of.
  pub Post-lift :
      {T : Type ℓ} (g : T → S) (r : Result A) (c : T)
      → Post (λ a c'. Q a (g c')) r c
      → Post Q r (g c)
  Post-lift g (ok a) c p = p
  Post-lift g (err e) c p = tt
  Post-lift g panic c p = tt
  Post-lift g out_of_fuel c p = tt

  -- What holds of the state whatever the value is.
  pub Post-always : (r : Result A) (s : S) → ((a : A) → Q a s) → Post Q r s
  Post-always (ok a) s k = k a
  Post-always (err e) s k = tt
  Post-always panic s k = tt
  Post-always out_of_fuel s k = tt
