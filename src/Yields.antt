-- ===== src/Yields.antt =====
-- What an action gives when it gives a value: a fact `P` of the value, from every state of an
-- invariant. One rule for each way to build an action.
use wiznet_rs.Prelude.{Bool, true, false, if◌then◌else◌}
use wiznet_rs.Exec.{
  continue, Error, Result, ok, err, panic, out_of_fuel, Exec, pure, raise, ◌>>=◌, Returned,
}
use wiznet_rs.Safe.{Safe}

abbrev pub Given {ℓ κ} : {A : Type ℓ} → (A → Type κ) → Result A → Type κ
Given P (ok a) = P a
Given P (err e) = Unit
Given P panic = Unit
Given P out_of_fuel = Unit

pub record Yields {ℓ κ μ ν} {S : Type ℓ} {A : Type κ} (I : S → Type μ) (P : A → Type ν)
    (m : Exec S A) : Type (ℓ ⊔ μ ⊔ ν) where
  pub at : (s : S) → I s → Given P (m s).0

module _ {ℓ κ μ ν} {S : Type ℓ} {A : Type κ} {I : S → Type μ} {P : A → Type ν} where
  pub Yields-pure : (a : A) → P a → Yields I P (pure a)
  Yields-pure a p = record { at = λ s i. p }

  pub Yields-raise : (e : Error) → Yields I P (raise e)
  Yields-raise e = record { at = λ s i. tt }

  pub Yields-if :
      (b : Bool) (m n : Exec S A) → Yields I P m → Yields I P n → Yields I P (if b then m else n)
  Yields-if true m n km kn = km
  Yields-if false m n km kn = kn

module _ {ℓ κ ρ μ ν} {S : Type ℓ} {A : Type κ} {B : Type ρ} {I : S → Type μ} {P : B → Type ν} where
  continue-Given :
      (r : Result A) (s : S) (f : A → Exec S B)
      → Returned r
      → I s
      → ((a : A) → Yields I P (f a))
      → Given P (continue r f s).0
  continue-Given (ok a) s f h i k = (k a).at s i
  continue-Given (err e) s f h i k = tt
  continue-Given panic s f h i k = tt
  continue-Given out_of_fuel s f h i k = tt

  pub Yields-bind :
      (m : Exec S A) (f : A → Exec S B)
      → Safe I m
      → ((a : A) → Yields I P (f a))
      → Yields I P (m >>= f)
  Yields-bind m f km kf = record {
    at = λ s i. let (h, i') = km.at s i in continue-Given (m s).0 (m s).1 f h i' kf;
  }

module _ {ℓ κ ρ μ ν ξ} {S : Type ℓ} {A : Type κ} {B : Type ρ} {I : S → Type μ} {P : B → Type ν}
    (Q : A → Type ξ) where
  known-Given :
      (r : Result A) (s : S) (f : A → Exec S B)
      → Given Q r
      → Returned r
      → I s
      → ((a : A) → Q a → Yields I P (f a))
      → Given P (continue r f s).0
  known-Given (ok a) s f q h i k = (k a q).at s i
  known-Given (err e) s f q h i k = tt
  known-Given panic s f q h i k = tt
  known-Given out_of_fuel s f q h i k = tt

  -- The fact may rest on one that the first action gives.
  pub Yields-known :
      (m : Exec S A) (f : A → Exec S B)
      → Safe I m
      → Yields I Q m
      → ((a : A) → Q a → Yields I P (f a))
      → Yields I P (m >>= f)
  Yields-known m f km q kf = record {
    at = λ s i. let (h, i') = km.at s i in known-Given (m s).0 (m s).1 f (q.at s i) h i' kf;
  }

-- The same from every state.
pub record Anyhow {ℓ κ ν} {S : Type ℓ} {A : Type κ} (P : A → Type ν) (m : Exec S A)
    : Type (ℓ ⊔ ν) where
  pub given : (s : S) → Given P (m s).0

module _ {ℓ κ ν} {S : Type ℓ} {A : Type κ} {P : A → Type ν} where
  pub Anyhow-pure : (a : A) → P a → Anyhow {S = S} P (pure a)
  Anyhow-pure a p = record { given = λ s. p }

  pub Anyhow-raise : (e : Error) → Anyhow {S = S} P (raise e)
  Anyhow-raise e = record { given = λ s. tt }

  pub Anyhow-if :
      (b : Bool) (m n : Exec S A) → Anyhow P m → Anyhow P n → Anyhow P (if b then m else n)
  Anyhow-if true m n km kn = km
  Anyhow-if false m n km kn = kn

module _ {ℓ κ ρ ν} {S : Type ℓ} {A : Type κ} {B : Type ρ} {P : B → Type ν} where
  continue-Anyhow :
      (r : Result A) (s : S) (f : A → Exec S B)
      → ((a : A) → Anyhow P (f a))
      → Given P (continue r f s).0
  continue-Anyhow (ok a) s f k = (k a).given s
  continue-Anyhow (err e) s f k = tt
  continue-Anyhow panic s f k = tt
  continue-Anyhow out_of_fuel s f k = tt

  pub Anyhow-bind :
      (m : Exec S A) (f : A → Exec S B) → ((a : A) → Anyhow P (f a)) → Anyhow P (m >>= f)
  Anyhow-bind m f k = record { given = λ s. continue-Anyhow (m s).0 (m s).1 f k }

module _ {ℓ κ ρ ν ξ} {S : Type ℓ} {A : Type κ} {B : Type ρ} {P : B → Type ν} (Q : A → Type ξ) where
  known-Anyhow :
      (r : Result A) (s : S) (f : A → Exec S B)
      → Given Q r
      → ((a : A) → Q a → Anyhow P (f a))
      → Given P (continue r f s).0
  known-Anyhow (ok a) s f q k = (k a q).given s
  known-Anyhow (err e) s f q k = tt
  known-Anyhow panic s f q k = tt
  known-Anyhow out_of_fuel s f q k = tt

  pub Anyhow-known :
      (m : Exec S A) (f : A → Exec S B)
      → Anyhow Q m
      → ((a : A) → Q a → Anyhow P (f a))
      → Anyhow P (m >>= f)
  Anyhow-known m f q k = record { given = λ s. known-Anyhow (m s).0 (m s).1 f (q.given s) k }

pub Anyhow-Yields {ℓ κ μ ν} :
    {S : Type ℓ} {A : Type κ} {I : S → Type μ} {P : A → Type ν} (m : Exec S A)
    → Anyhow P m
    → Yields I P m
Anyhow-Yields m k = record { at = λ s i. k.given s }
