-- ===== src/Exec.antt =====
-- wiznet-rs/src/error.rs, and the way a fallible function on `&self` or `&mut self` is modelled:
-- from a state to a result and the state that it leaves. What was written before an error stays
-- written.

pub data DriverError : Type 0 where
  spi_error pin_error scratch_buffer_overrun unexpected_response : DriverError

-- `nb::Error<DriverError>`
pub data Error : Type 0 where
  would_block : Error
  other : DriverError → Error

-- `panic` is an explicit panic, or a slice index out of range. `out_of_fuel` is no outcome of the
-- code: it marks a bounded loop of the model that was given too few rounds.
pub data Result {ℓ} (A : Type ℓ) : Type ℓ where
  ok : A → Result A
  err : Error → Result A
  panic : Result A
  out_of_fuel : Result A

abbrev pub Exec {ℓ κ} : Type ℓ → Type κ → Type (ℓ ⊔ κ)
Exec S A = S → Result A × S

module _ {ℓ κ} {S : Type ℓ} {A : Type κ} where
  abbrev pub pure : A → Exec S A
  pure a s = (ok a, s)

  abbrev pub raise : Error → Exec S A
  raise e s = (err e, s)

  -- The state is read, changed or replaced.
  abbrev pub gets : (S → A) → Exec S A
  gets f s = (ok (f s), s)

module _ {ℓ} {S : Type ℓ} where
  abbrev pub modify : (S → S) → Exec S (Unit {0})
  modify f s = (ok tt, f s)

  abbrev pub put : S → Exec S (Unit {0})
  put s' s = (ok tt, s')

module _ {ℓ κ μ} {S : Type ℓ} {A : Type κ} {B : Type μ} where
  abbrev pub continue : Result A → (A → Exec S B) → Exec S B
  continue (ok a) f s = f a s
  continue (err e) f s = (err e, s)
  continue panic f s = (panic, s)
  continue out_of_fuel f s = (out_of_fuel, s)

  infixl 5 ◌>>=◌ ◌>>◌
  -- the `?` operator
  abbrev pub ◌>>=◌ : Exec S A → (A → Exec S B) → Exec S B
  ◌>>=◌ m f s = let (r, s') = m s in continue r f s'

  abbrev pub ◌>>◌ : Exec S A → Exec S B → Exec S B
  m >> n = m >>= λ _. n

-- `Result::map`
abbrev pub map_ok {ℓ κ} : {A : Type ℓ} {B : Type κ} → (A → B) → Result A → Result B
map_ok f (ok a) = ok (f a)
map_ok f (err e) = err e
map_ok f panic = panic
map_ok f out_of_fuel = out_of_fuel

-- An outcome that the code can return to its caller.
abbrev pub Returned {ℓ} : {A : Type ℓ} → Result A → Type 0
Returned (ok a) = Unit
Returned (err e) = Unit
Returned panic = ⊥
Returned out_of_fuel = ⊥

-- An outcome of a tick: a value, or `WouldBlock`.
abbrev pub Quiet {ℓ} : {A : Type ℓ} → Result A → Type 0
Quiet (ok a) = Unit
Quiet (err would_block) = Unit
Quiet (err (other e)) = ⊥
Quiet panic = ⊥
Quiet out_of_fuel = ⊥
