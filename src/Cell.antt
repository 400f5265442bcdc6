-- ===== src/Cell.antt =====
-- wiznet-rs/src/atomic_cell.rs: a value behind a try-lock. A critical section runs between
-- `lock_mut` and the drop of its guard; another context that tries the lock meanwhile sees `busy`.
use wiznet_rs.Prelude.{Bool, true, false, if◌then◌else◌}
use wiznet_rs.Exec.{Result, ok, err, panic, out_of_fuel, would_block, Exec}

pub record AtomicCell {ℓ} (T : Type ℓ) : Type ℓ where
  pub cell : T
  pub busy : Bool

abbrev pub new {ℓ} : {T : Type ℓ} → T → AtomicCell T
new value = record { cell = value; busy = false }

module _ {ℓ} {T : Type ℓ} where
  -- `compare_exchange(false, true)`; a failure reaches the callers as `WouldBlock`
  unfoldable pub try_lock_internal : Exec (AtomicCell T) (Unit {0})
  try_lock_internal c = if c.busy then (err would_block, c) else (ok tt, record c { busy = true })

  -- `Drop` of a guard, which leaves `value` in the cell
  unfoldable pub drop_guard : T → AtomicCell T → AtomicCell T
  drop_guard value c = record c { cell = value; busy = false }

module _ {ℓ μ} {T : Type ℓ} {A : Type μ} where
  -- The scope of a guard: the body, if the lock was taken, and the drop.
  guarded : Exec T A → Result (Unit {0}) × AtomicCell T → Result A × AtomicCell T
  unfolding drop_guard
  guarded body (ok _, c) = let (r, value) = body c.cell in (r, drop_guard value c)
  guarded body (err x, c) = (err x, c)
  guarded body (panic, c) = (panic, c)
  guarded body (out_of_fuel, c) = (out_of_fuel, c)

  -- `let guard = cell.lock_mut()?; …` to the end of the guard's scope.
  unfoldable pub with_lock_mut : Exec T A → Exec (AtomicCell T) A
  unfolding guarded try_lock_internal
  with_lock_mut body c = guarded body (try_lock_internal c)

module _ {ℓ κ μ} {T : Type ℓ} {E : Type κ} {A : Type μ} where
  -- The same for a body that also changes `E`, what a closure in it has captured.
  guarded_env :
      Exec (T × E) A → E → Result (Unit {0}) × AtomicCell T → Result A × (AtomicCell T × E)
  unfolding drop_guard
  guarded_env body e (ok _, c) =
      let (r, (value, e')) = body (c.cell, e) in (r, (drop_guard value c, e'))
  guarded_env body e (err x, c) = (err x, (c, e))
  guarded_env body e (panic, c) = (panic, (c, e))
  guarded_env body e (out_of_fuel, c) = (out_of_fuel, (c, e))

  unfoldable pub with_lock_mut_env : Exec (T × E) A → Exec (AtomicCell T × E) A
  unfolding guarded_env try_lock_internal
  with_lock_mut_env body (c, e) = guarded_env body e (try_lock_internal c)
