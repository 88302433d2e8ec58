-- ===== src/Base/Results.antt =====
-- Code that may throw, and code that also changes a state. What was written before a throw stays
-- written, so the state comes back beside the error too.
use mathlib.Core.Path.{◌≡◌, refl}
use mathlib.Core.Bool.{Bool, true, false}
use mathlib.Core.Option.{Option, none, some}

pub data Result {ℓ} (E A : Type ℓ) : Type ℓ where
  ok : A → Result E A
  err : E → Result E A

module _ {ℓ} {E A B : Type ℓ} where
  abbrev pub bind_result : Result E A → (A → Result E B) → Result E B
  bind_result (ok a) f = f a
  bind_result (err e) f = err e

  pub bind_result_ok :
      (r : Result E A) (f : A → Result E B) (b : B)
      → bind_result r f ≡ ok b
      → (a : A) × (r ≡ ok a) × (f a ≡ ok b)
  bind_result_ok (ok a) f b h = (a, refl, h)
  bind_result_ok (err e) f b h = absurd (cc h)

-- A method on a state `S`.
abbrev pub Action {ℓ} : Type ℓ → Type ℓ → Type ℓ → Type ℓ
Action S E A = S → Result E A × S

module _ {ℓ} {S E A : Type ℓ} where
  unfoldable pub pure : A → Action S E A
  pure a s = (ok a, s)

  unfoldable pub throw : E → Action S E A
  throw e s = (err e, s)

  unfoldable pub lift : Result E A → Action S E A
  lift r s = (r, s)

  unfoldable pub gets : (S → A) → Action S E A
  gets f s = (ok (f s), s)

  -- `if (!option) throw error`
  unfoldable pub require_some : Option A → E → Action S E A
  require_some (some a) e s = (ok a, s)
  require_some none e s = (err e, s)

  -- `try { BEGIN; body; COMMIT } catch (error) { ROLLBACK; throw handler(error) }`
  abbrev pub settle : (E → E) → S → Result E A × S → Result E A × S
  settle handler before (ok a, s) = (ok a, s)
  settle handler before (err e, s) = (err (handler e), before)

  unfoldable pub transaction : (E → E) → Action S E A → Action S E A
  transaction handler body s = settle handler s (body s)

  -- `try { body } catch (error) { … }` with no transaction: the writes of the body stay
  unfoldable pub recover : (Result E A → Result E A) → Action S E A → Action S E A
  recover handler body s = let r = body s in (handler r.0, r.1)

module _ {ℓ} {S E : Type ℓ} where
  unfoldable pub modify : (S → S) → Action S E (Unit {ℓ})
  modify f s = (ok tt, f s)

  -- `if (!test) throw error`
  unfoldable pub require : Bool → E → Action S E (Unit {ℓ})
  require true e s = (ok tt, s)
  require false e s = (err e, s)

module _ {ℓ} {S E A B : Type ℓ} where
  abbrev pub continue : Result E A → (A → Action S E B) → Action S E B
  continue (ok a) f s = f a s
  continue (err e) f s = (err e, s)

  infixl 10 ◌>>=◌
  -- opening this opens the other actions too
  unfoldable pub ◌>>=◌ : Action S E A → (A → Action S E B) → Action S E B
  unfolding pure throw lift gets require_some transaction recover modify require
  ◌>>=◌ m f s = let r = m s in continue r.0 f r.1

module _ {ℓ} {S E B : Type ℓ} where
  infixl 10 ◌>>◌
  abbrev pub ◌>>◌ : Action S E (Unit {ℓ}) → Action S E B → Action S E B
  m >> n = m >>= λ _. n
