-- ===== src/Base/Endings.antt =====
-- Where an action ends, and what a returned action has passed: one rule for each way to build an
-- action.
use mathlib.Core.Path.{◌≡◌, refl, subst, ap}
use mathlib.Core.Bool.{Bool, true, false}
use mathlib.Core.Option.{Option, none, some}
use dp_beget_bridge.Base.Results.{
  Result, ok, err, Action, pure, throw, lift, gets, require_some, settle, transaction, recover,
  modify, require, continue, ◌>>=◌,
}

-- Where an action ends, whether it returns or throws: one rule for each way to build an action.
pub record Ends {ℓ} {S E A : Type ℓ} (P : S → Type ℓ) (m : Action S E A) (s : S) : Type ℓ where
  pub at : P (m s).1

module _ {ℓ} {S E A : Type ℓ} {P : S → Type ℓ} where
  pub Ends-pure : (a : A) (s : S) → P s → Ends P (pure {E = E} a) s
  unfolding pure
  Ends-pure a s h = record { at = h }

  pub Ends-throw : (e : E) (s : S) → P s → Ends P (throw {A = A} e) s
  unfolding throw
  Ends-throw e s h = record { at = h }

  pub Ends-lift : (r : Result E A) (s : S) → P s → Ends P (lift r) s
  unfolding lift
  Ends-lift r s h = record { at = h }

  pub Ends-gets : (f : S → A) (s : S) → P s → Ends P (gets {E = E} f) s
  unfolding gets
  Ends-gets f s h = record { at = h }

  pub Ends-transaction :
      (handler : E → E) (body : Action S E A) (s : S)
      → P s
      → Ends P body s
      → Ends P (transaction handler body) s
  unfolding transaction
  Ends-transaction handler body s h k = record { at = go (body s) k.at }
    where
      go : (r : Result E A × S) → P r.1 → P (settle handler s r).1
      go (ok a, s') k' = k'
      go (err e, s') k' = h

  pub Ends-recover :
      (handler : Result E A → Result E A) (body : Action S E A) (s : S)
      → Ends P body s
      → Ends P (recover handler body) s
  unfolding recover
  Ends-recover handler body s k = record { at = k.at }

module _ {ℓ} {S E : Type ℓ} {P : S → Type ℓ} where
  pub Ends-modify : (f : S → S) (s : S) → P (f s) → Ends P (modify {E = E} f) s
  unfolding modify
  Ends-modify f s h = record { at = h }

  pub Ends-require : (b : Bool) (e : E) (s : S) → P s → Ends P (require b e) s
  unfolding require
  Ends-require true e s h = record { at = h }
  Ends-require false e s h = record { at = h }

module _ {ℓ} {S E A B : Type ℓ} {P : S → Type ℓ} (k : A → Action S E B) (s : S) where
  pub after-bind :
      (m : Action S E A)
      → Ends P m s
      → ((a : A) (s' : S) → m s ≡ (ok a, s') → P s' → Ends P (k a) s')
      → Ends P (m >>= k) s
  unfolding ◌>>=◌
  after-bind m h next = record { at = go (m s) refl }
    where
      go : (r : Result E A × S) → m s ≡ r → P (continue r.0 k r.1).1
      go (ok a, s') e = (next a s' e (subst (λ (x : Result E A × S). P x.1) e h.at)).at
      go (err x, s') e = subst (λ (x : Result E A × S). P x.1) e h.at

  pub after-lift :
      (r : Result E A) → P s → ((a : A) → r ≡ ok a → Ends P (k a) s) → Ends P (lift r >>= k) s
  unfolding ◌>>=◌
  after-lift (ok a) h next = record { at = (next a refl).at }
  after-lift (err e) h next = record { at = h }

  pub after-gets : (f : S → A) → Ends P (k (f s)) s → Ends P (gets {E = E} f >>= k) s
  unfolding ◌>>=◌
  after-gets f next = record { at = next.at }

  pub after-require_some :
      (o : Option A) (e : E)
      → P s
      → ((a : A) → o ≡ some a → Ends P (k a) s)
      → Ends P (require_some o e >>= k) s
  unfolding ◌>>=◌
  after-require_some (some a) e h next = record { at = (next a refl).at }
  after-require_some none e h next = record { at = h }

module _ {ℓ} {S E A B : Type ℓ} {P : S → Type ℓ} (k : A → Action S E B) (s : S) where
  -- a lookup that is known to find something
  pub after-require_some_found :
      (o : Option A) (e : E) (a : A)
      → o ≡ some a
      → Ends P (k a) s
      → Ends P (require_some o e >>= k) s
  unfolding ◌>>=◌
  after-require_some_found o e a found next = rw found (record { at = next.at })

module _ {ℓ} {S E B : Type ℓ} {P : S → Type ℓ} (k : Unit {ℓ} → Action S E B) (s : S) where
  -- a test that is known to pass
  pub after-require_passed :
      (b : Bool) (e : E) → b ≡ true → Ends P (k tt) s → Ends P (require b e >>= k) s
  unfolding ◌>>=◌
  after-require_passed b e passed next = rw passed (record { at = next.at })

  pub after-require :
      (b : Bool) (e : E) → P s → (b ≡ true → Ends P (k tt) s) → Ends P (require b e >>= k) s
  unfolding ◌>>=◌
  after-require true e h next = record { at = (next refl).at }
  after-require false e h next = record { at = h }

  pub after-modify : (f : S → S) → Ends P (k tt) (f s) → Ends P (modify {E = E} f >>= k) s
  unfolding ◌>>=◌
  after-modify f next = record { at = next.at }

-- a transaction that ends in `P` wherever its body returns
pub Ends-commit {ℓ} :
    {S E A : Type ℓ} {P : S → Type ℓ} (handler : E → E) (body : Action S E A) (s : S)
    → P s
    → ((a : A) (s' : S) → body s ≡ (ok a, s') → P s')
    → Ends P (transaction handler body) s
unfolding transaction
Ends-commit {S} {E} {A} {P} handler body s h next = record { at = go (body s) refl }
  where
    go : (r : Result E A × S) → body s ≡ r → P (settle handler s r).1
    go (ok a, s') e = next a s' e
    go (err e, s') _ = h

module _ {ℓ} {S E A B : Type ℓ} (k : A → Action S E B) (s : S) {b : B} {s' : S} where
  pub returned-bind :
      (m : Action S E A)
      → (m >>= k) s ≡ (ok b, s')
      → (a : A) × (t : S) × (m s ≡ (ok a, t)) × (k a t ≡ (ok b, s'))
  unfolding ◌>>=◌
  returned-bind m h = go (m s) refl h
    where
      go :
          (r : Result E A × S)
          → m s ≡ r
          → continue r.0 k r.1 ≡ (ok b, s')
          → (a : A) × (t : S) × (m s ≡ (ok a, t)) × (k a t ≡ (ok b, s'))
      go (ok a, t) e h' = (a, t, e, h')
      go (err x, t) e h' = cc

  pub returned-lift :
      (r : Result E A) → (lift r >>= k) s ≡ (ok b, s') → (a : A) × (r ≡ ok a) × (k a s ≡ (ok b, s'))
  unfolding ◌>>=◌
  returned-lift (ok a) h = (a, refl, h)
  returned-lift (err e) h = cc

  pub returned-gets : (f : S → A) → (gets {E = E} f >>= k) s ≡ (ok b, s') → k (f s) s ≡ (ok b, s')
  unfolding ◌>>=◌
  returned-gets f h = h

  pub returned-require_some :
      (o : Option A) (e : E)
      → (require_some o e >>= k) s ≡ (ok b, s')
      → (a : A) × (o ≡ some a) × (k a s ≡ (ok b, s'))
  unfolding ◌>>=◌
  returned-require_some (some a) e h = (a, refl, h)
  returned-require_some none e h = cc

module _ {ℓ} {S E B : Type ℓ} (k : Unit {ℓ} → Action S E B) (s : S) {b : B} {s' : S} where
  pub returned-require :
      (c : Bool) (e : E) → (require c e >>= k) s ≡ (ok b, s') → (c ≡ true) × (k tt s ≡ (ok b, s'))
  unfolding ◌>>=◌
  returned-require true e h = (refl, h)
  returned-require false e h = cc

  pub returned-modify :
      (f : S → S) → (modify {E = E} f >>= k) s ≡ (ok b, s') → k tt (f s) ≡ (ok b, s')
  unfolding ◌>>=◌
  returned-modify f h = h

pub returned-transaction {ℓ} :
    {S E A : Type ℓ} (handler : E → E) (body : Action S E A) (s : S) {a : A} {s' : S}
    → transaction handler body s ≡ (ok a, s')
    → body s ≡ (ok a, s')
unfolding transaction
returned-transaction {S} {E} {A} handler body s {a} {s'} h = go (body s) h
  where
    go : (r : Result E A × S) → settle handler s r ≡ (ok a, s') → r ≡ (ok a, s')
    go (ok x, t) e = e
    go (err x, t) e = cc

-- The last steps of an action that writes and returns a value.
pub returned-modify-pure {ℓ} :
    {S E A : Type ℓ} (f : S → S) (a : A) (s : S) {b : A} {s' : S}
    → (modify {E = E} f >>= λ _. pure a) s ≡ (ok b, s')
    → (b ≡ a) × (s' ≡ f s)
unfolding ◌>>=◌
returned-modify-pure f a s h = (cc, cc)

pub returned-gets_last {ℓ} :
    {S E A : Type ℓ} (f : S → A) (s : S) {b : A} {s' : S}
    → gets {E = E} f s ≡ (ok b, s')
    → (b ≡ f s) × (s' ≡ s)
unfolding gets
returned-gets_last f s h = (cc, cc)

-- An action that returns goes on with its value, and one that throws stops.
pub bind_ok {ℓ} :
    {S E A B : Type ℓ} (m : Action S E A) (k : A → Action S E B) (s : S) {a : A} {s' : S}
    → m s ≡ (ok a, s')
    → (m >>= k) s ≡ k a s'
unfolding ◌>>=◌
bind_ok m k s {a} {s'} h = ap (λ r. continue r.0 k r.1) h

pub bind_err {ℓ} :
    {S E A B : Type ℓ} (m : Action S E A) (k : A → Action S E B) (s : S) {e : E} {s' : S}
    → m s ≡ (err e, s')
    → (m >>= k) s ≡ (err e, s')
unfolding ◌>>=◌
bind_err m k s {e} {s'} h = ap (λ r. continue r.0 k r.1) h

-- A result is one.
pub returned_unique {ℓ} :
    {S E A : Type ℓ} {r : Result E A × S} {a b : A} {s t : S}
    → r ≡ (ok a, s)
    → r ≡ (ok b, t)
    → (a ≡ b) × (s ≡ t)
returned_unique h k = (cc, cc)
