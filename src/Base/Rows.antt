-- ===== src/Base/Rows.antt =====
-- Tables as lists of rows: the statements `SELECT … WHERE`, `UPDATE … WHERE`, `DELETE … WHERE` and
-- the number of rows that a statement changes.
use Prim.Native.Nat.{ℕ, suc, ◌+◌, ◌≤◌}
use mathlib.Core.Path.{◌≡◌, refl, subst, ap}
use mathlib.Core.Logic.{inl, inr}
use Prim.Native.String.{String}
use text.Mathlib.Text.{◌==◌}
use text.Mathlib.TextEquality.{eq_iff}
use text.Mathlib.TextPositions.{eq_refl}
use mathlib.Core.Bool.{Bool, true, ◌&&◌}
use mathlib.Core.Option
use mathlib.Core.Option.{Option, none, some, some-injective, none-ne-some}
use mathlib.Core.List.{List, [], ◌∷◌, ◌++◌}
use native.Mathlib.Omega.{arith}
use dp_beget_bridge.Base.Tests.{if◌then◌else◌, Bool-cases}
use dp_beget_bridge.Base.Text.{any, length}

module _ {ℓ} {A : Type ℓ} where
  -- the first row
  unfoldable pub find : (A → Bool) → List A → Option A
  find p [] = none
  find p (x ∷ xs) = if p x then some x else find p xs

  abbrev pub amend : (A → Bool) → (A → A) → A → A
  amend q f x = if q x then f x else x

  unfoldable pub update : (A → Bool) → (A → A) → List A → List A
  update q f [] = []
  update q f (x ∷ xs) = amend q f x ∷ update q f xs

  unfoldable pub delete : (A → Bool) → List A → List A
  delete q [] = []
  delete q (x ∷ xs) = let rest = delete q xs in if q x then rest else x ∷ rest

  unfoldable pub count : (A → Bool) → List A → ℕ
  count p [] = 0
  count p (x ∷ xs) = (if p x then 1 else 0) + count p xs

  abbrev pub or_row : (A → Bool) → A → Option A → Option A
  or_row p x (some y) = some y
  or_row p x none = if p x then some x else none

  pub find_sound : (p : A → Bool) (xs : List A) (x : A) → find p xs ≡ some x → p x ≡ true
  unfolding find
  find_sound p [] x h = ground arith
  find_sound p (y ∷ xs) x h = ground (arith, find_sound p xs x)

  pub find-update :
      (p q : A → Bool) (f : A → A) (xs : List A)
      → ((x : A) → p (f x) ≡ p x)
      → find p (update q f xs) ≡ Option.map (amend q f) (find p xs)
  unfolding find update
  find-update p q f [] stable = refl
  find-update p q f (x ∷ xs) stable = ground (arith, stable x, find-update p q f xs stable)

  pub find-append :
      (p : A → Bool) (xs : List A) (x : A) → find p (xs ++ x ∷ []) ≡ or_row p x (find p xs)
  unfolding find
  find-append p [] x = refl
  find-append p (y ∷ xs) x = ground (arith, find-append p xs x)

  pub count-update :
      (p q : A → Bool) (f : A → A) (xs : List A)
      → ((x : A) → p (f x) ≡ p x)
      → count p (update q f xs) ≡ count p xs
  unfolding count update
  count-update p q f [] stable = refl
  count-update p q f (x ∷ xs) stable = ground (arith, stable x, count-update p q f xs stable)

  pub count-append :
      (p : A → Bool) (xs : List A) (x : A)
      → count p (xs ++ x ∷ []) ≡ count p xs + (if p x then 1 else 0)
  unfolding count
  count-append p [] x = ground arith
  count-append p (y ∷ xs) x = ground (arith, count-append p xs x)

  pub count-eq-zero : (p : A → Bool) (xs : List A) → find p xs ≡ none → count p xs ≡ 0
  unfolding count find
  count-eq-zero p [] h = refl
  count-eq-zero p (x ∷ xs) h = ground (arith, count-eq-zero p xs)

  pub find-eq-none : (p : A → Bool) (xs : List A) → count p xs ≡ 0 → find p xs ≡ none
  unfolding count find
  find-eq-none p [] h = refl
  find-eq-none p (x ∷ xs) h = ground (arith, find-eq-none p xs)

  pub count-pos : (p : A → Bool) (xs : List A) (x : A) → find p xs ≡ some x → 1 ≤ count p xs
  unfolding count find
  count-pos p [] x h = ground arith
  count-pos p (y ∷ xs) x h = ground (arith, count-pos p xs x)

  pub count-and-le : (p q : A → Bool) (xs : List A) → count (λ x. p x && q x) xs ≤ count p xs
  unfolding count
  count-and-le p q [] = omega arith
  count-and-le p q (x ∷ xs) = ground (arith, count-and-le p q xs)

  -- A statement on a unique key changes one row exactly when the row passes the rest of its test.
  pub count-and :
      (p q : A → Bool) (xs : List A) (x : A)
      → count p xs ≤ 1
      → find p xs ≡ some x
      → count (λ y. p y && q y) xs ≡ (if q x then 1 else 0)
  unfolding count find
  count-and p q [] x h e = ground arith
  count-and p q (y ∷ xs) x h e = ground (arith, count-and p q xs x, count-and-le p q xs)

module _ {ℓ} {A : Type ℓ} where
  pub any-find :
      (p r : A → Bool) (xs : List A) (x : A)
      → find p xs ≡ some x
      → r x ≡ true
      → any (λ y. p y && r y) xs ≡ true
  unfolding find
  any-find p r [] x h e = ground arith
  any-find p r (y ∷ xs) x h e = ground (arith, any-find p r xs x)

module _ {ℓ} {A : Type ℓ} where
  pub map-eq-some :
      (f : A → A) (o : Option A) {b : A}
      → Option.map f o ≡ some b
      → (a : A) × (o ≡ some a) × (f a ≡ b)
  map-eq-some f none h = absurd (none-ne-some _ h)
  map-eq-some f (some a) h = (a, refl, some-injective _ _ h)

module _ {ℓ} {A : Type ℓ} where
  pub count-pos_of :
      (p q : A → Bool) (xs : List A) (x : A) → find q xs ≡ some x → p x ≡ true → 1 ≤ count p xs
  unfolding find count
  count-pos_of p q [] x h e = ground arith
  count-pos_of p q (y ∷ xs) x h e = ground (arith, count-pos_of p q xs x)

  -- Two lookups meet in one row where a test that both pass is unique.
  pub find_unique :
      (p q r : A → Bool) (xs : List A) (x y : A)
      → count p xs ≤ 1
      → find q xs ≡ some x
      → find r xs ≡ some y
      → p x ≡ true
      → p y ≡ true
      → x ≡ y
  unfolding find count
  find_unique p q r [] x y h a b c d = ground arith
  find_unique p q r (z ∷ xs) x y h a b c d =
      ground (arith, find_unique p q r xs x y, count-pos_of p q xs x, count-pos_of p r xs y)

module _ {ℓ} {A : Type ℓ} (key : A → String) where
  -- A fresh row keeps a key unique.
  pub unique_append :
      (xs : List A) (x : A)
      → ((k : String) → count (λ y. key y == k) xs ≤ 1)
      → find (λ y. key y == key x) xs ≡ none
      → (k : String) → count (λ y. key y == k) (xs ++ x ∷ []) ≤ 1
  unique_append xs x unique fresh k =
      rw (count-append (λ y. key y == k) xs x) (elim (Bool-cases (key x == k)) [
        | inl same ↦
            let e : key x ≡ k = (eq_iff (key x) k).0 same in
            rw same (
              omega (
                arith,
                count-eq-zero (λ y. key y == k) xs
                    (subst (λ j. find (λ y. key y == j) xs ≡ none) e fresh),
              ))
        | inr other ↦ rw other (omega (arith, unique k))
      ])

module _ {ℓ} {A : Type ℓ} where
  pub length-update : (q : A → Bool) (f : A → A) (xs : List A) → length (update q f xs) ≡ length xs
  unfolding update
  length-update q f [] = refl
  length-update q f (x ∷ xs) = ap suc (length-update q f xs)

module _ {ℓ} {A : Type ℓ} (key : A → String) where
  -- With a unique key, a row is what a lookup of its key finds.
  pub find_by_key :
      (p : A → Bool) (xs : List A) (x : A)
      → find p xs ≡ some x
      → count (λ y. key y == key x) xs ≤ 1
      → find (λ y. key y == key x) xs ≡ some x
  unfolding find count
  find_by_key p [] x h one = absurd (none-ne-some _ h)
  find_by_key p (y ∷ ys) x h one =
      ground (arith, eq_refl (key x), find_by_key p ys x, count-pos_of (λ z. key z == key x) p ys x)
