-- ===== src/Base/Counts.antt =====
-- More on the number of rows that pass a test, and a predicate that holds of every row.
use Prim.Native.Nat.{◌+◌, ◌≤◌}
use mathlib.Core.Path.{◌≡◌, refl, subst}
use mathlib.Core.Logic.{inl, inr}
use mathlib.Core.Bool.{Bool, true, false, not, ◌&&◌}
use mathlib.Core.Option
use mathlib.Core.Option.{Option, none, some}
use mathlib.Core.List.{List, [], ◌∷◌, ◌++◌}
use native.Mathlib.Omega.{arith}
use dp_beget_bridge.Base.Tests.{if◌then◌else◌, Bool-cases, is_some}
use dp_beget_bridge.Base.Rows.{find, update, delete, count}

module _ {ℓ} {A : Type ℓ} where
  pub count_split :
      (p r : A → Bool) (xs : List A)
      → count p xs ≡ count (λ x. p x && not (r x)) xs + count (λ x. r x && p x) xs
  unfolding count
  count_split p r [] = refl
  count_split p r (x ∷ xs) = ground (arith, count_split p r xs)

  pub count_le_left : (p q : A → Bool) (xs : List A) → count (λ x. p x && q x) xs ≤ count p xs
  unfolding count
  count_le_left p q [] = omega arith
  count_le_left p q (x ∷ xs) = ground (arith, count_le_left p q xs)

  -- An update leaves a count alone if it does so on the rows that it changes.
  pub count-update_on :
      (p q : A → Bool) (f : A → A) (xs : List A)
      → ((x : A) → q x ≡ true → p (f x) ≡ p x)
      → count p (update q f xs) ≡ count p xs
  unfolding count update
  count-update_on p q f [] stable = refl
  count-update_on p q f (x ∷ xs) stable = ground (arith, stable x, count-update_on p q f xs stable)

  pub find-update_on :
      (p q : A → Bool) (f : A → A) (xs : List A)
      → ((x : A) → q x ≡ true → p (f x) ≡ p x)
      → is_some (find p (update q f xs)) ≡ is_some (find p xs)
  unfolding find update
  find-update_on p q f [] stable = refl
  find-update_on p q f (x ∷ xs) stable = ground (arith, stable x, find-update_on p q f xs stable)

  -- rows that are replaced by one row
  pub find-update_by :
      (p : A → Bool) (row : A) (xs : List A)
      → p row ≡ true
      → find p (update p (λ _. row) xs) ≡ Option.map (λ _. row) (find p xs)
  unfolding find update
  find-update_by p row [] hit = refl
  find-update_by p row (x ∷ xs) hit = ground (arith, find-update_by p row xs)

  pub find-update_off :
      (p q : A → Bool) (f : A → A) (xs : List A)
      → ((x : A) → q x ≡ true → p x ≡ false)
      → ((x : A) → q x ≡ true → p (f x) ≡ false)
      → find p (update q f xs) ≡ find p xs
  unfolding find update
  find-update_off p q f [] before after = refl
  find-update_off p q f (x ∷ xs) before after =
      ground (arith, before x, after x, find-update_off p q f xs before after)

  pub update_absent :
      (q : A → Bool) (f : A → A) (xs : List A) → find q xs ≡ none → update q f xs ≡ xs
  unfolding find update
  update_absent q f [] e = refl
  update_absent q f (x ∷ xs) e = ground (arith, update_absent q f xs)

  count-update_absent :
      (p q : A → Bool) (f : A → A) (xs : List A)
      → count q xs ≡ 0
      → count p (update q f xs) ≡ count (λ x. p x && not (q x)) xs
  unfolding count update
  count-update_absent p q f [] e = refl
  count-update_absent p q f (x ∷ xs) e = ground (arith, count-update_absent p q f xs)

  -- The rows that pass a test after an update of one row: the other rows that do, and the new row.
  pub count-update_one :
      (p q : A → Bool) (f : A → A) (xs : List A) (x : A)
      → count q xs ≤ 1
      → find q xs ≡ some x
      → count p (update q f xs) ≡ count (λ y. p y && not (q y)) xs + (if p (f x) then 1 else 0)
  unfolding count find update
  count-update_one p q f [] x one e = ground arith
  count-update_one p q f (y ∷ ys) x one e =
      ground (arith, count-update_one p q f ys x, count-update_absent p q f ys)

  -- An update that brings no row into a test does not raise its count.
  pub count-update-le :
      (p q : A → Bool) (f : A → A) (xs : List A)
      → ((x : A) → p (f x) ≡ true → p x ≡ true)
      → count p (update q f xs) ≤ count p xs
  unfolding count update
  count-update-le p q f [] shrinks = omega arith
  count-update-le p q f (x ∷ xs) shrinks =
      ground (arith, shrinks x, count-update-le p q f xs shrinks)

  pub count-delete-le : (p q : A → Bool) (xs : List A) → count p (delete q xs) ≤ count p xs
  unfolding count delete
  count-delete-le p q [] = omega arith
  count-delete-le p q (x ∷ xs) = ground (arith, count-delete-le p q xs)

  pub count-delete_self : (q : A → Bool) (xs : List A) → count q (delete q xs) ≡ 0
  unfolding count delete
  count-delete_self q [] = refl
  count-delete_self q (x ∷ xs) = ground (arith, count-delete_self q xs)

  pub find-delete_other :
      (p q : A → Bool) (xs : List A)
      → ((x : A) → p x ≡ true → q x ≡ false)
      → find p (delete q xs) ≡ find p xs
  unfolding find delete
  find-delete_other p q [] apart = refl
  find-delete_other p q (x ∷ xs) apart = ground (arith, apart x, find-delete_other p q xs apart)

module _ {ℓ κ} {A : Type ℓ} (P : A → Type κ) where
  abbrev pub All : List A → Type κ
  All [] = Unit
  All (x ∷ xs) = P x × All xs

  pub All-append : (xs : List A) (x : A) → All xs → P x → All (xs ++ x ∷ [])
  All-append [] x h p = (p, tt)
  All-append (y ∷ xs) x (q, h) p = (q, All-append xs x h p)

  pub All-update :
      (q : A → Bool) (f : A → A) (xs : List A)
      → ((x : A) → P x → P (f x))
      → All xs
      → All (update q f xs)
  unfolding update
  All-update q f [] keeps h = tt
  All-update q f (x ∷ xs) keeps (p, h) = elim (Bool-cases (q x)) [
    | inl e ↦ rw e (keeps x p, All-update q f xs keeps h)
    | inr e ↦ rw e (p, All-update q f xs keeps h)
  ]

  pub All-find : (p : A → Bool) (xs : List A) (x : A) → All xs → find p xs ≡ some x → P x
  unfolding find
  All-find p [] x h e = ground arith
  All-find p (y ∷ xs) x (q, h) e = elim (Bool-cases (p y)) [
    | inl hit ↦ let same : y ≡ x = ground arith in subst P same q
    | inr miss ↦ All-find p xs x h (ground arith)
  ]

module _ {ℓ κ μ} {A : Type ℓ} (P : A → Type κ) (Q : A → Type μ) where
  pub All-delete :
      (q : A → Bool) (xs : List A)
      → ((x : A) → q x ≡ false → P x → Q x)
      → All P xs
      → All Q (delete q xs)
  unfolding delete
  All-delete q [] keeps h = tt
  All-delete q (x ∷ xs) keeps (p, h) = elim (Bool-cases (q x)) [
    | inl gone ↦ rw gone (All-delete q xs keeps h)
    | inr stays ↦ rw stays (keeps x stays p, All-delete q xs keeps h)
  ]

  pub All-map : (xs : List A) → ((x : A) → P x → Q x) → All P xs → All Q xs
  All-map [] keeps h = tt
  All-map (x ∷ xs) keeps (p, h) = (keeps x p, All-map xs keeps h)
