-- ===== src/Auth/Scopes/Order.antt =====
-- The order in which `normalizeScopes` of packages/core/src/auth-store.js puts the scopes of a grant.
use text.Mathlib.TextEquality.{Char-path}
use Prim.Native.Char.{code}
use dp_beget_bridge.Base.{
  Bool-cases, codes, ℕ, String, ◌≡◌, refl, sym, ap, subst, ◌∙◌, inl, inr, true, false, ◌||◌, List,
  [], ◌∷◌, arith, ◌==◌, eq_iff, eq_refl,
}
use dp_beget_bridge.Auth.Scopes.{contains, dedupe, codes_le, insert_sorted, sort, normalize_scopes}
use dp_beget_bridge.Auth.Scopes.Laws.{contains-insert_sorted, IsDistinct, normalize_scopes_lem}

codes_le_total : (xs ys : List ℕ) → codes_le xs ys ≡ false → codes_le ys xs ≡ true
unfolding codes_le
codes_le_total [] ys h = ground arith
codes_le_total (x ∷ xs) [] h = refl
codes_le_total (x ∷ xs) (y ∷ ys) h = ground (arith, codes_le_total xs ys)

codes_le_antisym : (xs ys : List ℕ) → codes_le xs ys ≡ true → codes_le ys xs ≡ true → xs ≡ ys
unfolding codes_le
codes_le_antisym [] [] h k = refl
codes_le_antisym [] (y ∷ ys) h k = absurd (ground arith)
codes_le_antisym (x ∷ xs) [] h k = absurd (ground arith)
codes_le_antisym (x ∷ xs) (y ∷ ys) h k =
    let same : x ≡ y = ground arith in
    let rest : xs ≡ ys = codes_le_antisym xs ys (ground arith) (ground arith) in
    ap (λ a. a ∷ xs) same ∙ ap (λ zs. y ∷ zs) rest

codes_le_trans :
    (xs ys zs : List ℕ) → codes_le xs ys ≡ true → codes_le ys zs ≡ true → codes_le xs zs ≡ true
unfolding codes_le
codes_le_trans [] ys zs h k = refl
codes_le_trans (x ∷ xs) [] zs h k = absurd (ground arith)
codes_le_trans (x ∷ xs) (y ∷ ys) [] h k = absurd (ground arith)
codes_le_trans (x ∷ xs) (y ∷ ys) (z ∷ zs) h k = ground (arith, codes_le_trans xs ys zs)

-- A text is known by its code points.
codes_injective : (s t : String) → codes s ≡ codes t → s ≡ t
codes_injective String.[] String.[] h = refl
codes_injective String.[] (String.◌∷◌ d t) h = absurd (cc h)
codes_injective (String.◌∷◌ c s) String.[] h = absurd (cc h)
codes_injective (String.◌∷◌ c s) (String.◌∷◌ d t) h =
    let first : code c ≡ code d = cc h in
    let rest : codes s ≡ codes t = cc h in
    ap (λ x. String.◌∷◌ x s) (Char-path c d first)
    ∙ ap (λ x. String.◌∷◌ d x) (codes_injective s t rest)

-- In order: each text is at most all that follow it.
IsAscending : List String → Type 0
IsAscending [] = Unit
IsAscending (x ∷ xs) =
    ((s : String) → contains xs s ≡ true → codes_le (codes x) (codes s) ≡ true) × IsAscending xs

codes_le_refl : (xs : List ℕ) → codes_le xs xs ≡ true
unfolding codes_le
codes_le_refl [] = refl
codes_le_refl (x ∷ xs) = ground (arith, codes_le_refl xs)

-- What is at most a list's first text is at most every text of the list.
first_le :
    (z x : String) (xs : List String) (s : String)
    → codes_le (codes z) (codes x) ≡ true
    → ((s : String) → contains xs s ≡ true → codes_le (codes x) (codes s) ≡ true)
    → contains (x ∷ xs) s ≡ true
    → codes_le (codes z) (codes s) ≡ true
unfolding contains
first_le z x xs s le low h = elim (Bool-cases (x == s)) [
  | inl here ↦ subst (λ t. codes_le (codes z) (codes t) ≡ true) ((eq_iff x s).0 here) le
  | inr later ↦ codes_le_trans (codes z) (codes x) (codes s) le (low s (ground arith))
]

head_member : (x : String) (xs : List String) → contains (x ∷ xs) x ≡ true
unfolding contains
head_member x xs = ground (arith, eq_refl x)

inserted_le :
    (x y : String) (ys : List String) (s : String)
    → codes_le (codes x) (codes y) ≡ false
    → ((s : String) → contains ys s ≡ true → codes_le (codes y) (codes s) ≡ true)
    → contains (insert_sorted x ys) s ≡ true
    → codes_le (codes y) (codes s) ≡ true
inserted_le x y ys s after low h =
    let among : (x == s || contains ys s) ≡ true = sym (contains-insert_sorted x ys s) ∙ h in
    elim (Bool-cases (x == s)) [
      | inl here ↦
          subst (λ t. codes_le (codes y) (codes t) ≡ true) ((eq_iff x s).0 here)
            (codes_le_total (codes x) (codes y) after)
      | inr later ↦ low s (ground arith)
    ]

insert_sorted-IsAscending :
    (x : String) (xs : List String) → IsAscending xs → IsAscending (insert_sorted x xs)
unfolding IsAscending insert_sorted contains
insert_sorted-IsAscending x [] up = (λ s h. absurd (cc h), tt)
insert_sorted-IsAscending x (y ∷ ys) (low, up) = elim (Bool-cases (codes_le (codes x) (codes y))) [
  | inl first ↦ rw first (λ s. first_le x y ys s first low, (low, up))
  | inr after ↦
      rw after (λ s h. inserted_le x y ys s after low h, insert_sorted-IsAscending x ys up)
]

sort-IsAscending : (xs : List String) → IsAscending (sort xs)
unfolding IsAscending sort
sort-IsAscending [] = tt
sort-IsAscending (x ∷ xs) = insert_sorted-IsAscending x (sort xs) (sort-IsAscending xs)

rest_members :
    (x y : String) (xs ys : List String) (s : String)
    → x ≡ y
    → contains xs x ≡ false
    → contains ys y ≡ false
    → contains (x ∷ xs) s ≡ contains (y ∷ ys) s
    → contains xs s ≡ contains ys s
unfolding contains
rest_members x y xs ys s heads new new' same = ground (arith, eq_iff x s, eq_iff y s)

-- Lists in order without duplicates that have the same members are the same.
ascending_unique :
    (xs ys : List String)
    → IsAscending xs
    → IsAscending ys
    → IsDistinct xs
    → IsDistinct ys
    → ((s : String) → contains xs s ≡ contains ys s)
    → xs ≡ ys
unfolding IsAscending contains
ascending_unique [] [] up up' d d' same = refl
ascending_unique [] (y ∷ ys) up up' d d' same =
    absurd (let e = same y in ground (arith, eq_refl y, e))
ascending_unique (x ∷ xs) [] up up' d d' same =
    absurd (let e = same x in ground (arith, eq_refl x, e))
ascending_unique (x ∷ xs) (y ∷ ys) (low, up) (low', up') (new, d) (new', d') same =
    let heads : x ≡ y = codes_injective x y (
      codes_le_antisym (codes x) (codes y)
        (first_le x x xs y (codes_le_refl (codes x)) low (same y ∙ head_member y ys))
        (first_le y y ys x (codes_le_refl (codes y)) low' (sym (same x) ∙ head_member x xs))) in
    let members : (s : String) → contains xs s ≡ contains ys s =
      λ s. rest_members x y xs ys s heads new new' (same s) in
    ap (λ z. z ∷ xs) heads ∙ ap (λ zs. y ∷ zs) (ascending_unique xs ys up up' d d' members)

-- The normalised scopes do not depend on how the request writes them: two requests with the same scopes,
-- in any order and with any repetitions, are normalised to the same list.
pub normalize_scopes_canonical :
    (xs ys : List String)
    → ((s : String) → contains xs s ≡ contains ys s)
    → normalize_scopes xs ≡ normalize_scopes ys
unfolding normalize_scopes
normalize_scopes_canonical xs ys same =
    ascending_unique (normalize_scopes xs) (normalize_scopes ys) (sort-IsAscending (dedupe xs))
      (sort-IsAscending (dedupe ys)) (normalize_scopes_lem xs "").0 (normalize_scopes_lem ys "").0
      (λ s. (normalize_scopes_lem xs s).1 ∙ same s ∙ sym (normalize_scopes_lem ys s).1)
