-- ===== src/Auth/Scopes/Laws.antt =====
-- The scopes of a grant: no duplicates, in order, and the same members as the request.
use dp_beget_bridge.Base.{
  Bool-cases, codes, String, ◌≡◌, refl, ◌∙◌, inl, inr, true, false, not, ◌&&◌, ◌||◌, List, [], ◌∷◌,
  arith, ◌==◌, eq_iff, eq_refl,
}
use dp_beget_bridge.Auth.Scopes.{
  contains, dedupe_after, dedupe, codes_le, insert_sorted, sort, normalize_scopes, scopes_ok,
}

pub contains-insert_sorted :
    (x : String) (xs : List String) (s : String)
    → contains (insert_sorted x xs) s ≡ ((x == s) || contains xs s)
unfolding contains insert_sorted
contains-insert_sorted x [] s = refl
contains-insert_sorted x (y ∷ ys) s = ground (arith, contains-insert_sorted x ys s)

pub contains-sort : (xs : List String) (s : String) → contains (sort xs) s ≡ contains xs s
unfolding contains sort
contains-sort [] s = refl
contains-sort (x ∷ xs) s = rw (contains-insert_sorted x (sort xs) s) (rw (contains-sort xs s) refl)

-- A scope that was seen is not kept again, and any other member is.
contains-dedupe_after :
    (seen xs : List String) (s : String)
    → contains (dedupe_after seen xs) s ≡ (contains xs s && not (contains seen s))
unfolding contains dedupe_after
contains-dedupe_after seen [] s = refl
contains-dedupe_after seen (x ∷ xs) s =
    ground
      (arith, eq_iff x s, contains-dedupe_after seen xs s, contains-dedupe_after (x ∷ seen) xs s)

-- No text stands in the list twice.
abbrev pub IsDistinct : List String → Type 0
IsDistinct [] = Unit
IsDistinct (x ∷ xs) = (contains xs x ≡ false) × IsDistinct xs

dedupe_after-IsDistinct : (seen xs : List String) → IsDistinct (dedupe_after seen xs)
unfolding dedupe_after
dedupe_after-IsDistinct seen [] = tt
dedupe_after-IsDistinct seen (x ∷ xs) = elim (Bool-cases (contains seen x)) [
  | inl old ↦ rw old (dedupe_after-IsDistinct seen xs)
  | inr new ↦ rw new (
    contains-dedupe_after (x ∷ seen) xs x ∙ unfold contains in ground (arith, eq_refl x),
    dedupe_after-IsDistinct (x ∷ seen) xs,
  )
]

insert_sorted-IsDistinct :
    (x : String) (xs : List String)
    → contains xs x ≡ false
    → IsDistinct xs
    → IsDistinct (insert_sorted x xs)
unfolding insert_sorted contains
insert_sorted-IsDistinct x [] new d = (refl, tt)
insert_sorted-IsDistinct x (y ∷ ys) new (here, later) =
    elim (Bool-cases (codes_le (codes x) (codes y))) [
      | inl first ↦ rw first (new, (here, later))
      | inr after ↦ rw after (
        contains-insert_sorted x ys y ∙ ground (arith, eq_iff x y, eq_iff y x),
        insert_sorted-IsDistinct x ys (ground arith) later,
      )
    ]

pub sort-IsDistinct : (xs : List String) → IsDistinct xs → IsDistinct (sort xs)
unfolding sort
sort-IsDistinct [] d = tt
sort-IsDistinct (x ∷ xs) (new, d) =
    insert_sorted-IsDistinct x (sort xs) (contains-sort xs x ∙ new) (sort-IsDistinct xs d)

-- The normalised scopes have no duplicates, and a scope is among them exactly if it was requested.
pub normalize_scopes_lem :
    (xs : List String) (s : String)
    → IsDistinct (normalize_scopes xs) × (contains (normalize_scopes xs) s ≡ contains xs s)
unfolding normalize_scopes dedupe
normalize_scopes_lem xs s = (
  sort-IsDistinct (dedupe_after [] xs) (dedupe_after-IsDistinct [] xs),
  contains-sort (dedupe_after [] xs) s
      ∙ contains-dedupe_after [] xs s
      ∙ unfold contains in ground arith,
)

-- Every scope that passes the test is one of the supported scopes.
pub scopes_ok_lem :
    (supported xs : List String) (s : String)
    → scopes_ok supported xs ≡ true
    → contains xs s ≡ true
    → contains supported s ≡ true
unfolding scopes_ok contains
scopes_ok_lem supported [] s e h = cc
scopes_ok_lem supported (x ∷ xs) s e h = ground (arith, eq_iff x s, scopes_ok_lem supported xs s)
