-- ===== src/Agent/Recovery/Pending.antt =====
-- The operations that the SELECT of `reconcileUncertainOperations` gives.
use dp_beget_bridge.Base.{
  Bool-cases, any, All, All-map, find, count, count-pos, ◌≤◌, String, ◌≡◌, refl, inl, inr, Bool,
  true, false, some, List, [], ◌∷◌, arith, eq_refl,
}
use dp_beget_bridge.Agent.Model.{Operation, is_pending}
use dp_beget_bridge.Agent.Ledger.{operation_is}
use dp_beget_bridge.Agent.Recovery.{pending}

-- a pending operation, as it is stored
abbrev pub Live : List Operation → Operation → Type 0
Live xs o = (find (operation_is o.id) xs ≡ some o) × (is_pending o.status ≡ true)

later :
    (y o : Operation) (ys : List Operation)
    → find (operation_is o.id) ys ≡ some o
    → count (operation_is o.id) (y ∷ ys) ≤ 1
    → find (operation_is o.id) (y ∷ ys) ≡ some o
unfolding find count
later y o ys found one = ground (arith, count-pos (operation_is o.id) ys o)

found_first : (y : Operation) (ys : List Operation) → find (operation_is y.id) (y ∷ ys) ≡ some y
unfolding find
found_first y ys = rw (eq_refl y.id) refl

fewer :
    (y : Operation) (ys : List Operation) (id : String)
    → count (operation_is id) (y ∷ ys) ≤ 1
    → count (operation_is id) ys ≤ 1
unfolding count
fewer y ys id one = ground arith

pub pending-Live :
    (xs : List Operation)
    → ((id : String) → count (operation_is id) xs ≤ 1)
    → All (Live xs) (pending xs)
unfolding pending
pending-Live [] one = tt
pending-Live (y ∷ ys) one =
    let rest : All (Live (y ∷ ys)) (pending ys) =
      All-map (Live ys) (Live (y ∷ ys)) (pending ys)
        (λ o live. (later y o ys live.0 (one o.id), live.1))
        (pending-Live ys (λ id. fewer y ys id (one id))) in
    elim (Bool-cases (is_pending y.status)) [
      | inl on ↦ rw on ((found_first y ys, on), rest)
      | inr off ↦ rw off rest
    ]

pub count-pending : (p : Operation → Bool) (xs : List Operation) → count p (pending xs) ≤ count p xs
unfolding pending count
count-pending p [] = omega arith
count-pending p (y ∷ ys) = ground (arith, count-pending p ys)

pub any_none : (p : Operation → Bool) (xs : List Operation) → count p xs ≡ 0 → any p xs ≡ false
unfolding count
any_none p [] e = refl
any_none p (y ∷ ys) e = ground (arith, any_none p ys)

-- with unique ids, the id of a stored operation is among the pending ones if it is pending
pub any-pending :
    (xs : List Operation) (id : String) (row : Operation)
    → count (operation_is id) xs ≤ 1
    → find (operation_is id) xs ≡ some row
    → any (operation_is id) (pending xs) ≡ is_pending row.status
unfolding pending find count
any-pending [] id row one e = ground arith
any-pending (y ∷ ys) id row one e = ground (
  arith,
  any-pending ys id row,
  any_none (operation_is id) (pending ys),
  count-pending (operation_is id) ys,
)
