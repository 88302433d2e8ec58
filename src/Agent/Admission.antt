-- ===== src/Agent/Admission.antt =====
-- What `admitOperation` answers.
use dp_beget_bridge.Base.{
  if◌then◌else◌, Bool-cases, Option-cases, is_some, returned-bind, returned-gets, returned-require,
  returned-transaction, Result, ok, err, pure, gets, modify, ◌>>=◌, find, find-append, ◌≡◌, refl,
  sym, ap, subst, ◌∙◌, inl, inr, true, false, Option, none, some, [], ◌∷◌, ◌++◌, arith, ◌==◌,
  eq_iff, eq_refl,
}
use dp_beget_bridge.Agent.Model.{
  idempotency_conflict, StateError, bridge_error, session_busy, Operation, State,
}
use dp_beget_bridge.Agent.Sessions.{get_session}
use dp_beget_bridge.Agent.Ledger.{
  operation_is, get_operation, has_key, active_operation, Request, Admitted, accepted_row,
  insert_operation, admission_error, admit_new, admit_row, admit_body, admit_operation,
}

abbrev pub of_key : Request → State → Option Operation
of_key request s = find (has_key request.session_id request.idempotency_key) s.operations

-- the operation is added to the ledger
abbrev pub admitted_state : Request → State → State
admitted_state request s = record s { operations = s.operations ++ accepted_row request ∷ [] }

-- A key that the session has used gives the stored operation back if the fingerprint is the same,
-- and idempotency_conflict if it is not, and changes nothing.
admit_known :
    (request : Request) (s : State) (existing : Operation)
    → of_key request s ≡ some existing
    → admit_operation request s ≡ (
        if existing.request_fingerprint == request.request_fingerprint
        then (ok (record { operation = some existing; duplicate = true }), s)
        else (err (bridge_error idempotency_conflict 409), s))
unfolding admit_operation admit_body admit_row admission_error ◌>>=◌
admit_known request s existing found =
    rw found (elim (Bool-cases (existing.request_fingerprint == request.request_fingerprint)) [
      | inl same ↦ rw same refl
      | inr differ ↦ rw differ refl
    ])

-- A new key is refused with session_busy, and changes nothing, as long as an operation of the session
-- is ACCEPTED, RUNNING or UNKNOWN.
admit_busy :
    (request : Request) (s : State) (holder : Operation)
    → of_key request s ≡ none
    → active_operation request.session_id s ≡ some holder
    → admit_operation request s ≡ (err (session_busy holder.id holder.status), s)
unfolding admit_operation admit_body admit_row admit_new admission_error ◌>>=◌
admit_busy request s holder new held = rw (new, held) refl

-- A new key and a new id on a stored session that is free: the operation is added, as ACCEPTED, and
-- given back.
admit_accepts :
    (request : Request) (s : State)
    → of_key request s ≡ none
    → active_operation request.session_id s ≡ none
    → get_operation request.id s ≡ none
    → is_some (get_session request.session_id s) ≡ true
    → admit_operation request s ≡ (
      ok (record { operation = some (accepted_row request); duplicate = false }),
      admitted_state request s,
    )
unfolding admit_operation admit_body admit_row admit_new insert_operation ◌>>=◌
admit_accepts request s new free fresh session =
    rw (new, free, fresh, new, free, session, stored) refl
  where
    stored :
        find (operation_is request.id) (s.operations ++ accepted_row request ∷ [])
        ≡ some (accepted_row request)
    stored =
        find-append (operation_is request.id) s.operations (accepted_row request)
        ∙ rw (fresh, eq_refl request.id) refl

-- What a request is answered, by the operation with its key and the one that holds its session.
unfoldable pub answer :
    Option Operation → Option Operation → Request → State → Result StateError Admitted × State
answer (some existing) holder request s =
    if existing.request_fingerprint == request.request_fingerprint
    then (ok (record { operation = some existing; duplicate = true }), s)
    else (err (bridge_error idempotency_conflict 409), s)
answer none (some holder) request s = (err (session_busy holder.id holder.status), s)
answer none none request s = (
  ok (record { operation = some (accepted_row request); duplicate = false }),
  admitted_state request s,
)

-- A request with a new id on a stored session. If the session has used its key, the stored operation
-- is given back as a duplicate, or idempotency_conflict is thrown if the fingerprint differs, and
-- nothing changes. If not, session_busy is thrown, and nothing changes, as long as an operation of the
-- session is ACCEPTED, RUNNING or UNKNOWN; otherwise the operation is added, as ACCEPTED, and given
-- back.
pub admit_answers :
    (request : Request) (s : State)
    → get_operation request.id s ≡ none
    → is_some (get_session request.session_id s) ≡ true
    → admit_operation request s
      ≡ answer (of_key request s) (active_operation request.session_id s) request s
unfolding answer
admit_answers request s fresh session = elim (Option-cases (of_key request s)) [
  | inr (existing, found) ↦ admit_known request s existing found ∙ rw found refl
  | inl new ↦ elim (Option-cases (active_operation request.session_id s)) [
    | inr (holder, held) ↦ admit_busy request s holder new held ∙ rw (new, held) refl
    | inl free ↦ admit_accepts request s new free fresh session ∙ rw (new, free) refl
  ]
]

-- What the answer to a request says: its operation is stored, with the request's key and fingerprint.
abbrev Answered : Request → Admitted → State → Type 0
Answered request answer t =
    (row : Operation) × (of_key request t ≡ some row)
    × (row.request_fingerprint ≡ request.request_fingerprint)
    × (answer.operation ≡ some row)

inserted_state :
    (row : Operation) (s t : State)
    → insert_operation row s ≡ (ok tt, t)
    → (get_operation row.id s ≡ none) × (t ≡ record s { operations = s.operations ++ row ∷ [] })
unfolding insert_operation modify
inserted_state row s t e =
    let e1 = returned-gets _ s (get_operation row.id) e in
    let e2 =
      returned-gets _ s (λ u. find (has_key row.session_id row.idempotency_key) u.operations) e1 in
    let e3 = returned-gets _ s (active_operation row.session_id) e2 in
    let e4 = returned-gets _ s (get_session row.session_id) e3 in
    let (free, e5) = returned-require _ s _ _ e4 in
    let (session, e6) = returned-require _ s _ _ e5 in (ground arith, cc)

Answered-known :
    (request : Request) (s t : State) (answer : Admitted) (row : Operation)
    → of_key request s ≡ some row
    → admit_operation request s ≡ (ok answer, t)
    → Answered request answer t
Answered-known request s t answer row found returned =
    let given = sym (admit_known request s row found) ∙ returned in
    elim (Bool-cases (row.request_fingerprint == request.request_fingerprint)) [
      | inl same ↦
          let same_state : s ≡ t = unfold ◌>>=◌ in let e = rw same at given in cc in
          (
            row,
            subst (λ u. of_key request u ≡ some row) same_state found,
            (eq_iff row.request_fingerprint request.request_fingerprint).0 same,
            let e = rw same at given in cc,
          )
      | inr differ ↦ let e = rw differ at given in cc
    ]

last_step :
    (request : Request) (u t : State) (answer : Admitted)
    → (gets (get_operation request.id) >>= λ operation.
          pure {E = StateError} (record { operation = operation; duplicate = false }))
        u
      ≡ (ok answer, t)
    → (answer ≡ record { operation = get_operation request.id u; duplicate = false }) × (t ≡ u)
unfolding ◌>>=◌
last_step request u t answer e = (cc, cc)

Answered-new :
    (request : Request) (s t : State) (answer : Admitted)
    → of_key request s ≡ none
    → active_operation request.session_id s ≡ none
    → admit_operation request s ≡ (ok answer, t)
    → Answered request answer t
unfolding admit_operation admit_body admit_row admit_new
Answered-new request s t answer new free returned =
    let body : admit_body request s ≡ (ok answer, t) =
      returned-transaction admission_error (admit_body request) s returned in
    let row : admit_row (of_key request s) request s ≡ (ok answer, t) = unfold ◌>>=◌ in body in
    let next : admit_row none request s ≡ (ok answer, t) = rw new at row in
    let insert : admit_new (active_operation request.session_id s) request s ≡ (ok answer, t) =
      unfold ◌>>=◌ in next in
    let (_, u, inserted, last) = returned-bind _ s _ (rw free at insert) in
    let (fresh, stored) = inserted_state (accepted_row request) s u inserted in
    let (given, ended) = last_step request u t answer last in
    let row_of : get_operation request.id u ≡ some (accepted_row request) =
      ap (get_operation request.id) stored
      ∙ find-append (operation_is request.id) s.operations (accepted_row request)
      ∙ rw (fresh, eq_refl request.id) refl in
    let keyed : of_key request t ≡ some (accepted_row request) =
      ap (of_key request) (ended ∙ stored)
      ∙ find-append (has_key request.session_id request.idempotency_key) s.operations
          (accepted_row request)
      ∙ rw (new, eq_refl request.session_id, eq_refl request.idempotency_key) refl in
    (accepted_row request, keyed, refl, ap (λ a. a.operation) given ∙ row_of)

admitted_row :
    (request : Request) (s t : State) (answer : Admitted)
    → admit_operation request s ≡ (ok answer, t)
    → Answered request answer t
admitted_row request s t answer returned = elim (Option-cases (of_key request s)) [
  | inr (row, found) ↦ Answered-known request s t answer row found returned
  | inl new ↦ elim (Option-cases (active_operation request.session_id s)) [
    | inl free ↦ Answered-new request s t answer new free returned
    | inr (holder, held) ↦ let e = sym (admit_busy request s holder new held) ∙ returned in cc
  ]
]

-- An admission that returned is repeated safely: the next request, for the same session with the same
-- key and fingerprint, returns the same operation, as a duplicate, and changes nothing, whatever its
-- id, time and cursor are.
pub admit_retry :
    (request again : Request) (s t : State) (answer : Admitted)
    → again.session_id ≡ request.session_id
    → again.idempotency_key ≡ request.idempotency_key
    → again.request_fingerprint ≡ request.request_fingerprint
    → admit_operation request s ≡ (ok answer, t)
    → admit_operation again t ≡ (ok (record { operation = answer.operation; duplicate = true }), t)
admit_retry request again s t answer session key fingerprint returned =
    let (row, found, row_fingerprint, given) = admitted_row request s t answer returned in
    admit_known again t row (subst2_key row found)
    ∙ rw (row_fingerprint, fingerprint, eq_refl request.request_fingerprint, given) refl
  where
    subst2_key : (row : Operation) → of_key request t ≡ some row → of_key again t ≡ some row
    subst2_key row found = rw (session, key) found
