-- ===== src/Agent/Invariant/Admission.antt =====
-- Admitting an operation keeps the invariant.
use dp_beget_bridge.Base.{
  Bool-cases, is_some, Ends, Ends-pure, Ends-throw, Ends-transaction, Ends-modify, after-bind,
  after-gets, after-require, All-append, find, count, count-append, count-eq-zero, ◌≤◌, ◌≡◌, subst,
  inl, inr, Bool, true, Option, none, some, List, [], ◌∷◌, ◌++◌, arith, ◌==◌, eq_iff,
}
use dp_beget_bridge.Agent.Model.{Operation, State, holds_session}
use dp_beget_bridge.Agent.Sessions.{get_session}
use dp_beget_bridge.Agent.Ledger.{
  operation_is, get_operation, has_key, holds, active_operation, Request, accepted_row,
  insert_operation, admission_error, admit_new, admit_row, admit_body, admit_operation,
}
use dp_beget_bridge.Agent.Invariant.{IsOwned, IsLedger}

fresh_append :
    {A : Type 0} (p : A → Bool) (xs : List A) (x : A)
    → count p xs ≤ 1
    → (p x ≡ true → find p xs ≡ none)
    → count p (xs ++ x ∷ []) ≤ 1
fresh_append p xs x one fresh = rw (count-append p xs x) (elim (Bool-cases (p x)) [
  | inl hit ↦ rw hit (omega (arith, count-eq-zero p xs (fresh hit)))
  | inr miss ↦ rw miss (omega (arith, one))
])

inserted-IsLedger :
    (row : Operation) (s : State)
    → IsLedger s
    → find (operation_is row.id) s.operations ≡ none
    → find (has_key row.session_id row.idempotency_key) s.operations ≡ none
    → (holds_session row.status ≡ true → find (holds row.session_id) s.operations ≡ none)
    → is_some (get_session row.session_id s) ≡ true
    → IsLedger (record s { operations = s.operations ++ row ∷ [] })
inserted-IsLedger row s h same keyed active session = record {
  sessions_unique = h.sessions_unique;
  operations_unique = λ id.
      fresh_append (operation_is id) s.operations row (h.operations_unique id)
        λ e. subst (λ k. find (operation_is k) s.operations ≡ none) ((eq_iff row.id id).0 e) same;
  keys_unique = λ id key. fresh_append (has_key id key) s.operations row (h.keys_unique id key) λ e.
      subst (λ k. find (has_key k key) s.operations ≡ none)
        ((eq_iff row.session_id id).0 (ground arith))
        (subst (λ k. find (has_key row.session_id k) s.operations ≡ none)
          ((eq_iff row.idempotency_key key).0 (ground arith)) keyed);
  one_writer = λ id. fresh_append (holds id) s.operations row (h.one_writer id) λ e.
      subst (λ k. find (holds k) s.operations ≡ none) ((eq_iff row.session_id id).0 (ground arith))
        (active (ground arith));
  owned = All-append (IsOwned s.sessions) s.operations row h.owned session;
}

insert_operation-IsLedger :
    (row : Operation) (s : State) → IsLedger s → Ends IsLedger (insert_operation row) s
unfolding insert_operation
insert_operation-IsLedger row s h = after-gets _ s (get_operation row.id) (
    after-gets _ s _ (
      after-gets _ s (active_operation row.session_id) (
        after-gets _ s (get_session row.session_id) (
          after-require _ s _ _ h λ free. after-require _ s _ _ h λ session. Ends-modify _ s (
            inserted-IsLedger row s h (ground arith) (ground arith) (λ taken. ground arith)
              session)))))

admit_new-IsLedger :
    (active : Option Operation) (request : Request) (s : State)
    → IsLedger s
    → Ends IsLedger (admit_new active request) s
unfolding admit_new
admit_new-IsLedger (some active) request s h = Ends-throw _ s h
admit_new-IsLedger none request s h =
    after-bind _ s (insert_operation (accepted_row request))
      (insert_operation-IsLedger (accepted_row request) s h)
      λ _ s' _ h'. after-gets _ s' (get_operation request.id) (Ends-pure _ s' h')

admit_row-IsLedger :
    (existing : Option Operation) (request : Request) (s : State)
    → IsLedger s
    → Ends IsLedger (admit_row existing request) s
unfolding admit_row
admit_row-IsLedger (some existing) request s h =
    elim (Bool-cases (existing.request_fingerprint == request.request_fingerprint)) [
      | inl same ↦ rw same (Ends-pure _ s h)
      | inr differ ↦ rw differ (Ends-throw _ s h)
    ]
admit_row-IsLedger none request s h =
    after-gets _ s (active_operation request.session_id)
      (admit_new-IsLedger (active_operation request.session_id s) request s h)

pub admit_operation-IsLedger :
    (request : Request) (s : State) → IsLedger s → Ends IsLedger (admit_operation request) s
unfolding admit_operation admit_body
admit_operation-IsLedger request s h = Ends-transaction admission_error (admit_body request) s h (
    after-gets _ s (λ t. find (has_key request.session_id request.idempotency_key) t.operations)
      (admit_row-IsLedger _ request s h))
