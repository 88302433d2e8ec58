-- ===== src/Agent/Invariant/Sessions.antt =====
-- The methods on sessions keep the invariant.
use dp_beget_bridge.Base.{
  Bool-cases, is_some, Ends, Ends-pure, after-gets, after-require_some, after-require, after-modify,
  count-delete-le, find-delete_other, All, delete, ℕ, String, inl, inr, List, [], ◌∷◌, arith, ◌==◌,
  eq_iff,
}
use dp_beget_bridge.Agent.Model.{Session, Operation, State}
use dp_beget_bridge.Agent.Sessions.{
  session_is, get_session, SessionInput, normalize_session, session_row, upsert, save, closed_input,
  close_session, TranscriptFields, transcript_input, update_transcript, purge_rows, purge,
}
use dp_beget_bridge.Agent.Ledger.{operation_is, has_key, holds}
use dp_beget_bridge.Agent.Invariant.{IsOwned, IsLedger, saved-IsLedger}

filed :
    (f : List Session → List Session) (s : State)
    → IsLedger s
    → IsLedger (record s { metadata = f s.metadata })
filed f s h = record {
  sessions_unique = h.sessions_unique;
  operations_unique = h.operations_unique;
  keys_unique = h.keys_unique;
  one_writer = h.one_writer;
  owned = h.owned;
}

pub save-IsLedger :
    (session : SessionInput) (uuid : String) (s : State)
    → IsLedger s
    → Ends IsLedger (save session uuid) s
unfolding save
save-IsLedger session uuid s h =
    let normalized = normalize_session session (get_session session.id s) uuid in
    after-gets _ s (get_session session.id) (
      after-modify _ s (λ t. record t { sessions = upsert (session_row normalized) t.sessions })
        (after-modify _ _ (λ t. record t { metadata = upsert normalized t.metadata })
          (Ends-pure normalized _
            (filed (upsert normalized) _ (saved-IsLedger (session_row normalized) s h)))))

pub close_session-IsLedger :
    (id : String) (now : ℕ) (uuid : String) (s : State)
    → IsLedger s
    → Ends IsLedger (close_session id now uuid) s
unfolding close_session
close_session-IsLedger id now uuid s h = after-gets _ s (get_session id) (
    after-require_some _ s (get_session id s) _ h
      λ session _. save-IsLedger (closed_input session now) uuid s h)

pub update_transcript-IsLedger :
    (id : String) (fields : TranscriptFields) (uuid : String) (s : State)
    → IsLedger s
    → Ends IsLedger (update_transcript id fields uuid) s
unfolding update_transcript
update_transcript-IsLedger id fields uuid s h = after-gets _ s (get_session id) (
    after-require_some _ s (get_session id s) _ h
      λ session _. save-IsLedger (transcript_input session fields) uuid s h)

-- The operations that the cascade leaves are of other sessions, which are still stored.
purged-IsOwned :
    (id : String) (sessions : List Session) (operations : List Operation)
    → All (IsOwned sessions) operations
    → All (IsOwned (delete (session_is id) sessions)) (delete (λ o. o.session_id == id) operations)
unfolding delete
purged-IsOwned id sessions [] h = tt
purged-IsOwned id sessions (o ∷ os) (owned, h) = elim (Bool-cases (o.session_id == id)) [
  | inl own ↦ rw own (purged-IsOwned id sessions os h)
  | inr other ↦ rw other (
    rw
        (find-delete_other (session_is o.session_id) (session_is id) sessions
          (λ x e. ground (arith, eq_iff x.id o.session_id, eq_iff x.id id, eq_iff o.session_id id)))
        owned,
    purged-IsOwned id sessions os h,
  )
]

purge_rows-IsLedger : (id : String) (s : State) → IsLedger s → IsLedger (purge_rows id s)
unfolding purge_rows
purge_rows-IsLedger id s h = record {
  sessions_unique = λ k.
      omega (arith, count-delete-le (session_is k) (session_is id) s.sessions, h.sessions_unique k);
  operations_unique = λ k. omega (
    arith,
    count-delete-le (operation_is k) (λ o. o.session_id == id) s.operations,
    h.operations_unique k,
  );
  keys_unique = λ k key. omega (
    arith,
    count-delete-le (has_key k key) (λ o. o.session_id == id) s.operations,
    h.keys_unique k key,
  );
  one_writer = λ k.
      omega
        (arith, count-delete-le (holds k) (λ o. o.session_id == id) s.operations, h.one_writer k);
  owned = purged-IsOwned id s.sessions s.operations h.owned;
}

pub purge-IsLedger : (id : String) (s : State) → IsLedger s → Ends IsLedger (purge id) s
unfolding purge
purge-IsLedger id s h = after-gets _ s (get_session id) (
    after-require_some _ s (get_session id s) _ h λ session _.
      after-require _ s (is_some session.closed_at) _ h
        λ _. after-modify _ s (purge_rows id) (Ends-pure id _ (purge_rows-IsLedger id s h)))
