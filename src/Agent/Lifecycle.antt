-- ===== src/Agent/Lifecycle.antt =====
-- What the methods on sessions make of the stored sessions.
use dp_beget_bridge.Base.{
  if◌then◌else◌, Bool-cases, Option-cases, is_some, find-update_by, find-update_off,
  count-delete_self, find-delete_other, ok, err, ◌>>=◌, find, update, or_row, find_sound,
  find-append, find-eq-none, ℕ, String, ◌≡◌, refl, ap, subst, ◌∙◌, inl, inr, false, none, some,
  List, arith, ◌==◌, eq_iff, eq_refl,
}
use dp_beget_bridge.Agent.Model.{session_not_closed, bridge_error, Session, State, or_else}
use dp_beget_bridge.Agent.Sessions.{
  session_is, get_session, SessionInput, normalize_session, session_row, upsert, save,
  transcript_input, stopped_capture, closed_input, close_session, TranscriptFields,
  update_transcript, purge_rows, purge,
}
use dp_beget_bridge.Agent.Ledger.{holds, active_operation}

replaced :
    (row old : Session) (rows : List Session) (id : String)
    → find (session_is row.id) rows ≡ some old
    → find (session_is id) (update (session_is row.id) (λ _. row) rows)
      ≡ (if session_is id row then some row else find (session_is id) rows)
replaced row old rows id found = elim (Bool-cases (row.id == id)) [
  | inl same ↦
      let key : row.id ≡ id = (eq_iff row.id id).0 same in
      rw same (
        subst (λ k. find (session_is k) (update (session_is row.id) (λ _. row) rows) ≡ some row) key
          (find-update_by (session_is row.id) row rows (eq_refl row.id) ∙ rw found refl))
  | inr other ↦ rw other (
      find-update_off (session_is id) (session_is row.id) (λ _. row) rows
        (λ x e. ground (arith, eq_iff x.id row.id, eq_iff x.id id, eq_iff row.id id))
        (λ x e. other))
]

added :
    (row : Session) (rows : List Session) (id : String)
    → find (session_is row.id) rows ≡ none
    → or_row (session_is id) row (find (session_is id) rows)
      ≡ (if session_is id row then some row else find (session_is id) rows)
added row rows id fresh = elim (Bool-cases (row.id == id)) [
  | inl same ↦ rw same (
      rw (subst (λ k. find (session_is k) rows ≡ none) ((eq_iff row.id id).0 same) fresh)
        (rw same refl))
  | inr other ↦ elim (Option-cases (find (session_is id) rows)) [
    | inl absent ↦ rw (other, absent) (rw other refl)
    | inr (x, found) ↦ rw (other, found) refl
  ]
]

upserted :
    (row : Session) (rows : List Session) (id : String)
    → find (session_is id) (upsert row rows)
      ≡ (if session_is id row then some row else find (session_is id) rows)
unfolding upsert
upserted row rows id = elim (Option-cases (find (session_is row.id) rows)) [
  | inr (old, found) ↦ rw found (replaced row old rows id found)
  | inl fresh ↦ rw fresh (find-append (session_is id) rows row ∙ added row rows id fresh)
]

-- Saving a session returns; the saved session is then read back, with its label and directory
-- defaulted, and every other session is as it was.
pub save_reads :
    (session : SessionInput) (uuid : String) (s : State) (id : String)
    → (t : State) × (save session uuid s
        ≡ (ok (normalize_session session (get_session session.id s) uuid), t))
      × (get_session id t ≡ (
          if session.id == id
          then some (session_row (normalize_session session (get_session session.id s) uuid))
          else get_session id s))
      × (t.operations ≡ s.operations)
unfolding save normalize_session ◌>>=◌
save_reads session uuid s id = (
  _,
  refl,
  upserted (session_row (normalize_session session (get_session session.id s) uuid)) s.sessions id,
  refl,
)

-- Closing a stored session returns and closes it: the session is then read back closed at the time of
-- the first close, still DEGRADED if its capture was and otherwise STOPPED, and its operations stay.
pub close_closes :
    (id : String) (now : ℕ) (uuid : String) (s : State) (session : Session)
    → get_session id s ≡ some session
    → (closed : Session) × (t : State) × (close_session id now uuid s ≡ (ok closed, t))
      × (get_session id t ≡ some (session_row closed))
      × (closed.closed_at ≡ or_else session.closed_at (some now))
      × (closed.capture_state ≡ stopped_capture session.capture_state)
      × (t.operations ≡ s.operations)
unfolding close_session ◌>>=◌
close_closes id now uuid s session found =
    let (t, saved, read, kept) = save_reads (closed_input session now) uuid s id in
    rw found (
      normalize_session (closed_input session now) (get_session session.id s) uuid,
      t,
      saved,
      read ∙ rw (find_sound (session_is id) s.sessions session found) refl,
      unfold normalize_session in refl,
      unfold normalize_session in refl,
      kept,
    )

-- What is left after the purge of a closed session.
abbrev Purged : String → State → Type 0
Purged id s =
    (t : State) × (purge id s ≡ (ok id, t))
    × (get_session id t ≡ none)
    × (find (λ o. o.session_id == id) t.operations ≡ none)
    × ((k : String) → (k == id) ≡ false → get_session k t ≡ get_session k s)
    × ((k : String) → (k == id) ≡ false → active_operation k t ≡ active_operation k s)

-- A purge of an open session throws session_not_closed and changes nothing. A purge of a closed one
-- returns, leaves neither the session nor an operation of it, and keeps the other sessions and their
-- active operations.
pub purge_removes :
    (id : String) (s : State) (session : Session)
    → get_session id s ≡ some session
    → (if is_some session.closed_at
        then Purged id s
        else (purge id s ≡ (err (bridge_error session_not_closed 409), s)))
unfolding purge purge_rows ◌>>=◌
purge_removes id s session found = elim (Bool-cases (is_some session.closed_at)) [
  | inr open_still ↦ rw (found, open_still) refl
  | inl closed ↦ rw closed (
    purge_rows id s,
    rw (found, closed) refl,
    find-eq-none (session_is id) _ (count-delete_self (session_is id) s.sessions),
    find-eq-none (λ o. o.session_id == id) _
        (count-delete_self (λ o. o.session_id == id) s.operations),
    (λ k apart.
        find-delete_other (session_is k) (session_is id) s.sessions
          (λ x e. ground (arith, eq_iff x.id k, eq_iff x.id id, eq_iff k id))),
    (λ k apart.
        find-delete_other (holds k) (λ o. o.session_id == id) s.operations
          (λ x e. ground (arith, eq_iff x.session_id k, eq_iff x.session_id id, eq_iff k id))),
  )
]

-- Once a session has a reason for a gap in its transcript, no `updateTranscript` clears it: one with a
-- `gapReason` of null in its fields returns, and the session that it returns and the one that is then
-- stored have the reason that was stored before.
pub gap_reason_stays :
    (id : String) (fields : TranscriptFields) (uuid : String) (s : State) (session : Session)
    → get_session id s ≡ some session
    → fields.gap_reason ≡ some none
    → (updated : Session) × (t : State) × (update_transcript id fields uuid s ≡ (ok updated, t))
      × (updated.gap_reason ≡ session.gap_reason)
      × ((stored : Session) × (get_session id t ≡ some stored)
          × (stored.gap_reason ≡ session.gap_reason))
unfolding update_transcript ◌>>=◌
gap_reason_stays id fields uuid s session found cleared =
    let same : session.id ≡ id =
      (eq_iff session.id id).0 (find_sound (session_is id) s.sessions session found) in
    let own : get_session session.id s ≡ some session = ap (λ k. get_session k s) same ∙ found in
    let input = transcript_input session fields in
    let (t, saved, read, kept) = save_reads input uuid s id in
    let row = normalize_session input (get_session session.id s) uuid in
    let stays : row.gap_reason ≡ session.gap_reason =
      unfold normalize_session in rw (cleared, own) refl in
    rw found (
      row,
      t,
      saved,
      stays,
      (
        session_row row,
        read ∙ rw (find_sound (session_is id) s.sessions session found) refl,
        stays,
      ),
    )
