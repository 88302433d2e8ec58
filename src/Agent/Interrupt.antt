-- ===== src/Agent/Interrupt.antt =====
-- What `interruptActiveOperation` does.
use mathlib.Core.Option
use dp_beget_bridge.Base.{
  Option-cases, count-update_one, ok, ◌>>=◌, count, find_sound, find-update, count-eq-zero,
  find-eq-none, find_by_key, ℕ, ◌+◌, String, ◌≡◌, refl, ap, subst, ◌∙◌, inl, inr, true, false, not,
  ◌&&◌, none, some, arith, eq_iff, eq_refl,
}
use dp_beget_bridge.Agent.Model.{Status, Operation, State}
use dp_beget_bridge.Agent.Ledger.{
  operation_is, get_operation, holds, active_operation, set_status, other_holder, update_operation,
  outcome, interrupt_row, interrupt_active_operation,
}
use dp_beget_bridge.Agent.Invariant.{IsLedger}
use dp_beget_bridge.Agent.Invariant.Holder.{no_other_holder, updated_state, update_holder}

-- An interrupt of a session returns, changes the operation that held the session, if there was one,
-- to INTERRUPTED with the reason and no exit code, and leaves the session without an active operation.
pub interrupt_frees :
    (session_id : String) (now : ℕ) (reason : String) (s : State)
    → IsLedger s
    → (t : State) × (interrupt_active_operation session_id now reason s ≡ (
      ok (
          Option.map
            (set_status Status.interrupted (outcome (some now) none reason))
            (active_operation session_id s)),
      t,
    ))
      × (active_operation session_id t ≡ none)
unfolding interrupt_active_operation interrupt_row ◌>>=◌
interrupt_frees session_id now reason s h = elim (Option-cases (active_operation session_id s)) [
  | inl free ↦ rw free (s, refl, free)
  | inr (row, held) ↦ rw held (t row, interrupted row held, freed row held)
]
  where
    done : Operation → Operation
    done = set_status Status.interrupted (outcome (some now) none reason)

    t : Operation → State
    t row = updated_state row.id Status.interrupted (outcome (some now) none reason) s

    passes :
        (row : Operation) → active_operation session_id s ≡ some row → holds session_id row ≡ true
    passes row held = find_sound (holds session_id) s.operations row held

    stored :
        (row : Operation)
        → active_operation session_id s ≡ some row
        → get_operation row.id s ≡ some row
    stored row held =
        find_by_key (λ o. o.id) (holds session_id) s.operations row held
          (h.operations_unique row.id)

    interrupted :
        (row : Operation) (held : active_operation session_id s ≡ some row)
        → update_operation row.id Status.interrupted (outcome (some now) none reason) s
          ≡ (ok (some (done row)), t row)
    interrupted row held =
        update_holder row Status.interrupted (outcome (some now) none reason) s h (stored row held)
          (let e = passes row held in ground arith)
        ∙ ap (λ r. (ok r, t row))
            (find-update (operation_is row.id) (operation_is row.id) done s.operations (λ o. refl)
              ∙ rw (stored row held, eq_refl row.id) refl)

    free_row : (row : Operation) → holds session_id (done row) ≡ false
    free_row row = ground arith

    freed :
        (row : Operation) (held : active_operation session_id s ≡ some row)
        → active_operation session_id (t row) ≡ none
    freed row held =
        let same : row.session_id ≡ session_id =
          (eq_iff row.session_id session_id).0 (let e = passes row held in ground arith) in
        let others =
          no_other_holder row s h (stored row held) (let e = passes row held in ground arith) in
        find-eq-none (holds session_id) (t row).operations (
          count-update_one (holds session_id) (operation_is row.id) done s.operations row
            (h.operations_unique row.id) (stored row held)
          ∙ rw (free_row row) (
              subst
                (λ k. count (λ o. holds k o && not (operation_is row.id o)) s.operations + 0 ≡ 0)
                same (omega (arith, count-eq-zero (other_holder row) s.operations others))))
