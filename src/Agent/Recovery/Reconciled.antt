-- ===== src/Agent/Recovery/Reconciled.antt =====
-- The loop of `reconcileUncertainOperations`, and its end.
use mathlib.Core.Option
use dp_beget_bridge.Base.{
  if◌then◌else◌, Bool-cases, Option-cases, any, All, Result, ok, ◌>>=◌, find, amend, count,
  find_sound, ℕ, ◌≤◌, String, ◌≡◌, refl, sym, ap, subst, ◌∙◌, inl, inr, true, false, Option, some,
  List, [], ◌∷◌, arith, eq_iff, eq_refl,
}
use dp_beget_bridge.Agent.Model.{StateError, Operation, State}
use dp_beget_bridge.Agent.Completion.{read_operation_completion}
use dp_beget_bridge.Agent.Ledger.{operation_is, get_operation}
use dp_beget_bridge.Agent.Recovery.{pending, reconcile_each, reconcile_uncertain_operations}
use dp_beget_bridge.Agent.Recovery.Pending.{
  Live, pending-Live, count-pending, any_none, any-pending,
}
use dp_beget_bridge.Agent.Recovery.Outcome.{
  RecordsReadable, judge, recovered, settled_state, settle-Live, settled_get, Live-after,
}
use dp_beget_bridge.Agent.Invariant.{IsLedger}
use dp_beget_bridge.Agent.Invariant.Updates.{settle_operation-IsLedger}

settled-IsLedger :
    (s : State) (clock : String → ℕ) (o : Operation)
    → IsLedger s
    → RecordsReadable s
    → Live s.operations o
    → IsLedger (settled_state s clock o)
settled-IsLedger s clock o h readable live =
    let (r, e) = settle-Live s clock o h readable live in
    subst (λ (x : Result StateError (Option Operation) × State). IsLedger x.1) e
      (settle_operation-IsLedger (read_operation_completion o.session_id o.id s) o.id (clock o.id) s
        h).at

-- what the rounds for `os` make of an operation of id `id`
rounds : State → (String → ℕ) → List Operation → String → Operation → Operation
rounds s clock os id r = if any (operation_is id) os then judge s clock r r else r

one_round :
    (s : State) (clock : String → ℕ) (o : Operation) (os : List Operation) (id : String)
    (r : Operation)
    → find (operation_is o.id) s.operations ≡ some o
    → count (operation_is id) (o ∷ os) ≤ 1
    → find (operation_is id) s.operations ≡ some r
    → rounds (settled_state s clock o) clock os id (amend (operation_is o.id) (judge s clock o) r)
      ≡ rounds s clock (o ∷ os) id r
unfolding rounds count settled_state judge read_operation_completion
one_round s clock o os id r found one got = elim (Bool-cases (operation_is id o)) [
  | inl hit ↦
      let apart : any (operation_is id) os ≡ false = any_none (operation_is id) os (ground arith) in
      let key : o.id ≡ id = (eq_iff o.id id).0 hit in
      let same : o ≡ r =
        Option.some-injective _ _
          (sym found ∙ ap (λ k. find (operation_is k) s.operations) key ∙ got) in
      rw (hit, apart)
        (subst (λ x. (if operation_is o.id x then judge s clock o x else x) ≡ judge s clock x x)
          same (rw (eq_refl o.id) refl))
  | inr miss ↦
      let here : operation_is id r ≡ true = find_sound (operation_is id) s.operations r got in
      let other : operation_is o.id r ≡ false =
        ground (arith, eq_iff r.id id, eq_iff r.id o.id, eq_iff o.id id) in
      rw (miss, other) refl
]

round_found :
    (s : State) (clock : String → ℕ) (o : Operation) (os : List Operation) (id : String)
    → find (operation_is o.id) s.operations ≡ some o
    → count (operation_is id) (o ∷ os) ≤ 1
    → Option.map
        (rounds (settled_state s clock o) clock os id)
        (get_operation id (settled_state s clock o))
      ≡ Option.map (rounds s clock (o ∷ os) id) (get_operation id s)
round_found s clock o os id found one =
    ap (Option.map (rounds (settled_state s clock o) clock os id)) (settled_get s clock o id)
    ∙ elim (Option-cases (get_operation id s)) [
      | inl absent ↦ rw absent refl
      | inr (r, got) ↦ rw got (ap some (one_round s clock o os id r found one got))
    ]

-- The operation of every id after the loop.
Looped : List Operation → (String → ℕ) → State → Type 0
Looped os clock s =
    (t : State) × (reconcile_each os clock s ≡ (ok tt, t))
    × ((id : String) → get_operation id t ≡ Option.map (rounds s clock os id) (get_operation id s))

loop :
    (os : List Operation) (clock : String → ℕ) (s : State)
    → IsLedger s
    → RecordsReadable s
    → All (Live s.operations) os
    → ((id : String) → count (operation_is id) os ≤ 1)
    → Looped os clock s
unfolding Looped reconcile_each rounds ◌>>=◌ count settled_state
loop [] clock s h readable live one = (
  s,
  refl,
  λ id. elim (Option-cases (get_operation id s)) [
    | inl absent ↦ rw absent refl
    | inr (r, got) ↦ rw got refl
  ],
)
loop (o ∷ os) clock s h readable (here, live) one =
    let u = settled_state s clock o in
    let (r, e) = settle-Live s clock o h readable here in
    let tail : (id : String) → count (operation_is id) os ≤ 1 =
      λ id. (let k = one id in ground arith) in
    let apart : count (operation_is o.id) os ≡ 0 =
      (let k = one o.id in ground (arith, eq_refl o.id)) in
    let (t, ran, got) =
      loop os clock u (settled-IsLedger s clock o h readable here) readable
        (Live-after s clock o os apart live) tail in
    (t, rw e ran, λ id. got id ∙ round_found s clock o os id here.0 (one id))

-- Reconciling a well-formed ledger after a restart returns if every exit record that is there can be
-- read, and leaves each operation as `recovered` says: one that was ACCEPTED or RUNNING is SUCCEEDED or FAILED by its exit
-- record, or UNKNOWN if the record is missing or malformed, and any other is unchanged.
pub reconcile_recovers :
    (clock : String → ℕ) (s : State)
    → IsLedger s
    → RecordsReadable s
    → (t : State) × (reconcile_uncertain_operations clock s ≡ (ok tt, t))
      × ((id : String) → get_operation id t ≡ Option.map (recovered s clock) (get_operation id s))
unfolding reconcile_uncertain_operations ◌>>=◌ Looped rounds
reconcile_recovers clock s h readable =
    let (t, ran, got) =
      loop (pending s.operations) clock s h readable (pending-Live s.operations h.operations_unique)
        (λ id.
          omega (arith, count-pending (operation_is id) s.operations, h.operations_unique id)) in
    (
      t,
      ran,
      λ id. got id ∙ elim (Option-cases (get_operation id s)) [
        | inl absent ↦ rw absent refl
        | inr (r, there) ↦
            rw there
              (ap some (rw (any-pending s.operations id r (h.operations_unique id) there) refl))
      ],
    )
