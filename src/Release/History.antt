-- ===== src/Release/History.antt =====
-- scripts/release/migration-journal.mjs: histories of changes of the journal, in which a process may end
-- at each step.
use mathlib.Core.Path.{subst}
use dp_beget_bridge.Base.{
  Bool-cases, if_true, if_false, Option-cases, is_some, Result, ok, err, bind_result,
  bind_result_ok, ℕ, zero, suc, String, ◌≡◌, refl, sym, ap, subst, ◌∙◌, ◌⊎◌, inl, inr, true, false,
  not, Option, none, some, List, [], ◌∷◌, arith, ◌==◌, eq_iff,
}
use dp_beget_bridge.Release.Records.{
  JournalError, root_required, untrusted_parent, eexist, Host, Journal, JournalFile, Disk, position,
  is_valid, validate, parsed, read_file, read_migration_journal,
}
use dp_beget_bridge.Release.Journal.{
  Details, next_journal, decide, written, Failure, all_works, lock_fails, open_fails, write_fails,
  rename_fails, removal_fails, refuse, commit, transition, advance_migration_journal, Beginning,
  first_journal, create_journal, gathered, start_migration_journal,
}

-- The disk after the first steps of a change.
unfoldable pub reached : ℕ → Disk → List Disk → Disk
reached zero d trace = d
reached (suc n) d [] = d
reached (suc n) d (next ∷ trace) = reached n next trace

pub data Step (h : Host) : Disk → Disk → Type 0 where
  advanced :
      (expected next : String) (details : Details) (failure : Failure) (n : ℕ) (d : Disk)
      → Step h d (reached n d (advance_migration_journal h expected next details failure d).1)
  started :
      (b : Beginning) (n : ℕ) (d : Disk) → Step h d (reached n d (start_migration_journal h b d).1)

pub data History (h : Host) (d : Disk) : Disk → Type 0 where
  here : History h d d
  then_step : {d1 d2 : Disk} → History h d d1 → Step h d1 d2 → History h d d2

-- The same migration: all but the phase and the snapshot is kept.
abbrev pub SameMigration : Journal → Journal → Type 0
SameMigration r r' = r' ≡ record r {
  phase = r'.phase;
  snapshot_path = r'.snapshot_path;
  snapshot_sha256 = r'.snapshot_sha256;
}

abbrev pub unwritten : JournalFile
unwritten = record { trusted = true; content = none }

-- What one change does to the journal.
pub data Moved (h : Host) : Option JournalFile → Option JournalFile → Type 0 where
  stays : (o : Option JournalFile) → Moved h o o
  advances :
      (r r' : Journal)
      → position r'.phase ≡ suc (position r.phase)
      → SameMigration r r'
      → is_valid h.path_ok r' ≡ true
      → Moved h (some (written r)) (some (written r'))
  begins : Moved h none (some unwritten)
  begun :
      (r : Journal)
      → position r.phase ≡ 1
      → is_valid h.path_ok r ≡ true
      → Moved h none (some (written r))

validate_ok :
    (h : Host) (r r' : Journal) → validate h r ≡ ok r' → (r' ≡ r) × (is_valid h.path_ok r ≡ true)
unfolding validate
validate_ok h r r' e = (ground arith, ground arith)

parsed_ok : (h : Host) (o : Option Journal) (r : Journal) → parsed h o ≡ ok r → o ≡ some r
parsed_ok h none r e = absurd (cc e)
parsed_ok h (some x) r e = ap some (sym (validate_ok h x r e).0)

read_file_ok :
    (h : Host) (o : Option JournalFile) (r : Journal) → read_file h o ≡ ok r → o ≡ some (written r)
read_file_ok h none r e = absurd (cc e)
read_file_ok h (some file) r e =
    let trusted : file.trusted ≡ true = ground arith in
    let content = parsed_ok h file.content r (ground arith) in
    ap (λ c. some (record { trusted = file.trusted; content = c })) content
    ∙ ap (λ b. some (record { trusted = b; content = some r })) trusted

read_ok :
    (h : Host) (d : Disk) (r : Journal)
    → read_migration_journal h d ≡ ok r
    → d.journal ≡ some (written r)
unfolding read_migration_journal
read_ok h d r e = read_file_ok h d.journal r (ground arith)

decide_ok :
    (h : Host) (expected next : String) (details : Details) (r r' : Journal)
    → decide h expected next details r ≡ ok r'
    → ((r.phase == expected) ≡ true)
      × (position next ≡ suc (position expected))
      × (validate h (next_journal r details next) ≡ ok r')
unfolding decide
decide_ok h expected next details r r' e = (ground arith, ground arith, ground arith)

-- A decision to advance moves the journal by one phase.
decide-Moved :
    (h : Host) (expected next : String) (details : Details) (d : Disk) (r : Journal)
    → bind_result (read_migration_journal h d) (decide h expected next details) ≡ ok r
    → Moved h d.journal (some (written r))
decide-Moved h expected next details d r e =
    let (previous, read, decided) = bind_result_ok (read_migration_journal h d) _ r e in
    let (matches, follows, valid) = decide_ok h expected next details previous r decided in
    let (is_next, passed) = validate_ok h (next_journal previous details next) r valid in
    let same = (eq_iff previous.phase expected).0 matches in
    let moved =
      advances previous (next_journal previous details next)
        (follows ∙ ap (λ p. suc (position p)) (sym same)) refl passed in
    subst (λ x. Moved h d.journal (some (written x))) (sym is_next)
      (subst (λ o. Moved h o (some (written (next_journal previous details next))))
        (sym (read_ok h d previous read)) moved)

-- Every disk that an advance passes keeps the journal, or has the next one.
unfoldable pub Kept : Option JournalFile → Option JournalFile → List Disk → Type 0
Kept old new [] = Unit
Kept old new (d ∷ trace) = ((d.journal ≡ old) ⊎ (d.journal ≡ new)) × Kept old new trace

refuse-Kept :
    (failure : Failure) (d : Disk) (e : JournalError) (new : Option JournalFile)
    → Kept d.journal new (refuse failure d e).1
unfolding Kept refuse
refuse-Kept all_works d e new = (inl refl, (inl refl, tt))
refuse-Kept lock_fails d e new = (inl refl, tt)
refuse-Kept open_fails d e new = (inl refl, (inl refl, tt))
refuse-Kept write_fails d e new = (inl refl, (inl refl, tt))
refuse-Kept rename_fails d e new = (inl refl, (inl refl, tt))
refuse-Kept removal_fails d e new = (inl refl, tt)

commit-Kept :
    (failure : Failure) (d : Disk) (r : Journal)
    → Kept d.journal (some (written r)) (commit failure d r).1
unfolding Kept commit
commit-Kept all_works d r = (inl refl, (inl refl, (inl refl, (inr refl, (inr refl, tt)))))
commit-Kept lock_fails d r = (inl refl, tt)
commit-Kept open_fails d r = (inl refl, tt)
commit-Kept write_fails d r = (inl refl, (inl refl, tt))
commit-Kept rename_fails d r = (inl refl, (inl refl, (inl refl, (inl refl, tt))))
commit-Kept removal_fails d r = (inl refl, (inl refl, (inl refl, (inr refl, tt))))

Kept-Moved :
    (h : Host) (n : ℕ) (old new : Option JournalFile) (d : Disk) (trace : List Disk)
    → Moved h old new
    → (d.journal ≡ old) ⊎ (d.journal ≡ new)
    → Kept old new trace
    → Moved h old (reached n d trace).journal
unfolding Kept reached
Kept-Moved h zero old new d trace moved (inl same) kept = rw same (stays old)
Kept-Moved h zero old new d trace moved (inr same) kept = rw same moved
Kept-Moved h (suc n) old new d [] moved (inl same) kept = rw same (stays old)
Kept-Moved h (suc n) old new d [] moved (inr same) kept = rw same moved
Kept-Moved h (suc n) old new d (next ∷ trace) moved at (first, rest) =
    Kept-Moved h n old new next trace moved first rest

transition-Moved :
    (h : Host) (failure : Failure) (n : ℕ) (d : Disk) (x : Result JournalError Journal)
    → ((r : Journal) → x ≡ ok r → Moved h d.journal (some (written r)))
    → Moved h d.journal (reached n d (transition failure d x).1).journal
transition-Moved h failure n d (err e) moves =
    Kept-Moved h n d.journal d.journal d (refuse failure d e).1 (stays d.journal) (inl refl)
      (refuse-Kept failure d e d.journal)
transition-Moved h failure n d (ok r) moves =
    Kept-Moved h n d.journal (some (written r)) d (commit failure d r).1 (moves r refl) (inl refl)
      (commit-Kept failure d r)

pub reached_nothing : (n : ℕ) (d : Disk) → reached n d [] ≡ d
unfolding reached
reached_nothing zero d = refl
reached_nothing (suc n) d = refl

-- A change that is refused before its first step, and one that begins.
pub advance_cases :
    (h : Host) (expected next : String) (details : Details) (failure : Failure) (d : Disk)
    → ((e : JournalError) × (advance_migration_journal h expected next details failure d
          ≡ (err e, [])))
      ⊎ ((d.lock ≡ false)
          × (advance_migration_journal h expected next details failure d
              ≡ transition failure d
                  (bind_result (read_migration_journal h d) (decide h expected next details))))
unfolding advance_migration_journal
advance_cases h expected next details failure d = elim (Bool-cases h.is_root) [
  | inr no_root ↦ inl (root_required, rw no_root refl)
  | inl root ↦ elim (Bool-cases h.trusted_parent) [
    | inr untrusted ↦ inl (untrusted_parent, rw (root, untrusted) refl)
    | inl trusted ↦ elim (Bool-cases d.lock) [
      | inl locked ↦ inl (eexist, rw (root, trusted, locked) refl)
      | inr free ↦ inr (
        free,
        if_false (not h.is_root) _ _ (ap not root)
            ∙ if_false (not h.trusted_parent) _ _ (ap not trusted)
            ∙ if_false d.lock _ _ free,
      )
    ]
  ]
]

pub advance-Moved :
    (h : Host) (expected next : String) (details : Details) (failure : Failure) (n : ℕ) (d : Disk)
    → Moved h d.journal
        (reached n d (advance_migration_journal h expected next details failure d).1).journal
advance-Moved h expected next details failure n d =
    elim (advance_cases h expected next details failure d) [
      | inl (x, nothing) ↦ rw (nothing, reached_nothing n d) (stays d.journal)
      | inr (free, e) ↦ rw e (
          transition-Moved h failure n d
            (bind_result (read_migration_journal h d) (decide h expected next details))
            (decide-Moved h expected next details d))
    ]

created-Moved :
    (h : Host) (n : ℕ) (d : Disk) (r : Journal)
    → d.journal ≡ none
    → position r.phase ≡ 1
    → is_valid h.path_ok r ≡ true
    → Moved h d.journal
        (reached n d (
          record d { journal = some unwritten }
          ∷ record d { journal = some (written r) }
          ∷ [])).journal
unfolding reached
created-Moved h zero d r empty first valid = stays d.journal
created-Moved h (suc zero) d r empty first valid =
    subst (λ o. Moved h o (some unwritten)) (sym empty) begins
created-Moved h (suc (suc zero)) d r empty first valid =
    subst (λ o. Moved h o (some (written r))) (sym empty) (begun r first valid)
created-Moved h (suc (suc (suc n))) d r empty first valid =
    subst (λ o. Moved h o (some (written r))) (sym empty) (begun r first valid)

create-Moved :
    (h : Host) (n : ℕ) (d : Disk) (x : Result JournalError Journal)
    → ((r : Journal) → x ≡ ok r → (position r.phase ≡ 1) × (is_valid h.path_ok r ≡ true))
    → Moved h d.journal (reached n d (create_journal d x).1).journal
unfolding reached
create-Moved h n d (err e) first = rw (reached_nothing n d) (stays d.journal)
create-Moved h n d (ok r) first = elim (Option-cases d.journal) [
  | inr (file, there) ↦
      subst
        (λ (t : Result JournalError Journal × List Disk).
          Moved h d.journal (reached n d t.1).journal)
        (sym (if_true (is_some d.journal) _ _ (ap is_some there)))
        (subst (λ x. Moved h d.journal x.journal) (sym (reached_nothing n d)) (stays d.journal))
  | inl empty ↦
      subst
        (λ (t : Result JournalError Journal × List Disk).
          Moved h d.journal (reached n d t.1).journal)
        (sym (if_false (is_some d.journal) _ _ (ap is_some empty)))
        (created-Moved h n d r empty (first r refl).0 (first r refl).1)
]

gathered_ok :
    (h : Host) (b : Beginning) (evidence : Option String)
    (activity : Option (List (String × String))) (r : Journal)
    → gathered h b evidence activity ≡ ok r
    → (position r.phase ≡ 1) × (is_valid h.path_ok r ≡ true)
unfolding position
gathered_ok h b none activity r e = absurd (cc e)
gathered_ok h b (some evidence) none r e = absurd (cc e)
gathered_ok h b (some evidence) (some activity) r e =
    let accepted : validate h (first_journal b evidence activity) ≡ ok r = ground arith in
    let (is_first, valid) = validate_ok h (first_journal b evidence activity) r accepted in
    rw is_first (refl, valid)

pub start-Moved :
    (h : Host) (b : Beginning) (n : ℕ) (d : Disk)
    → Moved h d.journal (reached n d (start_migration_journal h b d).1).journal
unfolding start_migration_journal
start-Moved h b n d = elim (Bool-cases h.is_root) [
  | inr no_root ↦ rw (no_root, reached_nothing n d) (stays d.journal)
  | inl root ↦ elim (Bool-cases h.trusted_parent) [
    | inr untrusted ↦ rw (root, untrusted, reached_nothing n d) (stays d.journal)
    | inl trusted ↦
        subst
          (λ (t : Result JournalError Journal × List Disk).
            Moved h d.journal (reached n d t.1).journal)
          (sym (
            if_false (not h.is_root) _ _ (ap not root)
            ∙ if_false (not h.trusted_parent) _ _ (ap not trusted)))
          (create-Moved h n d (gathered h b b.evidence b.activity)
            (gathered_ok h b b.evidence b.activity))
  ]
]
