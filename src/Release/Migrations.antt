-- ===== src/Release/Migrations.antt =====
-- scripts/release/migration-journal.mjs: a migration goes forward, phase by phase, and its lock stops it
-- where a process has ended in between.
use mathlib.Core.Option.{none-ne-some, some-injective}
use dp_beget_bridge.Base.{
  Bool-cases, if_true, if_false, is_some, Result, ok, err, ℕ, ◌≤◌, String, ◌≡◌, refl, sym, ap, ◌∙◌,
  ◌⊎◌, inl, inr, true, false, not, Option, none, some, List, arith,
}
use dp_beget_bridge.Release.Records.{
  JournalError, io_error, Host, Journal, JournalFile, Disk, position, is_valid,
}
use dp_beget_bridge.Release.Journal.{
  Details, written, Failure, all_works, advance_migration_journal, Beginning, create_journal,
  gathered, start_migration_journal,
}
use dp_beget_bridge.Release.History.{
  reached, Step, advanced, started, History, here, then_step, SameMigration, Moved, stays, advances,
  begins, begun, reached_nothing, advance_cases, advance-Moved, start-Moved,
}

Step-Moved : {h : Host} {d d' : Disk} → Step h d d' → Moved h d.journal d'.journal
Step-Moved {h} (advanced expected next details failure n d) =
    advance-Moved h expected next details failure n d
Step-Moved {h} (started b n d) = start-Moved h b n d

-- A journal after another one of the same migration.
pub record Later (h : Host) (r : Journal) (o : Option JournalFile) : Type 0 where
  pub journal : Journal
  pub stored : o ≡ some (written journal)
  pub forward : position r.phase ≤ position journal.phase
  pub same : SameMigration r journal
  pub valid : is_valid h.path_ok r ≡ true → is_valid h.path_ok journal ≡ true

content_of : Option JournalFile → Option Journal
content_of none = none
content_of (some file) = file.content

Moved-on :
    (h : Host) (r : Journal) (o o' : Option JournalFile) → Moved h o o' → Later h r o → Later h r o'
unfolding content_of
Moved-on h r o o' (stays _) later = later
Moved-on h r o o' (advances was now follows same valid) later =
    let is_was : was ≡ later.journal = some-injective _ _ (ap content_of later.stored) in
    record {
      journal = now;
      stored = refl;
      forward =
          omega (arith, later.forward, follows, ap (λ (j : Journal). position j.phase) is_was);
      same =
          same
          ∙ ap
              (λ (j : Journal). record j {
                phase = now.phase;
                snapshot_path = now.snapshot_path;
                snapshot_sha256 = now.snapshot_sha256;
              })
              (is_was ∙ later.same);
      valid = λ k. valid;
    }
Moved-on h r o o' begins later = absurd (none-ne-some _ later.stored)
Moved-on h r o o' (begun now first valid) later = absurd (none-ne-some _ later.stored)

-- In every history of starts and advances, each of which may end at any of its steps, the journal of a
-- migration stays that of this migration, keeps valid, and its phase never goes back.
pub History-Later :
    (h : Host) (d d' : Disk) (r : Journal)
    → d.journal ≡ some (written r)
    → History h d d'
    → Later h r d'.journal
History-Later h d d' r e here = record {
  journal = r;
  stored = e;
  forward = omega arith;
  same = refl;
  valid = λ k. k;
}
History-Later h d d' r e (then_step {d1} history step) =
    Moved-on h r d1.journal d'.journal (Step-Moved step) (History-Later h d d1 r e history)

locked_advance :
    (h : Host) (expected next : String) (details : Details) (failure : Failure) (n : ℕ) (d : Disk)
    → d.lock ≡ true
    → reached n d (advance_migration_journal h expected next details failure d).1 ≡ d
locked_advance h expected next details failure n d locked =
    elim (advance_cases h expected next details failure d) [
      | inl (x, nothing) ↦ rw nothing (reached_nothing n d)
      | inr (free, e) ↦ absurd (let bad = sym locked ∙ free in cc)
    ]

create_again :
    (n : ℕ) (d : Disk) (file : JournalFile) (x : Result JournalError Journal)
    → d.journal ≡ some file
    → reached n d (create_journal d x).1 ≡ d
create_again n d file (err e) there = reached_nothing n d
create_again n d file (ok r) there =
    ap (λ (t : Result JournalError Journal × List Disk). reached n d t.1)
      (if_true (is_some d.journal) _ _ (ap is_some there))
    ∙ reached_nothing n d

start_again :
    (h : Host) (b : Beginning) (n : ℕ) (d : Disk) (file : JournalFile)
    → d.journal ≡ some file
    → reached n d (start_migration_journal h b d).1 ≡ d
unfolding start_migration_journal
start_again h b n d file there = elim (Bool-cases h.is_root) [
  | inr no_root ↦ rw no_root (reached_nothing n d)
  | inl root ↦ elim (Bool-cases h.trusted_parent) [
    | inr untrusted ↦ rw (root, untrusted) (reached_nothing n d)
    | inl trusted ↦
        ap (λ (t : Result JournalError Journal × List Disk). reached n d t.1)
          (if_false (not h.is_root) _ _ (ap not root)
            ∙ if_false (not h.trusted_parent) _ _ (ap not trusted))
        ∙ create_again n d file (gathered h b b.evidence b.activity) there
  ]
]

step_locked :
    {h : Host} {d d' : Disk} (file : JournalFile)
    → Step h d d'
    → d.lock ≡ true
    → d.journal ≡ some file
    → d' ≡ d
step_locked {h} file (advanced expected next details failure n d) locked there =
    locked_advance h expected next details failure n d locked
step_locked {h} file (started b n d) locked there = start_again h b n d file there

-- Where the lock is there and a journal is on the disk, as after a process that ended between taking the
-- lock and removing it, no start and no advance changes the disk any more: the lock has to be removed by
-- hand.
pub locked_forever :
    (h : Host) (d d' : Disk) (file : JournalFile)
    → d.lock ≡ true
    → d.journal ≡ some file
    → History h d d'
    → d' ≡ d
locked_forever h d d' file locked there here = refl
locked_forever h d d' file locked there (then_step {d1} history step) =
    let before = locked_forever h d d1 file locked there history in
    step_locked file step (ap (λ (x : Disk). x.lock) before ∙ locked)
      (ap (λ (x : Disk). x.journal) before ∙ there)
    ∙ before

-- What a call that comes to its end leaves: the record, or the disk as it was, or the lock where the file
-- system has failed.
unfoldable pub Completed : Failure → Disk → Result JournalError Journal → Disk → Type 0
Completed failure d (ok r) after = after ≡ record d { lock = false; journal = some (written r) }
Completed all_works d (err e) after = after ≡ d
Completed failure d (err e) after = (after ≡ d) ⊎ ((e ≡ io_error) × (after.lock ≡ true))
