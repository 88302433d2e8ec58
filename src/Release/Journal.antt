-- ===== src/Release/Journal.antt =====
-- scripts/release/migration-journal.mjs: `startMigrationJournal` and `advanceMigrationJournal`. A change of
-- the journal is a list of states of the disk, one after each step that changes the disk: a process that is
-- killed, or whose next step fails, leaves one of them.
use dp_beget_bridge.Base.{
  eqb, if◌then◌else◌, is_some, Result, ok, err, bind_result, suc, String, Bool, true, false, not,
  ◌&&◌, ◌||◌, Option, none, some, List, [], ◌∷◌, ◌==◌,
}
use dp_beget_bridge.Release.Records.{
  JournalError, root_required, untrusted_parent, invalid_activity, transition_rejected,
  snapshot_required, backup_invalid, eexist, io_error, Host, Journal, JournalFile, Disk, position,
  activity_ok, validate, read_migration_journal,
}

-- `details`, with whether it has other keys
pub record Details : Type 0 where
  pub snapshot_path : Option String
  pub snapshot_sha256 : Option String
  pub other_keys : Bool

abbrev pub given : Option String → String → String
given none old = old
given (some new) old = new

abbrev pub is_given : Option String → Bool
is_given none = false
is_given (some text) = not (text == "")

-- { ...previous, ...details, phase: nextPhase }
abbrev pub next_journal : Journal → Details → String → Journal
next_journal previous details phase = record previous {
  phase = phase;
  snapshot_path = given details.snapshot_path previous.snapshot_path;
  snapshot_sha256 = given details.snapshot_sha256 previous.snapshot_sha256;
}

abbrev pub detail_path_ok : (String → Bool) → Option String → Bool
detail_path_ok path_ok none = true
detail_path_ok path_ok (some path) = path_ok path

unfoldable pub decide : Host → String → String → Details → Journal → Result JournalError Journal
decide h expected next details previous =
    if not (previous.phase == expected)
      || not (eqb (position next) (suc (position expected)))
      || details.other_keys
      || not (detail_path_ok h.path_ok details.snapshot_path)
    then err transition_rejected
    else if next == "snapshotted"
        && (not (is_given details.snapshot_path) || not (is_given details.snapshot_sha256))
    then err snapshot_required
    else validate h (next_journal previous details next)

abbrev pub written : Journal → JournalFile
written r = record { trusted = true; content = some r }

-- Which call to the file system fails in an advance, if one does: the writing of the lock, the opening of
-- the temporary file, its writing, its renaming, or what comes after the renaming or a refusal (the flush
-- of the directory and the removal of the lock).
pub data Failure : Type 0 where
  all_works lock_fails open_fails write_fails rename_fails removal_fails : Failure

-- The catch around the checks: the lock is removed, and the error thrown on.
unfoldable pub refuse : Failure → Disk → JournalError → Result JournalError Journal × List Disk
refuse lock_fails d e = (err io_error, record d { lock = true } ∷ [])
refuse removal_fails d e = (err io_error, record d { lock = true } ∷ [])
refuse _ d e = (err e, record d { lock = true } ∷ record d { lock = false } ∷ [])

abbrev pub opened : Disk → Disk
opened d = record d { lock = true; temporaries = none ∷ d.temporaries }

abbrev pub complete : Disk → Journal → Disk
complete d r = record d { lock = true; temporaries = some r ∷ d.temporaries }

abbrev pub renamed : Disk → Journal → Disk
renamed d r = record d { lock = true; journal = some (written r) }

-- After the checks: a temporary file is written, renamed to the journal, and the lock is removed. Where
-- the renaming fails, the temporary file is removed; where a call fails, the lock stays.
unfoldable pub commit : Failure → Disk → Journal → Result JournalError Journal × List Disk
commit lock_fails d r = (err io_error, record d { lock = true } ∷ [])
commit open_fails d r = (err io_error, record d { lock = true } ∷ [])
commit write_fails d r = (err io_error, record d { lock = true } ∷ opened d ∷ [])
commit rename_fails d r = (
  err io_error,
  record d { lock = true } ∷ opened d ∷ complete d r ∷ record d { lock = true } ∷ [],
)
commit removal_fails d r =
    (err io_error, record d { lock = true } ∷ opened d ∷ complete d r ∷ renamed d r ∷ [])
commit _ d r = (
  ok r,
  record d { lock = true }
      ∷ opened d
      ∷ complete d r
      ∷ renamed d r
      ∷ record d { lock = false; journal = some (written r) }
      ∷ [],
)

-- From the lock on.
abbrev pub transition :
    Failure → Disk → Result JournalError Journal → Result JournalError Journal × List Disk
transition failure d (err e) = refuse failure d e
transition failure d (ok r) = commit failure d r

unfoldable pub advance_migration_journal :
    Host → String → String → Details → Failure → Disk → Result JournalError Journal × List Disk
unfolding refuse commit
advance_migration_journal h expected next details failure d =
    if not h.is_root
    then (err root_required, [])
    else if not h.trusted_parent
    then (err untrusted_parent, [])
    else if d.lock
    then (err eexist, [])
    else transition failure d
        (bind_result (read_migration_journal h d) (decide h expected next details))

-- The arguments of a start, with the identifier that it draws; `evidence` is the digest that the check of
-- the unit backup gives, and `activity` the inventory of the services; `none` where these throw.
pub record Beginning : Type 0 where
  pub transaction_id : String
  pub old_commit : String
  pub new_commit : String
  pub artifact_sha256 : String
  pub backup_path : String
  pub evidence : Option String
  pub activity : Option (List (String × String))

abbrev pub first_journal : Beginning → String → List (String × String) → Journal
first_journal b evidence activity = record {
  transaction_id = b.transaction_id;
  phase = "prepared";
  old_commit = b.old_commit;
  new_commit = b.new_commit;
  artifact_sha256 = b.artifact_sha256;
  snapshot_path = "";
  snapshot_sha256 = "";
  backup_path = b.backup_path;
  backup_sha256 = evidence;
  service_activity = activity;
}

-- O_CREAT with O_EXCL, then the text
abbrev pub create_journal :
    Disk → Result JournalError Journal → Result JournalError Journal × List Disk
create_journal d (err e) = (err e, [])
create_journal d (ok r) = if is_some d.journal then (err eexist, []) else (
  ok r,
  record d { journal = some (record { trusted = true; content = none }) }
      ∷ record d { journal = some (written r) }
      ∷ [],
)

abbrev pub gathered :
    Host → Beginning → Option String → Option (List (String × String)) → Result JournalError Journal
gathered h b none activity = err backup_invalid
gathered h b (some evidence) none = err invalid_activity
gathered h b (some evidence) (some activity) =
    if activity_ok activity
    then validate h (first_journal b evidence activity)
    else err invalid_activity

unfoldable pub start_migration_journal :
    Host → Beginning → Disk → Result JournalError Journal × List Disk
start_migration_journal h b d =
    if not h.is_root
    then (err root_required, [])
    else if not h.trusted_parent
    then (err untrusted_parent, [])
    else create_journal d (gathered h b b.evidence b.activity)
