-- ===== src/Tests/Release.antt =====
-- The journal of a migration at concrete inputs.
use dp_beget_bridge.Base.{
  ok, err, find, String, ◌≡◌, refl, true, false, not, none, some, List, [], ◌∷◌, ◌==◌,
}
use dp_beget_bridge.Release.Records.{
  transition_rejected, Host, Journal, Disk, position, activity_ok, fields_ok, validate,
  read_migration_journal,
}
use dp_beget_bridge.Release.Journal.{
  Details, all_works, decide, written, advance_migration_journal, Beginning, first_journal,
  start_migration_journal,
}
use dp_beget_bridge.Release.History.{reached, advanced, here, then_step}
use dp_beget_bridge.Release.Migrations.{Later, History-Later, locked_forever}

abbrev host : Host
host = record { is_root = true; trusted_parent = true; path_ok = λ path. not (path == "") }

abbrev active_units : List (String × String)
active_units =
    ("dp-beget-session-host.service", "active")
    ∷ ("dp-beget-agent.service", "active")
    ∷ ("dp-beget-mcp.service", "active")
    ∷ ("dp-beget-mcp-oauth-spike.service", "active")
    ∷ ("dp-beget-oauth-proxy.socket", "active")
    ∷ ("dp-beget-oauth-proxy.service", "inactive")
    ∷ ("dp-beget-tunnel.service", "active")
    ∷ []

abbrev beginning : Beginning
beginning = record {
  transaction_id = "01234567-89ab-cdef-0123-456789abcdef";
  old_commit = "0123456789abcdef0123456789abcdef01234567";
  new_commit = "0123456789abcdef0123456789abcdef01234567";
  artifact_sha256 = "0123456789abcdef0123456789abcdef0123456789abcdef0123456789abcdef";
  backup_path = "/backup";
  evidence = some "0123456789abcdef0123456789abcdef0123456789abcdef0123456789abcdef";
  activity = some active_units;
}

abbrev empty_disk : Disk
empty_disk = record { journal = none; lock = false; temporaries = [] }

abbrev prepared : Journal
prepared =
    first_journal beginning "0123456789abcdef0123456789abcdef0123456789abcdef0123456789abcdef"
      active_units

abbrev prepared_disk : Disk
prepared_disk = record empty_disk { journal = some (written prepared) }

start_writes :
    reached 2 empty_disk (start_migration_journal host beginning empty_disk).1 ≡ prepared_disk
unfolding start_migration_journal activity_ok validate fields_ok position find reached
start_writes = refl

abbrev no_details : Details
no_details = record { snapshot_path = none; snapshot_sha256 = none; other_keys = false }

abbrev guarded : Journal
guarded = record prepared { phase = "guarded" }

advance_writes :
    (advance_migration_journal host "prepared" "guarded" no_details all_works prepared_disk).0
    ≡ ok guarded
unfolding advance_migration_journal read_migration_journal decide activity_ok validate fields_ok
    position find
advance_writes = refl

-- a phase cannot be left out
phase_skipped :
    (advance_migration_journal host "prepared" "quiesced" no_details all_works prepared_disk).0
    ≡ err transition_rejected
unfolding advance_migration_journal read_migration_journal decide activity_ok validate fields_ok
    position find
phase_skipped = refl

-- an advance that ends before it has removed the lock
abbrev killed_disk : Disk
killed_disk = record prepared_disk { lock = true; temporaries = some guarded ∷ [] }

History-Later_example :
    Later host prepared
      (reached 4 prepared_disk
        (advance_migration_journal host "prepared" "guarded" no_details all_works
          prepared_disk).1).journal
History-Later_example =
    History-Later host prepared_disk
      (reached 4 prepared_disk
        (advance_migration_journal host "prepared" "guarded" no_details all_works prepared_disk).1)
      prepared refl
      (then_step here (advanced "prepared" "guarded" no_details all_works 4 prepared_disk))

locked_forever_example :
    reached 4 killed_disk
      (advance_migration_journal host "prepared" "guarded" no_details all_works killed_disk).1
    ≡ killed_disk
locked_forever_example =
    locked_forever host killed_disk
      (reached 4 killed_disk
        (advance_migration_journal host "prepared" "guarded" no_details all_works killed_disk).1)
      (written prepared) refl refl
      (then_step here (advanced "prepared" "guarded" no_details all_works 4 killed_disk))
