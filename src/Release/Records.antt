-- ===== src/Release/Records.antt =====
-- scripts/release/migration-journal.mjs: the file that records how far a migration has come, its checks
-- and its reading.
use dp_beget_bridge.Base.{
  ltb, leb, eqb, if◌then◌else◌, length, all, is_digit, matches_class, Result, ok, err, bind_result,
  find, ℕ, suc, String, Bool, false, not, ◌&&◌, ◌||◌, Option, none, some, List, [], ◌∷◌, ◌==◌,
}

pub data JournalError : Type 0 where
  root_required untrusted_parent untrusted_journal invalid_journal : JournalError
  invalid_activity transition_rejected snapshot_required backup_invalid backup_changed :
      JournalError
  enoent eexist io_error : JournalError

-- What the runtime and the file system say: whether the process is root, whether the parent is a
-- directory of root's, and which paths are absolute and normalized.
pub record Host : Type 0 where
  pub is_root : Bool
  pub trusted_parent : Bool
  pub path_ok : String → Bool

pub record Journal : Type 0 where
  pub transaction_id : String
  pub phase : String
  pub old_commit : String
  pub new_commit : String
  pub artifact_sha256 : String
  pub snapshot_path : String
  pub snapshot_sha256 : String
  pub backup_path : String
  pub backup_sha256 : String
  pub service_activity : List (String × String)

-- `content` is `none` where the text is no JSON of this format with these keys; `trusted` is the test of
-- its owner, its mode, its size and its links.
pub record JournalFile : Type 0 where
  pub trusted : Bool
  pub content : Option Journal

-- `temporaries` holds the temporary files, `none` for one whose text is not complete.
pub record Disk : Type 0 where
  pub journal : Option JournalFile
  pub lock : Bool
  pub temporaries : List (Option Journal)

abbrev pub phases : List String
phases =
    "prepared" ∷ "guarded" ∷ "ingress-closed" ∷ "quiesced" ∷ "snapshotted" ∷ "switched"
    ∷ "locally-healthy" ∷ "ingress-open" ∷ "completed" ∷ []

-- PHASES.indexOf(phase) + 1
abbrev pub position_in : List String → String → ℕ
position_in [] phase = 0
position_in (p ∷ ps) phase =
    let rest = position_in ps phase in if p == phase then 1 else if eqb rest 0 then 0 else suc rest

unfoldable pub position : String → ℕ
position phase = position_in phases phase

abbrev pub is_hex : ℕ → Bool
is_hex c = is_digit c || (leb b'a' c && leb c b'f')

abbrev pub is_sha256 : String → Bool
is_sha256 = matches_class is_hex 64 64

abbrev pub is_commit : String → Bool
is_commit = matches_class is_hex 40 40

abbrev pub legacy_units : List String
legacy_units =
    "dp-beget-session-host.service" ∷ "dp-beget-agent.service" ∷ "dp-beget-mcp.service"
    ∷ "dp-beget-mcp-oauth-spike.service" ∷ "dp-beget-oauth-proxy.socket"
    ∷ "dp-beget-oauth-proxy.service" ∷ "dp-beget-tunnel.service" ∷ []

abbrev pub unit_ok : String → Option (String × String) → Bool
unit_ok unit none = false
unit_ok unit (some entry) =
    entry.1 == "active" || (entry.1 == "inactive" && unit == "dp-beget-oauth-proxy.service")

-- the keys of an object are different, so that seven with all units among them are the units
unfoldable pub activity_ok : List (String × String) → Bool
activity_ok activity =
    eqb (length activity) 7
    && all (λ unit. unit_ok unit (find (λ entry. entry.0 == unit) activity)) legacy_units

abbrev pub snapshot_ok : (String → Bool) → Journal → Bool
snapshot_ok path_ok r =
    if ltb (position r.phase) (position "snapshotted")
    then r.snapshot_path == "" && r.snapshot_sha256 == ""
    else not (r.snapshot_path == "") && not (r.snapshot_sha256 == "")

unfoldable pub fields_ok : (String → Bool) → Journal → Bool
unfolding position
fields_ok path_ok r =
    not (eqb (position r.phase) 0)
    && matches_class (λ c. is_hex c || eqb c b'-') 36 36 r.transaction_id
    && is_sha256 r.artifact_sha256
    && is_commit r.old_commit
    && is_commit r.new_commit
    && (r.snapshot_path == "" || path_ok r.snapshot_path)
    && (r.snapshot_sha256 == "" || is_sha256 r.snapshot_sha256)
    && snapshot_ok path_ok r
    && path_ok r.backup_path
    && is_sha256 r.backup_sha256

abbrev pub is_valid : (String → Bool) → Journal → Bool
is_valid path_ok r = fields_ok path_ok r && activity_ok r.service_activity

unfoldable pub validate : Host → Journal → Result JournalError Journal
validate h r =
    if fields_ok h.path_ok r
    then (if activity_ok r.service_activity then ok r else err invalid_activity)
    else err invalid_journal

-- The check that the unit backup is still the one of the journal; `evidence` is what its own check gives.
abbrev pub same_evidence : Journal → Option String → Result JournalError String
same_evidence r none = err backup_invalid
same_evidence r (some evidence) =
    if evidence == r.backup_sha256 then ok evidence else err backup_changed

unfoldable pub verify_journal_unit_backup :
    Host → Option String → Journal → Result JournalError String
unfolding validate
verify_journal_unit_backup h evidence r =
    bind_result (validate h r) (λ valid. same_evidence r evidence)

abbrev pub parsed : Host → Option Journal → Result JournalError Journal
parsed h none = err invalid_journal
parsed h (some r) = validate h r

abbrev pub read_file : Host → Option JournalFile → Result JournalError Journal
read_file h none = err enoent
read_file h (some file) = if file.trusted then parsed h file.content else err untrusted_journal

unfoldable pub read_migration_journal : Host → Disk → Result JournalError Journal
read_migration_journal h d =
    if h.trusted_parent then read_file h d.journal else err untrusted_parent
