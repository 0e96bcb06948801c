-- ===== src/Checkout/Journal.antt =====
-- The journal of a checkout, crates/sync-core/src/checkout.rs: its data and its validation. A path is the
-- list of its components, a UUID its 128-bit number.
use codex_session_sync.Prelude.{
  Bool, List, Option, Result, String, [], ensure, err, false, none, not, ok, some, true, ℕ, ◌-◌,
  ◌==◌, ◌>>◌, ◌^◌, ◌∷◌, nat_eq, string_eq, option_eq,
}
use codex_session_sync.Protocol.Sha256.{codes, validate_sha256}
use codex_session_sync.Metadata.Names.{trim, is_empty}
use Prim.Native.Nat.{◌/◌, ◌%◌}

abbrev pub FilePath : Type 0
FilePath = List String

pub data CheckoutStatus : Type 0 where
  preparing backed_up applying validating local_applied completed rolled_back recovery_required :
      CheckoutStatus

pub record CheckoutDatabaseBackup : Type 0 where
  pub target : FilePath
  pub backup : FilePath

pub record CheckoutDirectorySwap : Type 0 where
  pub live : FilePath
  pub staged : FilePath
  pub backup : FilePath
  pub original_existed : Bool

pub record CheckoutFileSwap : Type 0 where
  pub swap : CheckoutDirectorySwap
  pub open swap use *
  pub expected_sha256 : String

pub record CheckoutTrackingUpdate : Type 0 where
  pub remote_id : ℕ
  pub namespace_id : ℕ
  pub expected_generation : Option ℕ
  pub integrated_head : Option String
  pub activate_namespace : Bool

-- What rolling back could not do, one message each.
pub data Failure : Type 0 where
  failed_state_exists not_preserved not_restored database_not_restored : FilePath → Failure

pub data CheckoutError : Type 0 where
  io_error not_confirmed_closed scan_warnings no_database : CheckoutError
  backup_path_exists : FilePath → CheckoutError
  no_file_name hash_mismatch thread_mismatch : CheckoutError
  unfinished_checkout : String → CheckoutError
  unsupported_schema no_operation_id no_repository_root invalid_remote invalid_namespace :
      CheckoutError
  invalid_hash : String → CheckoutError
  generation_at_limit not_reconciled state_too_large not_rolled_back interrupted : CheckoutError

-- The text of the field `error`: what went wrong, and what could then not be undone.
pub record Message : Type 0 where
  pub cause : Option CheckoutError
  pub failures : List Failure

pub record CheckoutJournal : Type 0 where
  pub schema_version : ℕ
  pub operation_id : String
  pub target_codex_home : FilePath
  pub repository_root : FilePath
  pub status : CheckoutStatus
  pub updated_at : String
  pub database_backups : List CheckoutDatabaseBackup
  pub directory_swaps : List CheckoutDirectorySwap
  pub file_swaps : List CheckoutFileSwap
  pub expected_thread_hashes : List (String × String)
  pub tracking_update : Option CheckoutTrackingUpdate
  pub retain_recovery_backup : Bool
  pub failure : Option Message

abbrev pub checkout_journal_schema_version : ℕ
checkout_journal_schema_version = 4

-- `Uuid::get_version_num`, the four bits that start at the 76th.
abbrev pub version_num : ℕ → ℕ
version_num id = id / 2 ^ 76 % 16

unfoldable pub validate_head : Option String → Result CheckoutError (Unit {0})
validate_head none = ok tt
validate_head (some head) = ensure (validate_sha256 head) (invalid_hash head)

unfoldable pub validate_tracking_update : CheckoutTrackingUpdate → Result CheckoutError (Unit {0})
unfolding validate_head
validate_tracking_update update = do
  ensure (version_num update.remote_id == 7) invalid_remote
  ensure (version_num update.namespace_id == 7) invalid_namespace
  validate_head update.integrated_head
  ensure (not (update.expected_generation == some (2 ^ 64 - 1))) generation_at_limit

unfoldable pub validate_update :
    FilePath → Option CheckoutTrackingUpdate → Result CheckoutError (Unit {0})
validate_update root none = ok tt
validate_update [] (some update) = err no_repository_root
validate_update (part ∷ parts) (some update) = validate_tracking_update update

unfoldable pub validate_hashes : List CheckoutFileSwap → Result CheckoutError (Unit {0})
validate_hashes [] = ok tt
validate_hashes (s ∷ ss) =
    ensure (validate_sha256 s.expected_sha256) (invalid_hash s.expected_sha256)
    >> validate_hashes ss

module _ (is_whitespace : ℕ → Bool) where
  unfoldable pub validate_checkout_journal : CheckoutJournal → Result CheckoutError (Unit {0})
  unfolding validate_update validate_hashes
  validate_checkout_journal journal = do
    ensure (journal.schema_version == checkout_journal_schema_version) unsupported_schema
    ensure (not (is_empty (trim is_whitespace (codes journal.operation_id)))) no_operation_id
    validate_update journal.repository_root journal.tracking_update
    validate_hashes journal.file_swaps

-- The statuses in which the live files may have been touched.
abbrev pub local_write_started : CheckoutStatus → Bool
local_write_started preparing = false
local_write_started backed_up = false
local_write_started applying = true
local_write_started validating = true
local_write_started local_applied = true
local_write_started completed = false
local_write_started rolled_back = false
local_write_started recovery_required = true

abbrev pub is_finished : CheckoutStatus → Bool
is_finished preparing = false
is_finished backed_up = false
is_finished applying = false
is_finished validating = false
is_finished local_applied = false
is_finished completed = true
is_finished rolled_back = true
is_finished recovery_required = false
