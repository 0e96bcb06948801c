-- ===== src/Checkout/Rollback.antt =====
-- `rollback_checkout` of crates/sync-core/src/checkout.rs: what it moves back, and what it reports.
use codex_session_sync.Prelude.{
  Bool, List, Option, Result, String, [], err, if◌then◌else◌, map, none, not, ok, ok_or, some, ◌&&◌,
  ◌++◌, ◌||◌, ◌∷◌, nat_eq, string_eq, option_eq, list_eq,
}
use codex_session_sync.Checkout.Apply.{write_checkout_journal}
use codex_session_sync.Checkout.Machine.{Machine}
use codex_session_sync.Checkout.Journal.{
  no_file_name, not_restored, not_preserved, failed_state_exists, not_rolled_back,
  database_not_restored, local_write_started, recovery_required, rolled_back, CheckoutStatus,
  CheckoutFileSwap, Failure, CheckoutError, CheckoutDirectorySwap, FilePath, CheckoutDatabaseBackup,
  CheckoutJournal,
}
use codex_session_sync.Checkout.World.{
  rename, lift, refuse, hold, pause, copy, remove, give, exists, attempt, held_journal, Action,
  collect, ◌>>=◌, ◌>>◌,
}
use mathlib.Core.List.{reverse}

unfoldable pub file_name : FilePath → Option String
file_name [] = none
file_name (p ∷ []) = some p
file_name (p ∷ q ∷ ps) = file_name (q ∷ ps)

unfoldable pub report_unless : Result CheckoutError (Unit {0}) → Failure → List Failure
report_unless (ok u) failure = []
report_unless (err e) failure = failure ∷ []

-- The live entry is moved to the failed states, unless one of its name is there.
unfoldable pub preserve_at : FilePath → FilePath → Action (List Failure)
unfolding report_unless
preserve_at failed live = do
  there ← exists failed
  if there
      then give (failed_state_exists failed ∷ [])
      else (attempt (rename live failed) >>= λ moved.
          give (report_unless moved (not_preserved live)))

unfoldable pub preserve : Bool → FilePath → FilePath → Action (List Failure)
unfolding preserve_at
preserve swap_started failed_root live = do
  there ← exists live
  if swap_started && there
      then (lift (ok_or (file_name live) no_file_name) >>= λ name.
          preserve_at (failed_root ++ (name ∷ [])) live)
      else give []

unfoldable pub put_back : Bool → CheckoutDirectorySwap → Action (List Failure)
unfolding report_unless
put_back swap_started swap = do
  backup ← exists swap.backup
  live ← exists swap.live
  if swap_started && (backup && not live)
      then (attempt (rename swap.backup swap.live) >>= λ moved.
          give (report_unless moved (not_restored swap.live)))
      else give []

-- The round of both loops, over the files and over the directories.
unfoldable pub roll_back_swap : Bool → FilePath → CheckoutDirectorySwap → Action (List Failure)
unfolding preserve put_back
roll_back_swap local_write_started failed_root swap = do
  backup ← exists swap.backup
  live ← exists swap.live
  let swap_started = local_write_started && (backup || (not swap.original_existed && live))
  kept ← preserve swap_started failed_root swap.live
  restored ← put_back swap_started swap
  ignored ← attempt (remove swap.staged)
  give (kept ++ restored)

-- `restore_database`. That a backup is not there is an error here; SQLite would restore an empty database. The
-- backups of a sound journal are there.
unfoldable pub restore_database : CheckoutDatabaseBackup → Action (List Failure)
unfolding report_unless
restore_database b = do
  restored ← attempt (copy b.backup b.target)
  give (report_unless restored (database_not_restored b.target))

unfoldable pub restore_databases : Bool → List CheckoutDatabaseBackup → Action (List Failure)
unfolding restore_database collect
restore_databases local_write_started backups =
    if local_write_started then collect restore_database backups else give []

abbrev pub failed_root_of : CheckoutJournal → FilePath
failed_root_of j = j.target_codex_home ++ (".codex-session-sync" ∷ "failed" ∷ j.operation_id ∷ [])

abbrev pub outcome_of : List Failure → CheckoutStatus
outcome_of [] = rolled_back
outcome_of (f ∷ fs) = recovery_required

abbrev pub swap_of : CheckoutFileSwap → CheckoutDirectorySwap
swap_of s = s.swap

-- The three loops of the rollback.
unfoldable pub undo : Bool → CheckoutJournal → Action (List Failure)
unfolding roll_back_swap restore_databases collect
undo started journal = do
  let root = failed_root_of journal
  files ← collect (roll_back_swap started root) (reverse (map swap_of journal.file_swaps))
  directories ← collect (roll_back_swap started root) (reverse journal.directory_swaps)
  databases ← restore_databases started journal.database_backups
  give ((files ++ directories) ++ databases)

module _ (m : Machine) where
  unfoldable pub conclude : Option CheckoutError → List Failure → Action (Unit {0})
  unfolding write_checkout_journal
  conclude cause failures = do
    journal ← held_journal
    let new = record journal {
      status = outcome_of failures;
      updated_at = m.now;
      failure = some (record { cause = cause; failures = failures });
    }
    hold new
    write_checkout_journal m new
    elim failures [ [] ↦ give tt | f ∷ fs ↦ refuse not_rolled_back ]

  unfoldable pub rollback_checkout : Option CheckoutError → Action (Unit {0})
  unfolding undo conclude
  rollback_checkout cause = do
    journal ← held_journal
    pause
    failures ← undo (local_write_started journal.status) journal
    conclude cause failures
