-- ===== src/Checkout/Transact.antt =====
-- The part of `checkout_local_snapshot_internal`, crates/sync-core/src/checkout.rs, from the first write of
-- the journal on.
use codex_session_sync.Prelude.{
  Bool, List, String, [], err, false, if◌then◌else◌, none, ok, some, true, ℕ, ◌&&◌, ◌==◌, ◌∷◌,
  nat_eq, string_eq, option_eq, list_eq,
}
use codex_session_sync.Checkout.Databases.{
  invalidate_local_thread_catalogs, replace_databases, add_catalogs, back_up_databases,
}
use codex_session_sync.Checkout.Rollback.{rollback_checkout}
use codex_session_sync.Checkout.Apply.{
  write_checkout_journal, apply_file_swaps, advance, validate_file_swaps, apply_tracking_update,
  validate_checkout_result, apply_directory_swaps,
}
use codex_session_sync.Checkout.Machine.{Machine}
use codex_session_sync.Checkout.Journal.{
  completed, local_applied, backed_up, validating, applying, CheckoutDirectorySwap, CheckoutJournal,
  FilePath,
}
use codex_session_sync.Checkout.World.{
  held_journal, touch, give, refuse, look, hold, create, pause, attempt, Files, Action, for_each,
  ◌>>=◌, ◌>>◌,
}

-- What the part before the journal has found: the semantic hashes of the snapshot's threads, the databases of the scan, the catalogs, where the database
-- backups go, the trees that the staged rollouts make, and the directories removed at the end.
pub record Plan : Type 0 where
  pub thread_hashes : List (String × String)
  pub databases : List FilePath
  pub catalogs : List FilePath
  pub place : ℕ → FilePath
  pub tree : FilePath → String
  pub staging_root : FilePath
  pub repository_backup_dir : FilePath
  pub local_backup_dir : FilePath

unfoldable pub is_under : FilePath → FilePath → Bool
is_under [] p = true
is_under (r ∷ rs) [] = false
is_under (r ∷ rs) (p ∷ ps) = r == p && is_under rs ps

-- `fs::remove_dir_all`
unfoldable pub without : FilePath → Files → Files
unfolding is_under
without root files p = if is_under root p then none else files p

unfoldable pub remove_tree : FilePath → Action (Unit {0})
unfolding without
remove_tree root = touch (λ files. some (without root files))

module _ (m : Machine) (plan : Plan) where
  -- `stage_rollouts`: the rollouts of the snapshot are written under the staged directories. The loop over the
  -- threads, with its tests of paths and digests, is one call for each directory, whose result is the plan's
  -- tree; an error of the loop is a fault of that call.
  unfoldable pub stage_rollouts : List CheckoutDirectorySwap → Action (Unit {0})
  unfolding for_each
  stage_rollouts swaps = for_each (λ s. create s.staged (plan.tree s.staged)) swaps

  unfoldable pub back_up : Action (Unit {0})
  unfolding stage_rollouts back_up_databases add_catalogs advance
  back_up = do
    journal ← held_journal
    stage_rollouts journal.directory_swaps
    pause
    pause
    back_up_databases m plan.place 0 (add_catalogs plan.databases plan.catalogs)
    advance m backed_up
    pause

  unfoldable pub apply : CheckoutJournal → Action (Unit {0})
  unfolding apply_directory_swaps apply_file_swaps replace_databases
      invalidate_local_thread_catalogs
  apply journal = do
    apply_directory_swaps journal.directory_swaps
    apply_file_swaps journal.file_swaps
    replace_databases m plan.databases
    invalidate_local_thread_catalogs m plan.catalogs

  unfoldable pub check_applied : CheckoutJournal → Action (Unit {0})
  unfolding validate_checkout_result validate_file_swaps
  check_applied journal = do
    pause
    look (validate_checkout_result m journal.target_codex_home plan.thread_hashes)
    pause
    look (validate_file_swaps m journal.file_swaps)

  -- The closure that yields `result`; `journal` is the variable that it captures.
  unfoldable pub write_local : Action (Unit {0})
  unfolding back_up apply check_applied apply_tracking_update
  write_local = do
    back_up
    advance m applying
    journal ← held_journal
    apply journal
    advance m validating
    checked ← held_journal
    check_applied checked
    advance m local_applied
    last ← held_journal
    apply_tracking_update m last

  unfoldable pub clean_up : Bool → Action (Unit {0})
  unfolding remove_tree
  clean_up retain = do
    staging ← attempt (remove_tree plan.staging_root)
    if retain
        then give tt
        else (attempt (remove_tree plan.repository_backup_dir) >>= λ repository.
            attempt (remove_tree plan.local_backup_dir) >>= λ local. give tt)

  unfoldable pub transact : CheckoutJournal → Action (Unit {0})
  unfolding write_local clean_up rollback_checkout advance
  transact journal = do
    hold journal
    write_checkout_journal m journal
    result ← attempt write_local
    elim result [
      | err e ↦ attempt (rollback_checkout m (some e)) >>= λ undone. refuse e
      | ok u ↦ advance m completed >> clean_up journal.retain_recovery_backup
    ]
