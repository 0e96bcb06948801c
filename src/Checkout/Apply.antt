-- ===== src/Checkout/Apply.antt =====
-- How crates/sync-core/src/checkout.rs writes its journal, replaces the session directories, the project
-- state and the databases, and compares the result with the snapshot.
use codex_session_sync.Tracking.Store.{reconcile_checkout}
use codex_session_sync.Checkout.Machine.{ScanReport, Machine}
use codex_session_sync.Checkout.Journal.{
  hash_mismatch, scan_warnings, backup_path_exists, thread_mismatch, io_error,
  CheckoutTrackingUpdate, CheckoutError, validate_checkout_journal, CheckoutJournal, FilePath,
  CheckoutStatus, CheckoutFileSwap, CheckoutDirectorySwap,
}
use codex_session_sync.Prelude.{
  Bool, List, Option, Result, String, [], err, false, if◌then◌else◌, is_some, none, ok, some, true,
  ◌&&◌, ◌==◌, ◌∷◌, nat_eq, string_eq, option_eq, list_eq,
}
use codex_session_sync.Checkout.World.{
  rename, when, done, World, hold, call, pause, exists, held_journal, lift, Files, refuse, Action,
  for_each, give, ◌>>=◌, ◌>>◌,
}

unfoldable pub refuse_if : Bool → CheckoutError → Action (Unit {0})
unfolding give refuse
refuse_if test e = if test then refuse e else give tt

unfoldable pub apply_directory_swap : CheckoutDirectorySwap → Action (Unit {0})
apply_directory_swap swap = do
  backup ← exists swap.backup
  refuse_if backup (backup_path_exists swap.backup)
  live ← exists swap.live
  when live (rename swap.live swap.backup)
  rename swap.staged swap.live

unfoldable pub apply_file_swap : CheckoutFileSwap → Action (Unit {0})
apply_file_swap swap = do
  backup ← exists swap.backup
  refuse_if backup (backup_path_exists swap.backup)
  pause
  live ← exists swap.live
  when live (rename swap.live swap.backup)
  rename swap.staged swap.live

unfoldable pub apply_directory_swaps : List CheckoutDirectorySwap → Action (Unit {0})
unfolding for_each
apply_directory_swaps swaps = for_each apply_directory_swap swaps

unfoldable pub apply_file_swaps : List CheckoutFileSwap → Action (Unit {0})
unfolding for_each
apply_file_swaps swaps = for_each apply_file_swap swaps

module _ (m : Machine) where
  -- `atomic_write_json`: a temporary file is written, the old journal removed, the new one renamed.
  unfoldable pub write_checkout_journal : CheckoutJournal → Action (Unit {0})
  unfolding validate_checkout_journal
  write_checkout_journal journal = do
    lift (validate_checkout_journal m.is_whitespace journal)
    pause
    call (λ w. some (record w { unsaved = some journal }))
    there ← (λ w. done (is_some w.saved) w)
    when there (call (λ w. some (record w { saved = none })))
    call (λ w. some (record w { saved = w.unsaved; unsaved = none }))

  -- `journal.status = …; journal.updated_at = …; write_checkout_journal(…)?`
  unfoldable pub advance : CheckoutStatus → Action (Unit {0})
  unfolding write_checkout_journal
  advance status = do
    journal ← held_journal
    let new = record journal { status = status; updated_at = m.now }
    hold new
    write_checkout_journal new

  unfoldable pub validate_file_swaps :
      List CheckoutFileSwap → Files → Result CheckoutError (Unit {0})
  validate_file_swaps [] files = ok tt
  validate_file_swaps (swap ∷ swaps) files = elim (files swap.live) [
    | none ↦ err io_error
    | some content ↦
        if m.sha256 content == swap.expected_sha256
        then validate_file_swaps swaps files
        else err hash_mismatch
  ]

  abbrev pub hash_of : String × String → String × String → Bool
  hash_of (i, h) (j, k) = i == j && h == k

  abbrev pub same_hashes : List (String × String) → List (String × String) → Bool
  same_hashes [] [] = true
  same_hashes [] (b ∷ bs) = false
  same_hashes (a ∷ as') [] = false
  same_hashes (a ∷ as') (b ∷ bs) = hash_of a b && same_hashes as' bs

  -- `validate_thread_hashes`, of two maps in the order of their keys
  unfoldable pub validate_scan :
      List (String × String) → ScanReport → Result CheckoutError (Unit {0})
  validate_scan expected report = elim report.warnings [
    | [] ↦ elim report.thread_hashes [
      | err e ↦ err e
      | ok actual ↦ if same_hashes actual expected then ok tt else err thread_mismatch
    ]
    | w ∷ ws ↦ err scan_warnings
  ]

  unfoldable pub validate_checkout_result :
      FilePath → List (String × String) → Files → Result CheckoutError (Unit {0})
  unfolding validate_scan
  validate_checkout_result home expected files = elim (m.scan home files) [
    | err e ↦ err e
    | ok report ↦ validate_scan expected report
  ]

  unfoldable pub validate_checkout_journal_result :
      CheckoutJournal → Files → Result CheckoutError (Unit {0})
  unfolding validate_checkout_result validate_file_swaps
  validate_checkout_journal_result journal files =
      elim (validate_checkout_result journal.target_codex_home journal.expected_thread_hashes
        files) [ err e ↦ err e | ok u ↦ validate_file_swaps journal.file_swaps files ]

  unfoldable pub reconciled : CheckoutJournal → CheckoutTrackingUpdate → World → Option World
  unfolding reconcile_checkout
  reconciled journal update w = elim (m.home_key journal.target_codex_home) [
    | none ↦ none
    | some home ↦
        elim (reconcile_checkout
          (record { home = home; remote = update.remote_id; namespace = update.namespace_id })
          update.expected_generation update.integrated_head update.activate_namespace m.now
          w.tracking) [ err e ↦ none | ok (db, r) ↦ some (record w { tracking = db }) ]
  ]

  unfoldable pub track : CheckoutJournal → Option CheckoutTrackingUpdate → Action (Unit {0})
  unfolding reconciled
  track journal none = give tt
  track journal (some update) = call (reconciled journal update)

  unfoldable pub apply_tracking_update : CheckoutJournal → Action (Unit {0})
  unfolding track
  apply_tracking_update journal = track journal journal.tracking_update
