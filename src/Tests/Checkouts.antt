-- ===== src/Tests/Checkouts.antt =====
-- A checkout of one directory and one database (crates/sync-core/src/checkout.rs) that is stopped between the
-- two renames of the directory, and the recovery after it.
use codex_session_sync.Prelude.{
  ==→eq, Bool, Bool-cases, List, [], ap, false, if_false, if◌then◌else◌, inl, inr, is_some, length,
  none, ok, refl, some, suc, sym, true, zero, ℕ, ◌==◌, ◌∙◌, ◌∷◌, ◌≡◌, ◌⊎◌, nat_eq, string_eq,
  option_eq, list_eq,
}
use codex_session_sync.Checkout.Restores.{
  Faulted, Worked, write_checkout_journal_lem, apply_lem, undo_lem,
}
use codex_session_sync.Checkout.Recovery.{recover_checkout_operation}
use codex_session_sync.Checkout.Resumed.{Settled}
use codex_session_sync.Checkout.Installed.{Awaiting}
use codex_session_sync.Checkout.Apply.{write_checkout_journal}
use codex_session_sync.Checkout.Sound.{IsRecoverable}
use codex_session_sync.Checkout.Undo.{Members}
use codex_session_sync.Checkout.Rules.{Ends}
use codex_session_sync.Checkout.Crash.{
  transact_goes, not_yet, transact-recover_checkout_operation, recover_checkout_operation-Settled,
  recover_checkout_operation-IsRecoverable, transact_lem, end-IsRecoverable, restarted, end_of,
}
use codex_session_sync.Checkout.Atomic.{Completed, Planned}
use codex_session_sync.Checkout.Databases.{add_catalogs}
use codex_session_sync.Checkout.Rewound.{Covers, site_of}
use codex_session_sync.Checkout.Rollback.{undo, file_name}
use codex_session_sync.Checkout.Layout.{
  untouched, Agrees, Open, failed_path, backup_path, Layout, staged_path, live_path, elsewhere,
  database, Role, saved_path, failed_of,
}
use codex_session_sync.Checkout.Transact.{apply, transact, Plan}
use codex_session_sync.Checkout.Machine.{Machine}
use codex_session_sync.Checkout.World.{World, Files, Fate, works, stops}
use codex_session_sync.Checkout.Journal.{
  local_applied, validate_hashes, validate_update, validate_checkout_journal, CheckoutDirectorySwap,
  CheckoutJournal, FilePath, preparing, applying,
}

abbrev sessions : FilePath
sessions = "home" ∷ "sessions" ∷ []

abbrev staged_sessions : FilePath
staged_sessions = "staging" ∷ "sessions" ∷ []

abbrev old_sessions : FilePath
old_sessions = "backup" ∷ "sessions" ∷ []

abbrev failed_sessions : FilePath
failed_sessions = "home" ∷ ".codex-session-sync" ∷ "failed" ∷ "op" ∷ "sessions" ∷ []

abbrev threads : FilePath
threads = "home" ∷ "state.sqlite" ∷ []

copies : ℕ → FilePath
copies zero = []
copies (suc n) = "x" ∷ copies n

place : ℕ → FilePath
unfolding copies
place n = "saved" ∷ copies n

-- The parts of the paths.
abbrev choose : Bool → Role → Role → Role
choose b r s = if b then r else s

abbrev other_role : FilePath → Role
other_role [] = elsewhere
other_role (part ∷ parts) = choose (part == "saved") (saved_path (length parts)) elsewhere

abbrev role : FilePath → Role
role p = choose (p == sessions) live_path (
    choose (p == staged_sessions) (staged_path sessions) (
      choose (p == old_sessions) (backup_path sessions) (
        choose (p == failed_sessions) (failed_path sessions)
          (choose (p == threads) database (other_role p)))))

choose-live_path :
    (b : Bool) (r s : Role) → choose b r s ≡ live_path → ¬ (r ≡ live_path) → s ≡ live_path
choose-live_path true r s e n = absurd (n e)
choose-live_path false r s e n = e

other-live_path : (p : FilePath) → other_role p ≡ live_path → ⊥
other-live_path [] e = cc
other-live_path (part ∷ parts) e = cc (choose-live_path (part == "saved") _ _ e (λ x. cc))

role-live_path : (p : FilePath) → role p ≡ live_path → p ≡ sessions
role-live_path p e = elim (Bool-cases (p == sessions)) [
  | inl y ↦ ==→eq y
  | inr n ↦
      let e1 = sym (if_false _ _ n) ∙ e in
      let e2 = choose-live_path (p == staged_sessions) _ _ e1 (λ x. cc) in
      let e3 = choose-live_path (p == old_sessions) _ _ e2 (λ x. cc) in
      let e4 = choose-live_path (p == failed_sessions) _ _ e3 (λ x. cc) in
      let e5 = choose-live_path (p == threads) _ _ e4 (λ x. cc) in absurd (other-live_path p e5)
]

choose-database :
    (b : Bool) (r s : Role) → choose b r s ≡ database → ¬ (r ≡ database) → s ≡ database
choose-database true r s e n = absurd (n e)
choose-database false r s e n = e

other-database : (p : FilePath) → other_role p ≡ database → ⊥
other-database [] e = cc
other-database (part ∷ parts) e = cc (choose-database (part == "saved") _ _ e (λ x. cc))

role-database : (p : FilePath) → role p ≡ database → p ≡ threads
role-database p e =
    let e1 = choose-database (p == sessions) _ _ e (λ x. cc) in
    let e2 = choose-database (p == staged_sessions) _ _ e1 (λ x. cc) in
    let e3 = choose-database (p == old_sessions) _ _ e2 (λ x. cc) in
    let e4 = choose-database (p == failed_sessions) _ _ e3 (λ x. cc) in
    elim (Bool-cases (p == threads)) [
      | inl y ↦ ==→eq y
      | inr n ↦ absurd (other-database p (sym (if_false _ _ n) ∙ e4))
    ]

length-copies : (n : ℕ) → length (copies n) ≡ n
unfolding copies
length-copies zero = refl
length-copies (suc n) = ap suc (length-copies n)

role-place : (n : ℕ) → role (place n) ≡ saved_path n
unfolding place
role-place n = ap saved_path (length-copies n)

abbrev swap : CheckoutDirectorySwap
swap = record {
  live = sessions;
  staged = staged_sessions;
  backup = old_sessions;
  original_existed = true;
}

abbrev journal : CheckoutJournal
journal = record {
  schema_version = 4;
  operation_id = "op";
  target_codex_home = "home" ∷ [];
  repository_root = "repository" ∷ [];
  status = preparing;
  updated_at = "then";
  database_backups = [];
  directory_swaps = swap ∷ [];
  file_swaps = [];
  expected_thread_hashes = [];
  tracking_update = none;
  retain_recovery_backup = false;
  failure = none;
}

abbrev machine : Machine
machine = record {
  is_whitespace = λ c. c == 32;
  sha256 = λ content. content;
  home_key = λ p. some "key";
  scan = λ p files.
      ok (record { warnings = []; database_paths = threads ∷ []; thread_hashes = ok [] });
  count_threads = λ content. some 1;
  delete_threads = λ content. some "deleted";
  insert_threads = λ content. some "new threads";
  invalidate_catalog = λ content. some content;
  now = "now";
}

abbrev plan : Plan
plan = record {
  thread_hashes = [];
  databases = threads ∷ [];
  catalogs = [];
  place = place;
  tree = λ p. "new sessions";
  staging_root = "staging" ∷ [];
  repository_backup_dir = "backup" ∷ [];
  local_backup_dir = "saved" ∷ [];
}

abbrev files : Files
files p =
    if p == sessions
    then some "old sessions"
    else (if p == threads then some "old threads" else none)

abbrev world : List Fate → World
world fates = record {
  files = files;
  saved = none;
  unsaved = none;
  held = journal;
  tracking = record { namespace_tracking = []; active_namespace = [] };
  fates = fates;
}

-- Stopped between the renames of the directory: 21 calls work before.
abbrev faults : List Fate
faults =
    works ∷ works ∷ works ∷ works ∷ works ∷ works ∷ works ∷ works ∷ works ∷ works ∷ works ∷ works
    ∷ works ∷ works ∷ works ∷ works ∷ works ∷ works ∷ works ∷ works ∷ works ∷ stops ∷ []

layout : Layout (site_of role files journal)
unfolding failed_of file_name
layout = record {
  named = λ s e. elim e [
    | inl x ↦ ap (λ (t : CheckoutDirectorySwap). is_some (file_name t.live)) x
    | inr x ↦ absurd x
  ];
  live_role = λ s e. elim e [
    | inl x ↦ ap (λ (t : CheckoutDirectorySwap). role t.live) x
    | inr x ↦ absurd x
  ];
  staged_role = λ s e. elim e [ inl x ↦ rw x refl | inr x ↦ absurd x ];
  backup_role = λ s e. elim e [ inl x ↦ rw x refl | inr x ↦ absurd x ];
  failed_role = λ s e. elim e [ inl x ↦ rw x refl | inr x ↦ absurd x ];
  once = λ s t a b e. elim a [
    | inl x ↦ elim b [ inl y ↦ x ∙ sym y | inr y ↦ absurd y ]
    | inr x ↦ absurd x
  ];
  existed = λ s e. elim e [ inl x ↦ rw x refl | inr x ↦ absurd x ];
  lives = λ p e. (swap, inl refl, role-live_path p e);
}

planned : (fates : List Fate) → Planned machine role plan journal (world fates)
unfolding failed_of file_name validate_checkout_journal add_catalogs validate_update validate_hashes
    codex_session_sync.Metadata.Names.is_empty codex_session_sync.Metadata.Names.trim
    codex_session_sync.Metadata.Names.trim_end codex_session_sync.Metadata.Names.trim_start
planned fates = record {
  valid = refl;
  layout = layout;
  fresh_status = refl;
  no_backups = refl;
  unsaved = refl;
  fresh = λ s e. elim e [ inl x ↦ rw x refl | inr x ↦ absurd x ];
  free = λ s e. elim e [ inl x ↦ rw x refl | inr x ↦ absurd x ];
  once = (tt, tt);
  databases = (refl, tt);
  catalogs = tt;
  listed = λ p e. inl (role-database p e);
  place = role-place;
}

broken_off : World
broken_off = end_of (transact machine plan journal (world faults))

abbrev at_applying : CheckoutJournal
at_applying = record journal {
  status = applying;
  updated_at = "now";
  database_backups = record { target = threads; backup = place 0 } ∷ [];
}

broken_off-saved : broken_off.saved ≡ some at_applying
unfolding broken_off end_of transact codex_session_sync.Checkout.World.◌>>=◌
    codex_session_sync.Checkout.World.hold codex_session_sync.Checkout.World.lift
    codex_session_sync.Checkout.World.give codex_session_sync.Checkout.World.call
    codex_session_sync.Checkout.World.call_with codex_session_sync.Checkout.World.touch
    codex_session_sync.Checkout.World.touched codex_session_sync.Checkout.World.renamed
    codex_session_sync.Checkout.World.rename codex_session_sync.Checkout.World.copied
    codex_session_sync.Checkout.World.pause codex_session_sync.Checkout.World.when
    codex_session_sync.Checkout.World.attempt codex_session_sync.Checkout.World.held_journal
    codex_session_sync.Checkout.World.create codex_session_sync.Checkout.World.copy
    codex_session_sync.Checkout.World.for_each codex_session_sync.Checkout.World.exists
    codex_session_sync.Metadata.Names.is_empty codex_session_sync.Metadata.Names.trim
    codex_session_sync.Metadata.Names.trim_end codex_session_sync.Metadata.Names.trim_start
    codex_session_sync.Checkout.Apply.apply_directory_swap
    codex_session_sync.Checkout.Apply.refuse_if place copies
broken_off-saved = refl

broken_off-IsRecoverable : IsRecoverable machine role files broken_off
unfolding broken_off
broken_off-IsRecoverable =
    end-IsRecoverable machine role files (transact machine plan journal (world faults))
      (transact_goes machine role plan journal (world faults) (planned faults)).ends

transact_lem_example :
    Ends
      (λ u. Completed machine role files)
      (IsRecoverable machine role files)
      (transact machine plan journal (world faults))
transact_lem_example = transact_lem machine role plan journal (world faults) (planned faults)

transact-recover_checkout_operation_example :
    Ends
      (λ u. Settled machine role files at_applying)
      (λ v. (at_applying.status ≡ local_applied) × (v.files ≡ broken_off.files))
      (recover_checkout_operation machine true (restarted [] broken_off))
unfolding broken_off
transact-recover_checkout_operation_example =
    transact-recover_checkout_operation machine role plan journal (world faults) broken_off
      at_applying (planned faults) not_yet broken_off-saved

again : World
unfolding restarted
again = restarted (works ∷ works ∷ stops ∷ []) broken_off

again-saved : again.saved ≡ some at_applying
unfolding again restarted
again-saved = broken_off-saved

again-IsRecoverable : IsRecoverable machine role files again
unfolding again restarted
again-IsRecoverable = broken_off-IsRecoverable

recover_checkout_operation-IsRecoverable_example :
    Ends
      (λ u. Settled machine role files at_applying)
      (IsRecoverable machine role files)
      (recover_checkout_operation machine true again)
recover_checkout_operation-IsRecoverable_example =
    recover_checkout_operation-IsRecoverable machine role files again at_applying
      again-IsRecoverable again-saved

calm : World
unfolding restarted
calm = restarted [] broken_off

calm-saved : calm.saved ≡ some at_applying
unfolding calm restarted
calm-saved = broken_off-saved

calm-IsRecoverable : IsRecoverable machine role files calm
unfolding calm restarted
calm-IsRecoverable = broken_off-IsRecoverable

calm-fates : calm.fates ≡ []
unfolding calm restarted
calm-fates = refl

recover_checkout_operation-Settled_example :
    Ends
      (λ u. Settled machine role files at_applying)
      (λ v. (at_applying.status ≡ local_applied) × (v.files ≡ calm.files))
      (recover_checkout_operation machine true calm)
recover_checkout_operation-Settled_example =
    recover_checkout_operation-Settled machine role files calm at_applying calm-IsRecoverable
      calm-saved calm-fates

Members-all : Members (site_of role files journal) (swap ∷ [])
Members-all = (inl refl, tt)

untouched-Awaiting : Awaiting layout [] (swap ∷ []) files
unfolding failed_of file_name
untouched-Awaiting = (
  record {
    restorable = λ s e. elim e [ inl x ↦ rw x (untouched refl refl) | inr x ↦ absurd x ];
    saved = tt;
    rest = λ p e. refl;
  },
  (record { fresh = refl; same = refl; free = refl }, tt),
)

apply_lem_example :
    Ends
      (λ u v. Open (site_of role files journal) [] v.files)
      (λ v. Open (site_of role files journal) [] v.files)
      (apply machine plan journal (world (works ∷ works ∷ stops ∷ [])))
apply_lem_example =
    apply_lem (world (works ∷ works ∷ stops ∷ [])) layout [] machine plan journal Members-all
      (tt, tt) (refl, tt) tt untouched-Awaiting

at_applying-valid : validate_checkout_journal machine.is_whitespace at_applying ≡ ok tt
at_applying-valid = (broken_off-IsRecoverable at_applying broken_off-saved).valid

write_checkout_journal_lem_example :
    Ends
      (λ (u : Unit {0}) v.
        ((v.saved ≡ some at_applying) × (v.files ≡ again.files)) × Worked again.fates v.fates)
      (λ v.
        (((v.saved ≡ again.saved) ⊎ (v.saved ≡ none)) × (v.files ≡ again.files))
        × Faulted again.fates v.fates)
      (write_checkout_journal machine at_applying again)
write_checkout_journal_lem_example =
    write_checkout_journal_lem again machine at_applying at_applying-valid

at_applying-Layout : Layout (site_of role files at_applying)
at_applying-Layout = layout

at_applying-Covers : Covers role at_applying.database_backups
at_applying-Covers p e =
    (record { target = threads; backup = place 0 }, inl refl, role-database p e)

calm-Open : Open (site_of role files at_applying) at_applying.database_backups calm.files
calm-Open = (calm-IsRecoverable at_applying calm-saved).whole refl

undo_lem_example :
    Ends
      (λ failures v. (failures ≡ []) × Agrees (site_of role files at_applying) v.files)
      (λ v. ⊥)
      (undo true at_applying calm)
undo_lem_example =
    undo_lem calm role files at_applying at_applying-Layout at_applying-Covers calm-Open calm-fates
