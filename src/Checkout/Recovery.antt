-- ===== src/Checkout/Recovery.antt =====
-- `recover_checkout_operation` of crates/sync-core/src/checkout.rs.
use codex_session_sync.Prelude.{
  Bool, [], err, none, not, ok, ok_or, some, nat_eq, string_eq, option_eq, list_eq,
}
use codex_session_sync.Checkout.Journal.{
  validate_checkout_journal, completed, io_error, interrupted, CheckoutError, CheckoutStatus,
  CheckoutJournal, not_confirmed_closed,
}
use codex_session_sync.Checkout.Apply.{
  apply_tracking_update, validate_checkout_journal_result, write_checkout_journal, refuse_if,
}
use codex_session_sync.Checkout.Rollback.{rollback_checkout}
use codex_session_sync.Checkout.Machine.{Machine}
use codex_session_sync.Checkout.Journal.{
  CheckoutStatus, preparing, backed_up, applying, validating, local_applied, completed, rolled_back,
  recovery_required,
}
use codex_session_sync.Checkout.World.{
  look, give, pause, refuse, hold, attempt, held_journal, Action, lift, ◌>>=◌, ◌>>◌,
}

-- `read_json`
unfoldable pub read_journal : Action CheckoutJournal
unfolding lift
read_journal w = lift (ok_or w.saved io_error) w

module _ (m : Machine) where
  unfoldable pub reject_local_applied_recovery : CheckoutError → Action (Unit {0})
  unfolding write_checkout_journal
  reject_local_applied_recovery e = do
    journal ← held_journal
    let new = record journal {
      updated_at = m.now;
      failure = some (record { cause = some e; failures = [] });
    }
    hold new
    write_checkout_journal m new
    refuse e

  unfoldable pub complete : Action (Unit {0})
  unfolding write_checkout_journal
  complete = do
    journal ← held_journal
    let new = record journal { status = completed; updated_at = m.now; failure = none }
    hold new
    write_checkout_journal m new

  unfoldable pub recover_local_applied : Action (Unit {0})
  unfolding reject_local_applied_recovery complete validate_checkout_journal_result
      apply_tracking_update
  recover_local_applied = do
    journal ← held_journal
    checked ← attempt (pause >> look (validate_checkout_journal_result m journal))
    elim checked [
      | err e ↦ reject_local_applied_recovery e
      | ok u ↦ attempt (apply_tracking_update m journal) >>= λ tracked. elim tracked [
        | err e ↦ reject_local_applied_recovery e
        | ok v ↦ complete
      ]
    ]

  unfoldable pub recover_at : CheckoutStatus → Action (Unit {0})
  unfolding recover_local_applied rollback_checkout
  recover_at preparing = rollback_checkout m (some interrupted)
  recover_at backed_up = rollback_checkout m (some interrupted)
  recover_at applying = rollback_checkout m (some interrupted)
  recover_at validating = rollback_checkout m (some interrupted)
  recover_at local_applied = recover_local_applied
  recover_at completed = give tt
  recover_at rolled_back = give tt
  recover_at recovery_required = rollback_checkout m (some interrupted)

  -- The journal that the code returns is the one held at the end.
  unfoldable pub recover_checkout_operation : Bool → Action (Unit {0})
  unfolding recover_at read_journal refuse_if
  recover_checkout_operation confirmed_codex_closed = do
    refuse_if (not confirmed_codex_closed) not_confirmed_closed
    journal ← read_journal
    hold journal
    lift (validate_checkout_journal m.is_whitespace journal)
    recover_at journal.status
