-- ===== src/Checkout/Late.antt =====
-- The writes of a checkout, crates/sync-core/src/checkout.rs, with the journal's statuses between them: from
-- each point a rollback leaves a sound journal.
use codex_session_sync.Prelude.{
  All, List, Option, String, [], false, inl, inr, map, none, refl, some, subst, sym, true, ℕ, ◌++◌,
  ◌∙◌, ◌∷◌, ◌≡◌, ◌⊎◌, nat_eq, string_eq, option_eq, list_eq,
}
use codex_session_sync.Checkout.Concluded.{valid_again}
use codex_session_sync.Checkout.Loops.{All-append}
use codex_session_sync.Checkout.Idle.{Idle-Open, live_agrees, Idle}
use codex_session_sync.Checkout.Rollback.{swap_of}
use codex_session_sync.Checkout.Journaling.{
  goes_of, write_checkout_journal_rule, hold_goes, loosen, held_goes, Goes,
}
use codex_session_sync.Checkout.Rewound.{
  Covers, Elem-append_left, Elem-append_right, All-of_Elem, swaps_of, site_of,
}
use codex_session_sync.Checkout.Installed.{Pristine, Once}
use codex_session_sync.Checkout.Rules.{Triple}
use codex_session_sync.Checkout.Phases.{
  Between-Revertible, Between, here, Late-Revertible, Revertible, Early, IsKnowing, Late,
}
use codex_session_sync.Checkout.Undo.{Members}
use codex_session_sync.Checkout.Apply.{write_checkout_journal, advance}
use codex_session_sync.Checkout.Layout.{Elem, Open, Layout, Role}
use codex_session_sync.Checkout.Machine.{Machine}
use mathlib.Core.Option.{some-injective}
use codex_session_sync.Checkout.World.{Action, World, Files}
use codex_session_sync.Checkout.Journal.{
  CheckoutDirectorySwap, local_write_started, CheckoutJournal, FilePath, CheckoutStatus, applying,
}

module _ (m : Machine) (role : FilePath → Role) (before : Files) where
  pub Late-at :
      {j : CheckoutJournal} {saved : Option CheckoutJournal} {files : Files} (v : World)
      → Late m role before j saved files
      → v.held ≡ j
      → v.saved ≡ saved
      → Open (site_of role before j) j.database_backups v.files
      → Late m role before v.held v.saved v.files
  Late-at {j} v h held saved whole =
      subst (λ x. Late m role before x v.saved v.files) (sym held)
        (subst (λ x. Late m role before j x v.files) (sym saved)
          (record { now = h.now; open_to = whole; past = h.past }))

  pub Late-step :
      {p : Action (Unit {0})} (w : World)
      → Late m role before w.held w.saved w.files
      → Triple false w
          (Open (site_of role before w.held) w.held.database_backups)
          p
          (λ u. Open (site_of role before w.held) w.held.database_backups)
          (Open (site_of role before w.held) w.held.database_backups)
      → Goes p w (λ u v. Late m role before v.held v.saved v.files) (Revertible m role before)
  Late-step w h t =
      loosen (λ u v k. Late-at v h k.held k.saved k.files)
        (λ v k. Late-Revertible m role before v (Late-at v h k.held k.saved k.files))
        (goes_of t w (here m role before w h.open_to))

  -- A journal written while another of the same operation, or none, is on the disk.
  module _ (w : World) (h : Late m role before w.held w.saved w.files) where
    written :
        (v : World) (saved : Option CheckoutJournal)
        → v.held ≡ w.held
        → v.saved ≡ saved
        → v.files ≡ w.files
        → ((k : CheckoutJournal) → saved ≡ some k → IsKnowing m role before w.held k)
        → Late m role before v.held v.saved v.files
    written v saved held e files past =
        Late-at {j = w.held} {saved = saved} {files = w.files} v
          (record { now = h.now; open_to = h.open_to; past = past }) held e
          (subst (Open (site_of role before w.held) w.held.database_backups) (sym files) h.open_to)

    write-Late :
        Goes
          (write_checkout_journal m w.held)
          w
          (λ (u : Unit {0}) v. Late m role before v.held v.saved v.files)
          (Revertible m role before)
    write-Late =
        loosen
          (λ u v k.
            written v (some w.held) k.held k.saved k.files
              (λ i e. subst (IsKnowing m role before w.held) (some-injective _ _ e) h.now))
          (λ v k. Late-Revertible m role before v (elim k.saved [
            | inl old ↦ written v w.saved k.held old k.files h.past
            | inr gone ↦ written v none k.held gone k.files (λ i e. cc)
          ]))
          (write_checkout_journal_rule false w w.held m h.now.valid (λ q. cc))

  same_again :
      (j k : CheckoutJournal) (status : CheckoutStatus) (at : String)
      → IsKnowing m role before j k
      → IsKnowing m role before (record j { status = status; updated_at = at }) k
  same_again j k status at h = record {
    valid = h.valid;
    layout = h.layout;
    started = h.started;
    covers = h.covers;
    whole = h.whole;
  }

  pub advance-Late :
      (status : CheckoutStatus) (w : World)
      → local_write_started status ≡ true
      → Late m role before w.held w.saved w.files
      → Goes
          (advance m status)
          w
          (λ (u : Unit {0}) v. Late m role before v.held v.saved v.files)
          (Revertible m role before)
  unfolding advance
  advance-Late status w e h = held_goes _ refl (
      hold_goes (
        write-Late (record w { held = record w.held { status = status; updated_at = m.now } })
          (record {
            now = record {
              valid = valid_again m w.held status m.now w.held.failure h.now.valid;
              layout = h.now.layout;
              started = e;
              covers = h.now.covers;
              whole = λ f o. o;
            };
            open_to = h.open_to;
            past = λ k x. same_again w.held k status m.now (h.past k x);
          })))

  -- The state in which the journal says `applying` and no swap has been applied.
  pub record Poised (held : CheckoutJournal) (saved : Option CheckoutJournal) (files : Files)
      : Type 0 where
    pub late : Late m role before held saved files
    pub once : Once (held.directory_swaps ++ map swap_of held.file_swaps)
    pub pristine :
        All
          (Pristine (site_of role before held) files)
          (held.directory_swaps ++ map swap_of held.file_swaps)

  pub members :
      (j : CheckoutJournal)
      → Members (site_of role before j) (j.directory_swaps ++ map swap_of j.file_swaps)
  members j =
      All-append (λ s. Elem s (swaps_of j)) j.directory_swaps (map swap_of j.file_swaps)
        (All-of_Elem _ j.directory_swaps
          (λ s x. Elem-append_right s (map swap_of j.file_swaps) j.directory_swaps x))
        (All-of_Elem _ (map swap_of j.file_swaps)
          (λ s x. Elem-append_left s (map swap_of j.file_swaps) j.directory_swaps x))

  Pristine-of :
      (j : CheckoutJournal) (layout : Layout (site_of role before j)) (f : Files)
      → Idle (site_of role before j) j.database_backups f
      → (xs : List CheckoutDirectorySwap) → Members (site_of role before j) xs
      → All (Pristine (site_of role before j) f) xs
  Pristine-of j layout f i [] ms = tt
  Pristine-of j layout f i (x ∷ xs) (y, ms) = (
    record { fresh = i.fresh x y; same = live_agrees layout f i.agrees x y; free = i.free x y },
    Pristine-of j layout f i xs ms,
  )

  -- The journal with which writing begins.
  begun : CheckoutJournal → CheckoutJournal
  begun j = record j { status = applying; updated_at = m.now }

  begun-Covers :
      (n : ℕ) (j : CheckoutJournal) (saved : Option CheckoutJournal) (f : Files)
      → Early m role before n [] j saved f
      → Covers role j.database_backups
  begun-Covers n j saved f h p e = elim (h.cover p e) [ inl x ↦ absurd x | inr b ↦ b ]

  begun-IsKnowing :
      (n : ℕ) (j : CheckoutJournal) (saved : Option CheckoutJournal) (f : Files)
      → Early m role before n [] j saved f
      → IsKnowing m role before (begun j) (begun j)
  unfolding begun
  begun-IsKnowing n j saved f h = record {
    valid = valid_again m j applying m.now j.failure h.now.valid;
    layout = h.now.layout;
    started = refl;
    covers = begun-Covers n j saved f h;
    whole = λ g o. o;
  }

  poised :
      (n : ℕ) (j : CheckoutJournal) (saved : Option CheckoutJournal) (f : Files)
      → Early m role before n [] j saved f
      → Poised (begun j) (some (begun j)) f
  unfolding begun
  poised n j saved f h = record {
    late = record {
      now = begun-IsKnowing n j saved f h;
      open_to = Idle-Open h.now.layout f h.idle;
      past = λ k e.
          subst (IsKnowing m role before (begun j)) (some-injective _ _ e)
            (begun-IsKnowing n j saved f h);
    };
    once = h.once;
    pristine =
        Pristine-of j h.now.layout f h.idle (j.directory_swaps ++ map swap_of j.file_swaps)
          (members j);
  }

  between :
      (n : ℕ) (j : CheckoutJournal) (saved : Option CheckoutJournal) (f : Files)
      → Early m role before n [] j saved f
      → (now : Option CheckoutJournal) → (now ≡ saved) ⊎ (now ≡ none)
      → Between m role before (begun j) now f
  unfolding begun
  between n j saved f h now e = record {
    valid = valid_again m j applying m.now j.failure h.now.valid;
    layout = h.now.layout;
    covers = begun-Covers n j saved f h;
    idle = h.idle;
    past = λ k x. elim e [ inl old ↦ h.past k (sym old ∙ x) | inr gone ↦ cc (gone, x) ];
  }

  pub begin_goes :
      (n : ℕ) (w : World)
      → Early m role before n [] w.held w.saved w.files
      → Goes
          (advance m applying)
          w
          (λ (u : Unit {0}) v. Poised v.held v.saved v.files)
          (Revertible m role before)
  unfolding advance begun
  begin_goes n w h =
      let new = begun w.held in
      held_goes _ refl (
        hold_goes (
          loosen
            (λ u v k.
              subst (λ x. Poised x v.saved v.files) (sym k.held)
                (subst (λ s. Poised new s v.files) (sym k.saved)
                  (subst (λ f. Poised new (some new) f) (sym k.files)
                    (poised n w.held w.saved w.files h))))
            (λ v k. Between-Revertible m role before v (
              subst (λ x. Between m role before x v.saved v.files) (sym k.held)
                (subst (λ f. Between m role before new v.saved f) (sym k.files)
                  (between n w.held w.saved w.files h v.saved k.saved))))
            (write_checkout_journal_rule false (record w { held = new }) new m
              (valid_again m w.held applying m.now w.held.failure h.now.valid) (λ q. cc))))
