-- ===== src/Checkout/Early.antt =====
-- The backups of a checkout, crates/sync-core/src/checkout.rs: until the journal says `applying` nothing but
-- the operation's own paths changes, and every database of the home gets a backup.
use codex_session_sync.Prelude.{
  ==_refl, All, List, Option, [], ap, arith, false, if_false, if_true, inl, inr, is_some, ne→==,
  none, ok, refl, some, subst, sym, true, ℕ, ◌++◌, ◌+◌, ◌<◌, ◌==◌, ◌∙◌, ◌∷◌, ◌≡◌, nat_eq, string_eq,
  option_eq, list_eq,
}
use codex_session_sync.Checkout.Loops.{All-append}
use codex_session_sync.Checkout.Databases.{back_up_database, back_up_databases}
use codex_session_sync.Checkout.Rollback.{failed_root_of}
use codex_session_sync.Checkout.Rolled.{copied_lem}
use codex_session_sync.Checkout.Concluded.{valid_again}
use codex_session_sync.Checkout.Rewound.{Elem-append_left, Elem-append_right, site_of}
use codex_session_sync.Checkout.Idle.{Idle}
use codex_session_sync.Checkout.Journaling.{
  sequence, goes_of, write_checkout_journal_rule, hold_goes, loosen, held_goes, Goes,
}
use codex_session_sync.Checkout.Rules.{Triple}
use codex_session_sync.Checkout.Calls.{touch_to}
use codex_session_sync.Checkout.Sound.{is_unchanged}
use codex_session_sync.Checkout.Phases.{here, Early-Revertible, IsPast, Revertible, Early}
use codex_session_sync.Checkout.Apply.{write_checkout_journal, advance}
use codex_session_sync.Checkout.Layout.{
  failed_of, apart, is_private, Saved, Layout, database, saved_path, Site, Role,
}
use codex_session_sync.Checkout.Journal.{
  validate_checkout_journal, CheckoutDatabaseBackup, CheckoutStatus, CheckoutJournal, FilePath,
}
use codex_session_sync.Checkout.Machine.{Machine}
use mathlib.Core.Option.{some-injective}
use codex_session_sync.Checkout.World.{touch, copy, give, copied, World, Action, Files}

All-map :
    {A : Type 0} {P Q : A → Type 0} → ((a : A) → P a → Q a) → (xs : List A) → All P xs → All Q xs
All-map f [] h = tt
All-map f (x ∷ xs) (h, hs) = (f x h, All-map f xs hs)

module _ (m : Machine) (role : FilePath → Role) (before : Files) where
  -- What a program that touches neither journal leaves of the phase.
  early_at :
      (n : ℕ) (rest : List FilePath) {j : CheckoutJournal} {saved : Option CheckoutJournal}
      {files : Files} (v : World)
      → Early m role before n rest j saved files
      → v.held ≡ j
      → v.saved ≡ saved
      → Idle (site_of role before j) j.database_backups v.files
      → Early m role before n rest v.held v.saved v.files
  early_at n rest {j} v h held saved idle =
      subst (λ x. Early m role before n rest x v.saved v.files) (sym held)
        (subst (λ x. Early m role before n rest j x v.files) (sym saved)
          (record {
            now = h.now;
            idle = idle;
            once = h.once;
            below = h.below;
            cover = h.cover;
            past = h.past;
          }))

  pub early_step :
      (n : ℕ) (rest : List FilePath) {p : Action (Unit {0})} (w : World)
      → Early m role before n rest w.held w.saved w.files
      → Triple false w
          (Idle (site_of role before w.held) w.held.database_backups)
          p
          (λ u. Idle (site_of role before w.held) w.held.database_backups)
          (Idle (site_of role before w.held) w.held.database_backups)
      → Goes p w
          (λ u v. Early m role before n rest v.held v.saved v.files)
          (Revertible m role before)
  early_step n rest w h t =
      loosen (λ u v k. early_at n rest v h k.held k.saved k.files)
        (λ v k.
          Early-Revertible m role before n rest v (early_at n rest v h k.held k.saved k.files))
        (goes_of t w (here m role before w h.idle))

  -- Writing the journal that is held.
  pub write_early :
      (n : ℕ) (rest : List FilePath) (w : World)
      → Early m role before n rest w.held w.saved w.files
      → Goes
          (write_checkout_journal m w.held)
          w
          (λ (u : Unit {0}) v. Early m role before n rest v.held v.saved v.files)
          (Revertible m role before)
  write_early n rest w h =
      loosen
        (λ u v k.
          written v (some w.held) k.held k.saved k.files
            (λ i e. subst (IsPast m role before) (some-injective _ _ e) h.now))
        (λ v k. Early-Revertible m role before n rest v (elim k.saved [
          | inl old ↦ written v w.saved k.held old k.files h.past
          | inr gone ↦ written v none k.held gone k.files (λ i e. cc)
        ]))
        (write_checkout_journal_rule false w w.held m h.now.valid (λ q. cc))
    where
      written :
          (v : World) (saved : Option CheckoutJournal)
          → v.held ≡ w.held
          → v.saved ≡ saved
          → v.files ≡ w.files
          → ((k : CheckoutJournal) → saved ≡ some k → IsPast m role before k)
          → Early m role before n rest v.held v.saved v.files
      written v saved held e files past =
          early_at n rest {j = w.held} {saved = saved} {files = w.files} v
            (record {
              now = h.now;
              idle = h.idle;
              once = h.once;
              below = h.below;
              cover = h.cover;
              past = past;
            })
            held e
            (subst (Idle (site_of role before w.held) w.held.database_backups) (sym files) h.idle)

  pub advance_early :
      (n : ℕ) (rest : List FilePath) (status : CheckoutStatus) (w : World)
      → is_unchanged status ≡ true
      → Early m role before n rest w.held w.saved w.files
      → Goes
          (advance m status)
          w
          (λ (u : Unit {0}) v. Early m role before n rest v.held v.saved v.files)
          (Revertible m role before)
  unfolding advance
  advance_early n rest status w e h = held_goes _ refl (
      hold_goes (
        write_early n rest
          (record w { held = record w.held { status = status; updated_at = m.now } })
          (record {
            now = record {
              valid = valid_again m w.held status m.now w.held.failure h.now.valid;
              layout = h.now.layout;
              unchanged = e;
            };
            idle = h.idle;
            once = h.once;
            below = h.below;
            cover = h.cover;
            past = h.past;
          })))

  -- A backup of a database that has not been changed, at a place that no backup is at yet.
  module _ (place : ℕ → FilePath) (places : (i : ℕ) → role (place i) ≡ saved_path i) (n : ℕ)
      (p : FilePath) (of_database : role p ≡ database) (rest : List FilePath) where
    Backed : CheckoutJournal → Files → Type 0
    Backed j f =
        Idle (site_of role before j) j.database_backups f
        × (is_some (before p) ≡ true)
        × (f (place n) ≡ before p)

    other_place :
        (site : Site)
        → ((q : FilePath) → site.role q ≡ role q)
        → {f g : Files} → ((q : FilePath) → (place n == q) ≡ false → g q ≡ f q)
        → (bs : List CheckoutDatabaseBackup)
        → All (λ b. (k : ℕ) × (role b.backup ≡ saved_path k) × (k < n)) bs
        → All (Saved site f) bs
        → All (Saved site g) bs
    other_place site same_role same [] below h = tt
    other_place site same_role same (b ∷ bs) ((k, at, less), below) (h, hs) = (
      record {
        there = h.there;
        same = same b.backup (ne→== (place n) b.backup (λ e. lower_place b k at less e)) ∙ h.same;
        of_database = h.of_database;
        index = h.index;
        at_index = h.at_index;
      },
      other_place site same_role same bs below hs,
    )
      where
        index_of : Role → ℕ
        index_of (saved_path i) = i
        index_of other = 0

        lower_place :
            (b : CheckoutDatabaseBackup) (k : ℕ)
            → role b.backup ≡ saved_path k
            → k < n
            → place n ≡ b.backup
            → ⊥
        lower_place b k at less e =
            let same_index : n ≡ k = ap index_of (sym (places n) ∙ (ap role e ∙ at)) in omega arith

    backed :
        (j : CheckoutJournal) (layout : Layout (site_of role before j))
        → All (λ b. (k : ℕ) × (role b.backup ≡ saved_path k) × (k < n)) j.database_backups
        → (f g : Files) → Idle (site_of role before j) j.database_backups f
        → copied p (place n) f ≡ some g
        → Backed j g
    unfolding Backed
    backed j layout below f g i made =
        let (c, found, e) = copied_lem p (place n) f g made in
        let was : before p ≡ some c = sym (i.agrees p (ap is_private of_database)) ∙ found in
        let same : (q : FilePath) → (place n == q) ≡ false → g q ≡ f q =
          λ q x. ap (λ (k : Files). k q) e ∙ if_false _ _ x in
        let other : (q : FilePath) → ¬ (role q ≡ saved_path n) → g q ≡ f q =
          λ q x. same q (apart layout (place n) q (λ y. x (sym y ∙ places n))) in
        (
          record {
            agrees = λ q x. other q (λ y. cc) ∙ i.agrees q x;
            fresh = λ s m. other s.backup (λ y. cc (y, layout.backup_role s m)) ∙ i.fresh s m;
            free = λ s m.
                other (failed_of (failed_root_of j) s.live) (λ y. cc (y, layout.failed_role s m))
                ∙ i.free s m;
            saved =
                other_place (site_of role before j) (λ q. refl) same j.database_backups below
                  i.saved;
          },
          ap is_some was,
          ap (λ (k : Files). k (place n)) e ∙ (if_true _ _ (==_refl (place n)) ∙ sym was),
        )

    with_backup : CheckoutJournal → CheckoutJournal
    with_backup j = record j {
      database_backups = j.database_backups ++ (record { target = p; backup = place n } ∷ []);
      updated_at = m.now;
    }

    valid_with :
        (j : CheckoutJournal)
        → validate_checkout_journal m.is_whitespace j ≡ ok tt
        → validate_checkout_journal m.is_whitespace (with_backup j) ≡ ok tt
    unfolding validate_checkout_journal with_backup
    valid_with j h = h

    -- The journal that lists the new backup.
    listed :
        (j : CheckoutJournal) (saved : Option CheckoutJournal) (f g : Files)
        → Early m role before n (p ∷ rest) j saved f
        → Backed j g
        → Early m role before (n + 1) rest (with_backup j) saved g
    unfolding Backed with_backup
    listed j saved f g h b =
        let new : CheckoutDatabaseBackup = record { target = p; backup = place n } in
        record {
          now = record {
            valid = valid_with j h.now.valid;
            layout = h.now.layout;
            unchanged = h.now.unchanged;
          };
          idle = record {
            agrees = b.0.agrees;
            fresh = b.0.fresh;
            free = b.0.free;
            saved =
                All-append (Saved (site_of role before j) g) j.database_backups (new ∷ []) b.0.saved
                  (
                    record {
                      there = b.1;
                      same = b.2;
                      of_database = of_database;
                      index = n;
                      at_index = places n;
                    },
                    tt,
                  );
          };
          once = h.once;
          below =
              All-append _ j.database_backups (new ∷ [])
                (All-map (λ b x. (x.0, x.1, omega (arith, x.2))) j.database_backups h.below)
                ((n, places n, omega arith), tt);
          cover = λ q e. elim (h.cover q e) [
            | inl (inl x) ↦
                inr (new, Elem-append_right new j.database_backups (new ∷ []) (inl refl), x)
            | inl (inr x) ↦ inl x
            | inr (b', x, y) ↦ inr (b', Elem-append_left b' j.database_backups (new ∷ []) x, y)
          ];
          past = h.past;
        }

    pub back_up_database_goes :
        (w : World)
        → Early m role before n (p ∷ rest) w.held w.saved w.files
        → Goes
            (back_up_database m place n p)
            w
            (λ (u : Unit {0}) v. Early m role before (n + 1) rest v.held v.saved v.files)
            (Revertible m role before)
    unfolding back_up_database copy Backed with_backup
    back_up_database_goes w h =
        let t : Triple false w (Idle (site_of role before w.held) w.held.database_backups)
            (touch (copied p (place n))) (λ u. Backed w.held)
            (Idle (site_of role before w.held) w.held.database_backups) =
          touch_to (λ f x. x) (λ f x q. cc)
            (λ f g x e. backed w.held h.now.layout h.below f g x e) in
        sequence
          (loosen (λ u v k. k)
            (λ v k.
              Early-Revertible m role before n (p ∷ rest) v
                (early_at n (p ∷ rest) v h k.held k.saved k.files))
            (goes_of t w (here m role before w h.idle)))
          (λ u v k. held_goes _ k.held (
            hold_goes (
              write_early (n + 1) rest (record v { held = with_backup w.held })
                (subst (λ s. Early m role before (n + 1) rest (with_backup w.held) s v.files)
                  (sym k.saved) (listed w.held w.saved w.files v.files h k.files)))))

  module _ (place : ℕ → FilePath) (places : (i : ℕ) → role (place i) ≡ saved_path i) where
    pub back_up_databases_goes :
        (ps : List FilePath) (n : ℕ) (w : World)
        → All (λ p. role p ≡ database) ps
        → Early m role before n ps w.held w.saved w.files
        → Goes
            (back_up_databases m place n ps)
            w
            (λ (u : Unit {0}) v. (k : ℕ) × Early m role before k [] v.held v.saved v.files)
            (Revertible m role before)
    unfolding back_up_databases give
    back_up_databases_goes [] n w ds h = record { ends = (n, h) }
    back_up_databases_goes (p ∷ ps) n w (d, ds) h =
        sequence (back_up_database_goes place places n p d ps w h)
          (λ u v k. back_up_databases_goes ps (n + 1) v ds k)
