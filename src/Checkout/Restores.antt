-- ===== src/Checkout/Restores.antt =====
-- The writes of crates/sync-core/src/checkout.rs, of its journal and of its files, and the loops of its
-- rollback, each as one run.
use codex_session_sync.Prelude.{
  All, Bool, List, [], ap, false, map, none, ok, refl, some, subst, sym, true, ◌++◌, ◌∙◌, ◌∷◌, ◌≡◌,
  ◌≢◌, ◌⊎◌, nat_eq, string_eq, option_eq, list_eq,
}
use codex_session_sync.Checkout.Loops.{All-append}
use codex_session_sync.Checkout.Applied.{apply_rule}
use codex_session_sync.Checkout.Installed.{Awaiting, Once}
use codex_session_sync.Checkout.Journaling.{
  sequence, lift_goes, Goes, goes_of, write_checkout_journal_rule, loosen,
}
use codex_session_sync.Checkout.Rollback.{undo, swap_of}
use codex_session_sync.Checkout.Apply.{write_checkout_journal}
use codex_session_sync.Checkout.Undo.{Members}
use codex_session_sync.Checkout.Transact.{apply, Plan}
use codex_session_sync.Checkout.Rules.{Ends}
use codex_session_sync.Checkout.Rewound.{undo_rule, Covers, site_of}
use codex_session_sync.Checkout.Layout.{database, Agrees, Open, Role, Layout, Site}
use codex_session_sync.Checkout.Journal.{
  CheckoutDatabaseBackup, validate_checkout_journal, CheckoutJournal, FilePath,
}
use codex_session_sync.Checkout.Machine.{Machine}
use codex_session_sync.Checkout.World.{
  touched, give, touch, when, call, call_with, Fate, Run, pause, Files, World,
}
use codex_session_sync.Checkout.World.{works, fails, stops, done, failed, stopped}
use mathlib.Core.List.{append_assoc}

-- The fates that a run from `r` to `w` has met: each was that the call works.
abbrev pub Worked : List Fate → List Fate → Type 0
Worked before after = (met : List Fate) × All (λ f. f ≡ works) met × (before ≡ met ++ after)

-- The same, and then a fate that is a fault.
abbrev pub Faulted : List Fate → List Fate → Type 0
Faulted before after =
    (met : List Fate) × All (λ f. f ≡ works) met
    × ((fault : Fate) × (fault ≢ works) × (before ≡ met ++ (fault ∷ after)))

call_met :
    (before fates : List Fate) (g : World → World) (w : World)
    → ((v : World) → (g v).fates ≡ v.fates)
    → w.fates ≡ fates
    → Worked before w.fates
    → Ends
        (λ (u : Unit {0}) v. Worked before v.fates)
        (λ v. Faulted before v.fates)
        (call_with fates (λ v. some (g v)) w)
unfolding call_with
call_met before [] g w same e h = subst (Worked before) (sym (same w)) h
call_met before (works ∷ fs) g w same e (met, worked, is) =
    subst (Worked before) (sym (same (record w { fates = fs }))) (
      met ++ (works ∷ []),
      All-append _ met (works ∷ []) worked (refl, tt),
      is ∙ ap (λ fs. met ++ fs) e ∙ sym (append_assoc met (works ∷ []) fs),
    )
call_met before (fails ∷ fs) g w same e (met, worked, is) =
    (met, worked, (fails, (λ x. cc), is ∙ ap (λ fs. met ++ fs) e))
call_met before (stops ∷ fs) g w same e (met, worked, is) =
    (met, worked, (stops, (λ x. cc), is ∙ ap (λ fs. met ++ fs) e))

-- A call that always goes through when no fault comes meets the next fate.
call_goes :
    (before : List Fate) (g : World → World) (w : World)
    → ((v : World) → (g v).fates ≡ v.fates)
    → Worked before w.fates
    → Goes
        (call (λ v. some (g v)))
        w
        (λ (u : Unit {0}) v. Worked before v.fates)
        (λ v. Faulted before v.fates)
unfolding call
call_goes before g w same h = record { ends = call_met before w.fates g w same refl h }

remove_met :
    (before : List Fate) (there : Bool) (w : World)
    → Worked before w.fates
    → Goes
        (when there (call (λ v. some (record v { saved = none }))))
        w
        (λ (u : Unit {0}) v. Worked before v.fates)
        (λ v. Faulted before v.fates)
unfolding when give
remove_met before false w h = record { ends = h }
remove_met before true w h = call_goes before (λ v. record v { saved = none }) w (λ v. refl) h

write_met :
    (m : Machine) (j : CheckoutJournal) (w : World)
    → validate_checkout_journal m.is_whitespace j ≡ ok tt
    → Goes
        (write_checkout_journal m j)
        w
        (λ (u : Unit {0}) v. Worked w.fates v.fates)
        (λ v. Faulted w.fates v.fates)
unfolding write_checkout_journal pause touch touched
write_met m j w valid =
    let before = w.fates in
    lift_goes _ valid (
      sequence (call_goes before (λ v. v) w (λ v. refl) ([], tt, refl)) (λ a v h.
        sequence (call_goes before (λ x. record x { unsaved = some j }) v (λ x. refl) h) (λ b x k.
          sequence {Q = λ there y. Worked before y.fates} (record { ends = k })
            (λ there y l. sequence (remove_met before there y l) (λ c z n.
              call_goes before (λ t. record t { saved = t.unsaved; unsaved = none }) z (λ t. refl)
                n)))))

-- What two descriptions say of how one run ends.
both-Ends :
    {A : Type 0} (Q Q' : A → World → Type 0) (R R' : World → Type 0) (run : Run A)
    → Ends Q R run
    → Ends Q' R' run
    → Ends (λ a v. Q a v × Q' a v) (λ v. R v × R' v) run
both-Ends Q Q' R R' (done a v) h k = (h, k)
both-Ends Q Q' R R' (failed e v) h k = (h, k)
both-Ends Q Q' R R' (stopped v) h k = (h, k)

module _ (w : World) where
  -- A valid journal is on the disk after a write that goes through, with the files as they were, and each call
  -- of the write worked. A write that does not go through has met a fault, after calls that worked; the files
  -- are as they were, and the journal on the disk is the one from before, or there is none.
  pub write_checkout_journal_lem :
      (m : Machine) (j : CheckoutJournal)
      → validate_checkout_journal m.is_whitespace j ≡ ok tt
      → Ends
          (λ (u : Unit {0}) v. ((v.saved ≡ some j) × (v.files ≡ w.files)) × Worked w.fates v.fates)
          (λ v.
            (((v.saved ≡ w.saved) ⊎ (v.saved ≡ none)) × (v.files ≡ w.files))
            × Faulted w.fates v.fates)
          (write_checkout_journal m j w)
  write_checkout_journal_lem m j valid =
      both-Ends _ _ _ _ (write_checkout_journal m j w)
        (loosen (λ u v k. (k.saved, k.files)) (λ v k. (k.saved, k.files))
          (write_checkout_journal_rule false w j m valid (λ q. cc))).ends
        (write_met m j w valid).ends

  -- A checkout applies its swaps and rewrites its databases from files that no swap has touched, where no live
  -- path is swapped twice: wherever a fault or an error breaks it off, what each swap has replaced can still be
  -- put back.
  pub apply_lem :
      {site : Site} (layout : Layout site) (backups : List CheckoutDatabaseBackup) (m : Machine)
      (plan : Plan) (j : CheckoutJournal)
      → Members site (j.directory_swaps ++ map swap_of j.file_swaps)
      → Once (j.directory_swaps ++ map swap_of j.file_swaps)
      → All (λ p. site.role p ≡ database) plan.databases
      → All (λ p. site.role p ≡ database) plan.catalogs
      → Awaiting layout backups (j.directory_swaps ++ map swap_of j.file_swaps) w.files
      → Ends (λ u v. Open site backups v.files) (λ v. Open site backups v.files) (apply m plan j w)
  apply_lem {site} layout backups m plan j members once databases catalogs h =
      (loosen (λ u v k. k.files) (λ v k. k.files)
        (goes_of (apply_rule layout backups {r = w} m plan j members once databases catalogs) w
          (record {
            saved = refl;
            unsaved = refl;
            held = refl;
            tracking = refl;
            files = h;
            calm = λ q. cc;
          }))).ends

  -- Where what was replaced can be put back and each changed database has a backup, the loops of a rollback that
  -- nothing fails report no failure, and every file outside the operation's own paths is as it was before.
  pub undo_lem :
      (role : FilePath → Role) (before : Files) (j : CheckoutJournal)
      → Layout (site_of role before j)
      → Covers role j.database_backups
      → Open (site_of role before j) j.database_backups w.files
      → w.fates ≡ []
      → Ends
          (λ failures v. (failures ≡ []) × Agrees (site_of role before j) v.files)
          (λ v. ⊥)
          (undo true j w)
  undo_lem role before j layout covers h calm =
      (loosen (λ failures v k. (k.files.silent refl, k.files.rewound (k.files.silent refl)))
        (λ v k. k.broken refl)
        (goes_of (undo_rule role before j layout {quiet = true} {r = w} covers) w (record {
          saved = refl;
          unsaved = refl;
          held = refl;
          tracking = refl;
          files = h;
          calm = λ q. calm;
        }))).ends
