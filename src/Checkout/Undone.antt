-- ===== src/Checkout/Undone.antt =====
-- `roll_back_swap` of crates/sync-core/src/checkout.rs: wherever it ends every swap can still be undone, and
-- where it reports no failure its own swap has been.
use codex_session_sync.Prelude.{
  ==_refl, All, Bool, List, Option, Option-cases, Result, String, [], and_left, and_right, ap, ap₂,
  arith, err, false, if_false, if_true, inl, inr, is_some, none, not, ok, ok_or, refl, some, subst,
  sym, true, true≢false, ◌&&◌, ◌++◌, ◌||◌, ◌∙◌, ◌∷◌, ◌≡◌, nat_eq, string_eq, option_eq, list_eq,
}
use codex_session_sync.Checkout.Rollback.{
  roll_back_swap, file_name, preserve, put_back, report_unless, preserve_at,
}
use codex_session_sync.Checkout.Rules.{give_rule, consequence, exists_rule, bind_rule, Triple}
use codex_session_sync.Checkout.Calls.{
  tried_either, lift_rule, branch_rule, Tried, renamed_there, touch_to, attempt_rule, absurd_rule,
  renamed_lem,
}
use codex_session_sync.Checkout.Undo.{
  Undoing-same, is_aside, Back-same_at, Back-step, set_backup-Beside, Open-step, set_failed-Beside,
  set_live-Beside, Beside-trans, failed≢live, live≢backup, failed≢backup, Aside, Undoing, Members,
}
use codex_session_sync.Checkout.Journal.{
  no_file_name, not_restored, not_preserved, CheckoutError, Failure, FilePath,
  CheckoutDirectorySwap, CheckoutDatabaseBackup,
}
use codex_session_sync.Checkout.Layout.{
  apart, Beside, Back, failed_of, Elem, Layout, Site, Restorable, untouched, emptied, replaced,
  added,
}
use mathlib.Core.Option.{some-injective}
use codex_session_sync.Checkout.World.{
  set_file, remove, lift, give, rename, World, renamed, Files, ◌>>=◌,
}

-- What the code finds out from the paths of a swap, and what that tells.
begun_options :
    (existed : Bool) (was live backup failed : Option String)
    → existed ≡ is_some was
    → Restorable was live backup failed
    → let started = is_some backup || (not existed && is_some live) in
      (started ≡ false → (backup ≡ none) × (live ≡ was))
      × (started ≡ true → backup ≡ was)
      × (started ≡ true → is_some live ≡ true → failed ≡ none)
      × (started ≡ true → backup ≡ none → live ≡ was → ⊥)
begun_options existed was live backup failed e (untouched a b) =
    (ground arith, ground arith, ground arith, ground arith)
begun_options existed was live backup failed e (emptied a b c) =
    (ground arith, ground arith, ground arith, ground arith)
begun_options existed was live backup failed e (replaced a b c) =
    (ground arith, ground arith, ground arith, ground arith)
begun_options existed was live backup failed e (added a b c) =
    (ground arith, ground arith, ground arith, ground arith)

pub absent : (o : Option String) → is_some o ≡ false → o ≡ none
absent none e = refl
absent (some c) e = cc

not-true : (b : Bool) → not b ≡ true → b ≡ false
not-true true e = cc
not-true false e = refl

and_not-left : (a b : Bool) → (a && not b) ≡ false → b ≡ false → a ≡ false
and_not-left true true e h = cc
and_not-left true false e h = cc
and_not-left false b e h = refl

cons_not-nil : (kept : List Failure) (x : Failure) → kept ++ (x ∷ []) ≡ [] → ⊥
cons_not-nil [] x e = cc
cons_not-nil (k ∷ kept) x e = cc

nil_of_append : (kept : List Failure) → kept ++ [] ≡ [] → kept ≡ []
nil_of_append [] e = refl
nil_of_append (k ∷ kept) e = cc

failed_of-named :
    (root live : FilePath) (name : String)
    → file_name live ≡ some name
    → failed_of root live ≡ root ++ (name ∷ [])
unfolding failed_of
failed_of-named root live name e = rw (e, failed_of) refl

-- Away from its live path an old content is at the backup, or there was none.
pub Restorable-away :
    (was live backup failed : Option String)
    → backup ≡ was
    → live ≡ none
    → Restorable was live backup failed
Restorable-away none live backup failed b e = untouched b e
Restorable-away (some c) live backup failed b e = emptied refl b e

module _ {site : Site} (layout : Layout site) (backups : List CheckoutDatabaseBackup)
    (t : CheckoutDirectorySwap) (mine : Elem t site.swaps) (xs : List CheckoutDirectorySwap)
    (members : Members site xs) where
  abbrev failed : FilePath
  failed = failed_of site.root t.live

  -- Whether the swap was begun, as the code finds out from its paths.
  record Begun (started : Bool) (f : Files) : Type 0 where
    undoing : Undoing site backups xs f
    idle : started ≡ false → Back site f t
    held : started ≡ true → f t.backup ≡ site.before t.live
    free : started ≡ true → is_some (f t.live) ≡ true → f failed ≡ none
    others : started ≡ true → Aside t xs

  record Kept (quiet started : Bool) (kept : List Failure) (f : Files) : Type 0 where
    undoing : Undoing site backups xs f
    idle : started ≡ false → Back site f t
    held : started ≡ true → f t.backup ≡ site.before t.live
    gone : kept ≡ [] → started ≡ true → f t.live ≡ none
    others : started ≡ true → Aside t xs
    silent : quiet ≡ true → kept ≡ []

  record Put (quiet started : Bool) (kept : List Failure) (f : Files) : Type 0 where
    kept_so : Kept quiet started kept f
    begun_so : started ≡ true
    full : is_some (f t.backup) ≡ true
    away : f t.live ≡ none

  pub record Restored (quiet : Bool) (failures : List Failure) (f : Files) : Type 0 where
    pub undoing : Undoing site backups xs f
    pub back : failures ≡ [] → Back site f t
    pub silent : quiet ≡ true → failures ≡ []

  -- A swap that is back would not be begun again, so it is not among those that are.
  others_of :
      (f : Files) (ys : List CheckoutDirectorySwap)
      → Members site ys
      → All (Back site f) ys
      → ¬ Back site f t
      → Aside t ys
  others_of f [] m h n = tt
  others_of f (y ∷ ys) (m, ms) (h, hs) n = (
    (λ e. n (subst (λ s. Back site f s) (sym (layout.once t y mine m e)) h)),
    others_of f ys ms hs n,
  )

  swap_started : Files → Bool
  swap_started f = is_some (f t.backup) || (not t.original_existed && is_some (f t.live))

  begun : (f : Files) → Undoing site backups xs f → Begun (swap_started f) f
  unfolding swap_started
  begun f u =
      let facts =
        begun_options t.original_existed (site.before t.live) (f t.live) (f t.backup) (f failed)
          (layout.existed t mine) (u.whole.restorable t mine) in
      record {
        undoing = u;
        idle = λ e. record { cleared = (facts.0 e).0; back = (facts.0 e).1 };
        held = facts.1;
        free = facts.2;
        others = λ e. others_of f xs members u.undone (λ b. facts.3 e b.cleared b.back);
      }

  -- The live entry moved to the failed states.
  moved_away :
      (f g : Files)
      → Begun true f
      → renamed t.live failed f ≡ some g
      → Undoing site backups xs g × (g t.backup ≡ site.before t.live) × (g t.live ≡ none)
  moved_away f g b h =
      let (c, found, made) = renamed_lem t.live failed f g h in
      let kept : g t.backup ≡ site.before t.live =
        ap (λ (k : Files). k t.backup) made
        ∙ (if_false _ _ (failed≢backup layout t mine)
            ∙ (if_false _ _ (live≢backup layout t mine) ∙ b.held refl)) in
      let away : g t.live ≡ none =
        ap (λ (k : Files). k t.live) made
        ∙ (if_false _ _ (failed≢live layout t mine) ∙ if_true _ _ (==_refl t.live)) in
      let same : Beside site t f g =
        subst (λ k. Beside site t f k) (sym made)
          (Beside-trans (set_live-Beside none) (set_failed-Beside (some c))) in
      (
        record {
          whole = Open-step layout mine same b.undoing.whole (Restorable-away _ _ _ _ kept away);
          undone = Back-step layout mine same xs members (b.others refl) b.undoing.undone;
        },
        kept,
        away,
      )

  -- The backup moved to the live path.
  moved_back :
      (f g : Files)
      → Undoing site backups xs f
      → Aside t xs
      → f t.backup ≡ site.before t.live
      → renamed t.backup t.live f ≡ some g
      → Undoing site backups xs g × Back site g t
  moved_back f g u a b h =
      let (c, found, made) = renamed_lem t.backup t.live f g h in
      let cleared : g t.backup ≡ none =
        ap (λ (k : Files). k t.backup) made
        ∙ (if_false _ _ (live≢backup layout t mine) ∙ if_true _ _ (==_refl t.backup)) in
      let there : g t.live ≡ site.before t.live =
        ap (λ (k : Files). k t.live) made ∙ (if_true _ _ (==_refl t.live) ∙ (sym found ∙ b)) in
      let same : Beside site t f g =
        subst (λ k. Beside site t f k) (sym made)
          (Beside-trans (set_backup-Beside none) (set_live-Beside (some c))) in
      (
        record {
          whole = Open-step layout mine same u.whole (untouched cleared there);
          undone = Back-step layout mine same xs members a u.undone;
        },
        record { cleared = cleared; back = there },
      )

  abbrev Stands : Files → Type 0
  Stands f = Begun true f × (is_some (f t.live) ≡ true)

  Away : Files → Type 0
  Away f =
      Undoing site backups xs f × (f t.backup ≡ site.before t.live) × (f t.live ≡ none) × Aside t xs

  -- Removing what was staged.
  swept :
      (quiet : Bool) (failures : List Failure) (f g : Files)
      → Restored quiet failures f
      → g ≡ set_file t.staged none f
      → Restored quiet failures g
  swept quiet failures f g h made =
      let same : (p : FilePath) → is_aside (site.role p) ≡ false → g p ≡ f p = λ p a.
        ap (λ (k : Files). k p) made
        ∙ if_false _ _ (
            apart layout t.staged p
              (λ e. cc (a, ap is_aside e, ap is_aside (layout.staged_role t mine)))) in
      record {
        undoing = Undoing-same layout f g same xs members h.undoing;
        back = λ e. Back-same_at layout f g same t mine (h.back e);
        silent = h.silent;
      }

  module _ {quiet : Bool} {r : World} where
    Kept-rule :
        {H : Files → Type 0} (moved : Result CheckoutError (Unit {0}))
        → Triple quiet r
            (Tried quiet (λ _. Away) Stands moved)
            (give (report_unless moved (not_preserved t.live)))
            (Kept quiet true)
            H
    unfolding report_unless Away
    Kept-rule (ok u) = give_rule [] (λ f h. record {
      undoing = h.0;
      idle = λ e. cc;
      held = λ e. h.1;
      gone = λ e k. h.2;
      others = λ e. h.3;
      silent = λ q. refl;
    })
    Kept-rule (err e) = give_rule (not_preserved t.live ∷ []) (λ f h. record {
      undoing = h.0.0.undoing;
      idle = λ x. cc;
      held = h.0.0.held;
      gone = λ x k. cc;
      others = h.0.0.others;
      silent = λ q. absurd (h.1 q);
    })

    preserve_at_rule :
        Triple quiet r Stands
          (preserve_at failed t.live)
          (Kept quiet true)
          (Undoing site backups xs)
    unfolding preserve_at rename report_unless Away
    preserve_at_rule =
        consequence (λ f h. h) (λ a f h. h) (λ f h. h.0.undoing)
          (bind_rule {H = Stands} exists_rule (λ there.
            branch_rule there (λ e. absurd_rule (λ f h. cc (e, h.1, h.0.0.free refl h.0.1)))
              (λ e.
                bind_rule
                  (attempt_rule (
                    touch_to {G = Away} (λ f h. h.0) (λ f h q. renamed_there t.live failed f h.0.1)
                      (λ f g h m.
                        let (u, k, a) = moved_away f g h.0.0 m in (u, k, a, h.0.0.others refl))))
                  Kept-rule)))

    named_rule :
        Triple quiet r Stands
          (lift (ok_or (file_name t.live) no_file_name) >>= λ name.
            preserve_at (site.root ++ (name ∷ [])) t.live)
          (Kept quiet true)
          (Undoing site backups xs)
    named_rule = elim (Option-cases (file_name t.live)) [
      | inl nothing ↦ absurd (true≢false (sym (layout.named t mine) ∙ ap is_some nothing))
      | inr (name, found) ↦
          lift_rule (λ n. preserve_at (site.root ++ (n ∷ [])) t.live)
            (ap (λ o. ok_or o no_file_name) found)
            (subst
              (λ p.
                Triple quiet r Stands (preserve_at p t.live) (Kept quiet true)
                  (Undoing site backups xs))
              (failed_of-named site.root t.live name found) preserve_at_rule)
    ]

    preserve_rule :
        (started : Bool)
        → Triple quiet r
            (Begun started)
            (preserve started site.root t.live)
            (Kept quiet started)
            (Undoing site backups xs)
    unfolding preserve
    preserve_rule true = bind_rule exists_rule (λ there.
        branch_rule there
          (λ e. consequence (λ f h. (h.0, h.1 ∙ e)) (λ a f h. h) (λ f h. h) named_rule)
          (λ e. give_rule [] (λ f h. record {
            undoing = h.0.undoing;
            idle = h.0.idle;
            held = h.0.held;
            gone = λ k s. absent (f t.live) (h.1 ∙ e);
            others = h.0.others;
            silent = λ q. refl;
          })))
    preserve_rule false = bind_rule exists_rule (λ there. give_rule [] (λ f h. record {
      undoing = h.0.undoing;
      idle = h.0.idle;
      held = h.0.held;
      gone = λ k s. cc;
      others = h.0.others;
      silent = λ q. refl;
    }))

    Put-rule :
        (started : Bool) (kept : List Failure) (moved : Result CheckoutError (Unit {0}))
        → Triple quiet r
            (Tried quiet
              (λ _ f. (Undoing site backups xs f × Back site f t) × (quiet ≡ true → kept ≡ []))
              (Put quiet started kept)
              moved)
            (give (report_unless moved (not_restored t.live)))
            (λ restored. Restored quiet (kept ++ restored))
            (Put quiet started kept)
    unfolding report_unless
    Put-rule started kept (ok u) =
        give_rule []
          (λ f h. record { undoing = h.0.0; back = λ e. h.0.1; silent = λ q. rw (h.1 q) refl })
    Put-rule started kept (err e) = give_rule (not_restored t.live ∷ []) (λ f h. record {
      undoing = h.0.kept_so.undoing;
      back = λ x. absurd (cons_not-nil kept (not_restored t.live) x);
      silent = λ q. absurd (h.1 q);
    })

    put_back_rule :
        (started : Bool) (kept : List Failure)
        → Triple quiet r
            (Kept quiet started kept)
            (put_back started t)
            (λ restored. Restored quiet (kept ++ restored))
            (Undoing site backups xs)
    unfolding put_back rename
    put_back_rule true kept = bind_rule exists_rule (λ backup. bind_rule exists_rule (λ live.
        branch_rule (backup && not live)
          (λ e.
            consequence
              (λ f h. record {
                kept_so = h.0.0;
                begun_so = refl;
                full = h.0.1 ∙ and_left backup (not live) e;
                away = absent (f t.live) (h.1 ∙ not-true live (and_right backup (not live) e));
              })
              (λ a f h. h) (λ f h. h.kept_so.undoing)
              (bind_rule
                (attempt_rule (
                  touch_to
                    {G = λ f.
                      (Undoing site backups xs f × Back site f t) × (quiet ≡ true → kept ≡ [])}
                    (λ f h. h) (λ f h q. renamed_there t.backup t.live f h.full)
                    (λ f g h m. (
                      moved_back f g h.kept_so.undoing (h.kept_so.others refl) (h.kept_so.held refl)
                          m,
                      h.kept_so.silent,
                    ))))
                (Put-rule true kept)))
          (λ e. give_rule [] (λ f h. record {
            undoing = h.0.0.undoing;
            back = λ n.
                let k : kept ≡ [] = nil_of_append kept n in
                let gone : f t.live ≡ none = h.0.0.gone k refl in
                let clear : f t.backup ≡ none =
                  absent (f t.backup)
                    (h.0.1 ∙ and_not-left backup live e (sym h.1 ∙ ap is_some gone)) in
                record { cleared = clear; back = gone ∙ (sym clear ∙ h.0.0.held refl) };
            silent = λ q. rw (h.0.0.silent q) refl;
          }))))
    put_back_rule false kept = bind_rule exists_rule (λ backup. bind_rule exists_rule (λ live.
        give_rule [] (λ f h. record {
          undoing = h.0.0.undoing;
          back = λ n. h.0.0.idle refl;
          silent = λ q. rw (h.0.0.silent q) refl;
        })))

    -- Wherever a round of the loops ends every swap can still be undone.
    pub roll_back_swap_rule :
        Triple quiet r
          (Undoing site backups xs)
          (roll_back_swap true site.root t)
          (Restored quiet)
          (Undoing site backups xs)
    unfolding roll_back_swap swap_started remove
    roll_back_swap_rule = bind_rule exists_rule (λ backup. bind_rule exists_rule (λ live.
        bind_rule
          (consequence
            (λ f h.
              subst (λ b. Begun b f) (ap₂ (λ a b. a || (not t.original_existed && b)) h.0.1 h.1)
                (begun f h.0.0))
            (λ a f h. h) (λ f h. h) (preserve_rule (backup || (not t.original_existed && live))))
          (λ kept.
            bind_rule (put_back_rule (backup || (not t.original_existed && live)) kept) (λ restored.
              consequence (λ f h. h) (λ a f h. h) (λ f h. h.undoing)
                (bind_rule
                  (attempt_rule (
                    touch_to {G = Restored quiet (kept ++ restored)} (λ f h. h) (λ f h q. refl)
                      (λ f g h m.
                        swept quiet (kept ++ restored) f g h (sym (some-injective _ _ m)))))
                  (λ ignored. give_rule (kept ++ restored) (λ f h.
                    tried_either quiet (Restored quiet (kept ++ restored)) ignored f h)))))))
