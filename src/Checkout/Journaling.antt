-- ===== src/Checkout/Journaling.antt =====
-- What writing the journal of crates/sync-core/src/checkout.rs leaves: the new journal, or the old one, or
-- none, between the removal of the old one and the renaming of the new one.
use codex_session_sync.Prelude.{
  Bool, List, Result, [], false, inl, inr, none, ok, refl, some, subst, sym, true, ◌∷◌, ◌≡◌, ◌⊎◌,
  nat_eq, string_eq, option_eq, list_eq,
}
use codex_session_sync.Checkout.Machine.{Machine}
use codex_session_sync.Checkout.Apply.{write_checkout_journal}
use codex_session_sync.Checkout.Rules.{Triple, Left, At, Ends}
use codex_session_sync.Checkout.Calls.{pause_rule}
use codex_session_sync.Checkout.Journal.{CheckoutError, validate_checkout_journal, CheckoutJournal}
use codex_session_sync.Checkout.World.{
  hold, Files, held_journal, lift, stopped, failed, pause, give, done, when, Action, Fate, Run,
  call, World, call_with, works, fails, stops, ◌>>=◌, ◌>>◌,
}

-- From the world `w` the program ends as `Q` says, or breaks off as `R` says.
pub record Goes {A : Type 0} (m : Action A) (w : World) (Q : A → World → Type 0)
    (R : World → Type 0) : Type 0 where
  pub ends : Ends Q R (m w)

Ends-bind :
    {A B : Type 0} (Q : A → World → Type 0) (R : World → Type 0) (P : B → World → Type 0)
    (run : Run A) (k : A → Action B)
    → Ends Q R run
    → ((a : A) (v : World) → Q a v → Goes (k a) v P R)
    → Ends P R (elim run [ done a v ↦ k a v | failed e v ↦ failed e v | stopped v ↦ stopped v ])
Ends-bind Q R P (done a v) k h next = (next a v h).ends
Ends-bind Q R P (failed e v) k h next = h
Ends-bind Q R P (stopped v) k h next = h

-- One program after another.
pub sequence :
    {A B : Type 0} {Q : A → World → Type 0} {R : World → Type 0} {P : B → World → Type 0}
    {m : Action A} {k : A → Action B} {w : World}
    → Goes m w Q R
    → ((a : A) (v : World) → Q a v → Goes (k a) v P R)
    → Goes (m >>= k) w P R
unfolding ◌>>=◌
sequence {Q} {R} {P} {m} {k} {w} h next = record { ends = Ends-bind Q R P (m w) k h.ends next }

loosen_at :
    {A : Type 0} (Q Q' : A → World → Type 0) (R R' : World → Type 0) (run : Run A)
    → ((a : A) (v : World) → Q a v → Q' a v)
    → ((v : World) → R v → R' v)
    → Ends Q R run
    → Ends Q' R' run
loosen_at Q Q' R R' (done a v) q r h = q a v h
loosen_at Q Q' R R' (failed e v) q r h = r v h
loosen_at Q Q' R R' (stopped v) q r h = r v h

-- The ends of a program, described less exactly.
pub loosen :
    {A : Type 0} {Q Q' : A → World → Type 0} {R R' : World → Type 0} {m : Action A} {w : World}
    → ((a : A) (v : World) → Q a v → Q' a v)
    → ((v : World) → R v → R' v)
    → Goes m w Q R
    → Goes m w Q' R'
loosen {Q} {Q'} {R} {R'} {m} {w} q r h = record { ends = loosen_at Q Q' R R' (m w) q r h.ends }

pub lift_goes :
    {A B : Type 0} {P : B → World → Type 0} {R : World → Type 0} {result : Result CheckoutError A}
    {a : A} (k : A → Action B) {w : World}
    → result ≡ ok a
    → Goes (k a) w P R
    → Goes (lift result >>= k) w P R
unfolding lift give ◌>>=◌
lift_goes k e h = rw e (record { ends = h.ends })

call_at :
    (quiet : Bool) (Q R : World → Type 0) (g : World → World) (w : World) (fates : List Fate)
    → w.fates ≡ fates
    → (quiet ≡ true → w.fates ≡ [])
    → ((fs : List Fate) → (quiet ≡ true → fs ≡ []) → Q (g (record w { fates = fs })))
    → ((fs : List Fate) → (quiet ≡ true → ⊥) → R (record w { fates = fs }))
    → Ends (λ (u : Unit {0}). Q) R (call_with fates (λ v. some (g v)) w)
unfolding call_with
call_at quiet Q R g w [] e calm good bad =
    subst (λ fs. Q (g (record w { fates = fs }))) (sym e) (good [] (λ q. refl))
call_at quiet Q R g w (works ∷ fs) e calm good bad = good fs (λ q. cc (e, calm q))
call_at quiet Q R g w (fails ∷ fs) e calm good bad = bad fs (λ q. cc (e, calm q))
call_at quiet Q R g w (stops ∷ fs) e calm good bad = bad fs (λ q. cc (e, calm q))

pub call_rule :
    {quiet : Bool} {Q R : World → Type 0} (g : World → World) {w : World}
    → (quiet ≡ true → w.fates ≡ [])
    → ((fs : List Fate) → (quiet ≡ true → fs ≡ []) → Q (g (record w { fates = fs })))
    → ((fs : List Fate) → (quiet ≡ true → ⊥) → R (record w { fates = fs }))
    → Goes (call (λ v. some (g v))) w (λ (u : Unit {0}). Q) R
unfolding call
call_rule {quiet} {Q} {R} g {w} calm good bad = record {
  ends = call_at quiet Q R g w w.fates refl calm good bad;
}

-- Where the journal that was written may be after all.
pub record Unwritten (quiet : Bool) (r : World) (w : World) : Type 0 where
  pub files : w.files ≡ r.files
  pub held : w.held ≡ r.held
  pub tracking : w.tracking ≡ r.tracking
  pub saved : (w.saved ≡ r.saved) ⊎ (w.saved ≡ none)
  pub broken : quiet ≡ true → ⊥

pub record Written (quiet : Bool) (r : World) (j : CheckoutJournal) (w : World) : Type 0 where
  pub files : w.files ≡ r.files
  pub held : w.held ≡ r.held
  pub tracking : w.tracking ≡ r.tracking
  pub saved : w.saved ≡ some j
  pub calm : quiet ≡ true → w.fates ≡ []

-- Halfway: the new journal is in the temporary file.
record Halfway (quiet : Bool) (r : World) (j : CheckoutJournal) (w : World) : Type 0 where
  files : w.files ≡ r.files
  held : w.held ≡ r.held
  tracking : w.tracking ≡ r.tracking
  saved : (w.saved ≡ r.saved) ⊎ (w.saved ≡ none)
  unsaved : w.unsaved ≡ some j
  calm : quiet ≡ true → w.fates ≡ []

-- Nothing has been written yet.
record Ready (quiet : Bool) (r : World) (w : World) : Type 0 where
  files : w.files ≡ r.files
  held : w.held ≡ r.held
  tracking : w.tracking ≡ r.tracking
  saved : w.saved ≡ r.saved
  calm : quiet ≡ true → w.fates ≡ []

module _ (quiet : Bool) (r : World) (j : CheckoutJournal) where
  rename_journal :
      (w : World)
      → Halfway quiet r j w
      → Goes
          (call (λ v. some (record v { saved = v.unsaved; unsaved = none })))
          w
          (λ (u : Unit {0}). Written quiet r j)
          (Unwritten quiet r)
  rename_journal w h =
      call_rule (λ v. record v { saved = v.unsaved; unsaved = none }) h.calm
        (λ fs c. record {
          files = h.files;
          held = h.held;
          tracking = h.tracking;
          saved = h.unsaved;
          calm = c;
        })
        (λ fs b. record {
          files = h.files;
          held = h.held;
          tracking = h.tracking;
          saved = h.saved;
          broken = b;
        })

  remove_journal :
      (there : Bool) (w : World)
      → Halfway quiet r j w
      → Goes
          (when there (call (λ v. some (record v { saved = none }))))
          w
          (λ (u : Unit {0}). Halfway quiet r j)
          (Unwritten quiet r)
  unfolding when give
  remove_journal false w h = record { ends = h }
  remove_journal true w h =
      call_rule (λ v. record v { saved = none }) h.calm
        (λ fs c. record {
          files = h.files;
          held = h.held;
          tracking = h.tracking;
          saved = inr refl;
          unsaved = h.unsaved;
          calm = c;
        })
        (λ fs b. record {
          files = h.files;
          held = h.held;
          tracking = h.tracking;
          saved = h.saved;
          broken = b;
        })

  write_temporary :
      (w : World)
      → Ready quiet r w
      → Goes
          (call (λ v. some (record v { unsaved = some j })))
          w
          (λ (u : Unit {0}). Halfway quiet r j)
          (Unwritten quiet r)
  write_temporary w h =
      call_rule (λ v. record v { unsaved = some j }) h.calm
        (λ fs c. record {
          files = h.files;
          held = h.held;
          tracking = h.tracking;
          saved = inl h.saved;
          unsaved = refl;
          calm = c;
        })
        (λ fs b. record {
          files = h.files;
          held = h.held;
          tracking = h.tracking;
          saved = inl h.saved;
          broken = b;
        })

  goes_pause :
      At quiet r (λ f. f ≡ r.files) r
      → Goes pause r
          (λ (u : Unit {0}). At quiet r (λ f. f ≡ r.files))
          (Left quiet r (λ f. f ≡ r.files))
  goes_pause h =
      let t : Triple quiet r (λ f. f ≡ r.files) pause (λ u f. f ≡ r.files) (λ f. f ≡ r.files) =
        pause_rule in
      record { ends = t.ends r h }

  pause-Ready :
      (quiet ≡ true → r.fates ≡ [])
      → Goes pause r (λ (u : Unit {0}). Ready quiet r) (Unwritten quiet r)
  pause-Ready calm =
      loosen
        (λ u v h. record {
          files = h.files;
          held = h.held;
          tracking = h.tracking;
          saved = h.saved;
          calm = h.calm;
        })
        (λ v h. record {
          files = h.files;
          held = h.held;
          tracking = h.tracking;
          saved = inl h.saved;
          broken = h.broken;
        })
        (goes_pause (record {
          saved = refl;
          unsaved = refl;
          held = refl;
          tracking = refl;
          files = refl;
          calm = calm;
        }))

  -- A journal that is valid is written, unless a fault comes between; then it is the old one, or gone.
  pub write_checkout_journal_rule :
      (m : Machine)
      → validate_checkout_journal m.is_whitespace j ≡ ok tt
      → (quiet ≡ true → r.fates ≡ [])
      → Goes
          (write_checkout_journal m j)
          r
          (λ (u : Unit {0}). Written quiet r j)
          (Unwritten quiet r)
  unfolding write_checkout_journal
  write_checkout_journal_rule m valid calm = lift_goes _ valid (
      sequence (pause-Ready calm) (λ a v h. sequence (write_temporary v h) (λ b w k.
        sequence {Q = λ there. Halfway quiet r j} (record { ends = k })
          (λ there x l. sequence (remove_journal there x l) (λ c y n. rename_journal y n)))))

module _ {B : Type 0} {P : B → World → Type 0} {R : World → Type 0} where
  pub held_goes :
      (k : CheckoutJournal → Action B) {w : World} {j : CheckoutJournal}
      → w.held ≡ j
      → Goes (k j) w P R
      → Goes (held_journal >>= k) w P R
  unfolding held_journal ◌>>=◌
  held_goes k {w} e h = record { ends = subst (λ x. Ends P R (k x w)) (sym e) h.ends }

  pub hold_goes :
      {k : Action B} {w : World} {j : CheckoutJournal}
      → Goes k (record w { held = j }) P R
      → Goes (hold j >> k) w P R
  unfolding hold ◌>>=◌
  hold_goes h = record { ends = h.ends }

pub goes_of :
    {quiet : Bool} {r : World} {A : Type 0} {F H : Files → Type 0} {G : A → Files → Type 0}
    {m : Action A}
    → Triple quiet r F m G H
    → (w : World) → At quiet r F w
    → Goes m w (λ a. At quiet r (G a)) (Left quiet r H)
goes_of t w h = record { ends = t.ends w h }
