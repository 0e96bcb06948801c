-- ===== src/Checkout/Recovered.antt =====
-- `recover_checkout_operation` of crates/sync-core/src/checkout.rs: where it can end from a sound journal.
use codex_session_sync.Prelude.{
  Bool, List, Option, Option-cases, Result, Result-cases, [], arith, err, inl, inr, none, ok, refl,
  some, true, ◌∙◌, ◌∷◌, ◌≡◌, nat_eq, string_eq, option_eq, list_eq,
}
use codex_session_sync.Tracking.Store.{reconcile_checkout}
use codex_session_sync.Checkout.Apply.{track, apply_tracking_update, reconciled}
use codex_session_sync.Checkout.Machine.{Machine}
use codex_session_sync.Checkout.Rules.{Triple, Ends}
use codex_session_sync.Checkout.Calls.{pause_rule}
use codex_session_sync.Checkout.Journaling.{goes_of, loosen, Goes}
use codex_session_sync.Checkout.World.{
  Fate, call_with, call, Files, refuse, pause, give, Run, lift, Action, look, attempt, World, works,
  fails, stops, done, failed, stopped,
}
use codex_session_sync.Checkout.Journal.{
  CheckoutTrackingUpdate, CheckoutJournal, io_error, CheckoutError,
}

abbrev pub TriedAt :
    {A : Type 0} → (A → World → Type 0) → (World → Type 0) → Result CheckoutError A → World → Type 0
TriedAt Q R (ok a) v = Q a v
TriedAt Q R (err e) v = R v

attempt_at :
    {A : Type 0} (Q : A → World → Type 0) (R : World → Type 0) (run : Run A)
    → Ends Q R run
    → Ends (TriedAt Q R) R (elim run [
      | done a v ↦ done (ok a) v
      | failed e v ↦ done (err e) v
      | stopped v ↦ stopped v
    ])
attempt_at Q R (done a v) h = h
attempt_at Q R (failed e v) h = h
attempt_at Q R (stopped v) h = h

pub attempt_goes :
    {A : Type 0} {Q : A → World → Type 0} {R : World → Type 0} {m : Action A} {w : World}
    → Goes m w Q R
    → Goes (attempt m) w (TriedAt Q R) R
unfolding attempt
attempt_goes {Q} {R} {m} {w} h = record { ends = attempt_at Q R (m w) h.ends }

-- The files and the journals are as they were.
pub record Same (quiet : Bool) (w v : World) : Type 0 where
  pub files : v.files ≡ w.files
  pub held : v.held ≡ w.held
  pub saved : v.saved ≡ w.saved
  pub calm : quiet ≡ true → v.fates ≡ []

pub Same-trans : {quiet : Bool} {u v w : World} → Same quiet u v → Same quiet v w → Same quiet u w
Same-trans a b = record {
  files = b.files ∙ a.files;
  held = b.held ∙ a.held;
  saved = b.saved ∙ a.saved;
  calm = b.calm;
}

module _ {quiet : Bool} where
  pub pause-Same :
      {w : World}
      → (quiet ≡ true → w.fates ≡ [])
      → Goes pause w (λ (u : Unit {0}). Same quiet w) (Same quiet w)
  pause-Same {w} calm =
      let t : Triple quiet w (λ f. f ≡ w.files) pause (λ u f. f ≡ w.files) (λ f. f ≡ w.files) =
        pause_rule in
      loosen (λ u v h. record { files = h.files; held = h.held; saved = h.saved; calm = h.calm })
        (λ v h. record {
          files = h.files;
          held = h.held;
          saved = h.saved;
          calm = λ q. absurd (h.broken q);
        })
        (goes_of t w (record {
          saved = refl;
          unsaved = refl;
          held = refl;
          tracking = refl;
          files = refl;
          calm = calm;
        }))

  pub look-Same :
      {A : Type 0} (read : Files → Result CheckoutError A) {w : World}
      → (quiet ≡ true → w.fates ≡ [])
      → Goes (look read) w (λ a v. Same quiet w v × (read v.files ≡ ok a)) (Same quiet w)
  unfolding look lift give refuse
  look-Same read {w} calm = elim (Result-cases (read w.files)) [
    | inl (a, e) ↦ record {
      ends = rw e ((record { files = refl; held = refl; saved = refl; calm = calm }, e));
    }
    | inr (x, e) ↦ record {
      ends = rw e (record { files = refl; held = refl; saved = refl; calm = calm });
    }
  ]

-- What a call that only changes the tracking database keeps.
pub record Aloof (w v : World) : Type 0 where
  pub files : v.files ≡ w.files
  pub held : v.held ≡ w.held
  pub saved : v.saved ≡ w.saved
  pub fates : v.fates ≡ w.fates

module _ {quiet : Bool} (act : World → Option World)
    (aloof : (w v : World) → act w ≡ some v → Aloof w v) where
  answered :
      (w x : World)
      → Same quiet w x
      → Ends
          (λ (u : Unit {0}). Same quiet w)
          (Same quiet w)
          (elim (act x) [ none ↦ failed io_error x | some v ↦ done tt v ])
  answered w x h = elim (Option-cases (act x)) [
    | inl e ↦ rw e h
    | inr (v, e) ↦
        let a = aloof x v e in
        rw e (record {
          files = a.files ∙ h.files;
          held = a.held ∙ h.held;
          saved = a.saved ∙ h.saved;
          calm = λ q. a.fates ∙ h.calm q;
        })
  ]

  call-Same_at :
      (w : World) (fates : List Fate)
      → w.fates ≡ fates
      → (quiet ≡ true → w.fates ≡ [])
      → Ends (λ (u : Unit {0}). Same quiet w) (Same quiet w) (call_with fates act w)
  unfolding call_with
  call-Same_at w [] e calm =
      answered w w (record { files = refl; held = refl; saved = refl; calm = calm })
  call-Same_at w (works ∷ fs) e calm =
      answered w (record w { fates = fs })
        (record { files = refl; held = refl; saved = refl; calm = λ q. cc (e, calm q) })
  call-Same_at w (fails ∷ fs) e calm = record {
    files = refl;
    held = refl;
    saved = refl;
    calm = λ q. cc (e, calm q);
  }
  call-Same_at w (stops ∷ fs) e calm = record {
    files = refl;
    held = refl;
    saved = refl;
    calm = λ q. cc (e, calm q);
  }

  call-Same :
      {w : World}
      → (quiet ≡ true → w.fates ≡ [])
      → Goes (call act) w (λ (u : Unit {0}). Same quiet w) (Same quiet w)
  unfolding call
  call-Same {w} calm = record { ends = call-Same_at w w.fates refl calm }

module _ (m : Machine) where
  reconciled-Aloof :
      (j : CheckoutJournal) (update : CheckoutTrackingUpdate) (w v : World)
      → reconciled m j update w ≡ some v
      → Aloof w v
  unfolding reconciled
  reconciled-Aloof j update w v h = elim (Option-cases (m.home_key j.target_codex_home)) [
    | inl e ↦ ground arith
    | inr (home, e) ↦
        elim (Result-cases (
          reconcile_checkout
            (record { home = home; remote = update.remote_id; namespace = update.namespace_id })
            update.expected_generation update.integrated_head update.activate_namespace m.now
            w.tracking)) [ inl ((db, r), k) ↦ ground arith | inr (x, k) ↦ ground arith ]
  ]

  track-Same :
      {quiet : Bool} (j : CheckoutJournal) (update : Option CheckoutTrackingUpdate) {w : World}
      → (quiet ≡ true → w.fates ≡ [])
      → Goes (track m j update) w (λ (u : Unit {0}). Same quiet w) (Same quiet w)
  unfolding track give
  track-Same j none calm = record {
    ends = record { files = refl; held = refl; saved = refl; calm = calm };
  }
  track-Same j (some update) calm =
      call-Same (reconciled m j update) (reconciled-Aloof j update) calm

  pub apply_tracking_update-Same :
      {quiet : Bool} (j : CheckoutJournal) {w : World}
      → (quiet ≡ true → w.fates ≡ [])
      → Goes (apply_tracking_update m j) w (λ (u : Unit {0}). Same quiet w) (Same quiet w)
  unfolding apply_tracking_update
  apply_tracking_update-Same j calm = track-Same j j.tracking_update calm
