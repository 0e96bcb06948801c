-- ===== src/Tracking/Reconcile.antt =====
-- `reconcile_checkout` of crates/sync-core/src/sync.rs, which a client calls again when it does not know
-- whether an earlier call went through.
use codex_session_sync.Prelude.{
  ==_refl, ==→eq, >>=-eq-ok, Bool, Bool-cases, Option, Option-cases, String, and_intro, and_left,
  and_not-false, and_right, ap, arith, eqb_iff, eq→==, err≢ok, false, if_false, if_true,
  if◌then◌else◌, inl, inr, not, ok, ok-injective, ok_or, refl, some, subst, sym, true, true≢false,
  ℕ, ◌&&◌, ◌==◌, ◌>>=◌, ◌∙◌, ◌≡◌, nat_eq, string_eq, option_eq,
}
use codex_session_sync.Tracking.Rows.{
  TrackingRecord, TrackingDatabase, Place, place_of, place_eq, select-upsert_active,
}
use codex_session_sync.Tracking.Store.{
  epoch_of, disappeared, check_head, next_generation, record_at, active_at, with_record,
  with_active, generation_of, load, names, active, already_applied, reconcile_at,
  reconcile_checkout,
}
use codex_session_sync.Tracking.Swap.{load-with_record}

-- What a call that went through leaves: the record it answers, at the next generation with the head that
-- was asked for, and where the namespace was to be activated, a binding of the home to it.
record Reconciled (p : Place) (next : ℕ) (head : Option String) (activate : Bool)
    (db after : TrackingDatabase) (r : TrackingRecord) : Type 0 where
  held : load p after ≡ some r
  generation : r.generation ≡ next
  integrated : r.integrated_head ≡ head
  activated : activate ≡ true → names p (active p.home after) ≡ true
  elsewhere : (q : Place) → (p == q) ≡ false → load q after ≡ load q db
  other_homes :
      (home : String) → (activate && p.home == home) ≡ false → active home after ≡ active home db

-- The call finds its own work done.
applied-Reconciled :
    (p : Place) (next : ℕ) (head : Option String) (activate : Bool) (db : TrackingDatabase)
    (r : TrackingRecord)
    → load p db ≡ some r
    → already_applied next head (some r) ≡ true
    → (activate && not (names p (active p.home db))) ≡ false
    → Reconciled p next head activate db db r
unfolding already_applied
applied-Reconciled p next head activate db r found done named = record {
  held = found;
  generation = (eqb_iff r.generation next).0 (and_left _ _ done);
  integrated = ==→eq (and_right _ _ done);
  activated = λ e. and_not-false activate (names p (active p.home db)) named e;
  elsewhere = λ q other. refl;
  other_homes = λ home other. refl;
}

bound : Place → Bool → String → TrackingDatabase → TrackingDatabase
bound p activate now db = if activate then with_active (active_at p now) db else db

-- The call writes its record, and the binding where it was asked for.
written-Reconciled :
    (p : Place) (next : ℕ) (head : Option String) (activate : Bool) (now : String) (epoch : ℕ)
    (db : TrackingDatabase)
    → Reconciled p next head activate db
        (bound p activate now (with_record (record_at p head epoch next now) db))
        (record_at p head epoch next now)
unfolding bound active names load place_of
written-Reconciled p next head true now epoch db =
    let new = record_at p head epoch next now in
    let binds =
      λ (home : String). select-upsert_active home (active_at p now) db.active_namespace in
    record {
      held = load-with_record p p new db refl ∙ if_true _ _ (==_refl p);
      generation = refl;
      integrated = refl;
      activated = λ e.
          ap (names p) (binds p.home ∙ if_true _ _ (==_refl p.home))
          ∙ and_intro _ _ (==_refl p.remote) (==_refl p.namespace);
      elsewhere = λ q other. load-with_record p q new db refl ∙ if_false _ _ other;
      other_homes = λ home other. binds home ∙ if_false _ _ other;
    }
written-Reconciled p next head false now epoch db =
    let new = record_at p head epoch next now in
    record {
      held = load-with_record p p new db refl ∙ if_true _ _ (==_refl p);
      generation = refl;
      integrated = refl;
      activated = λ e. ground arith;
      elsewhere = λ q other. load-with_record p q new db refl ∙ if_false _ _ other;
      other_homes = λ home other. refl;
    }

reconcile_at-Reconciled :
    (p : Place) (expected : Option ℕ) (head : Option String) (activate : Bool) (now : String)
    (next : ℕ) (db after : TrackingDatabase) (r : TrackingRecord)
    → reconcile_at p expected head activate now next db ≡ ok (after, r)
    → Reconciled p next head activate db after r
unfolding reconcile_at already_applied active names bound
reconcile_at-Reconciled p expected head activate now next db after r h =
    elim (Bool-cases (already_applied next head (load p db))) [
      | inl done ↦ elim (Option-cases (load p db)) [
        | inl missing ↦ absurd (true≢false (sym done ∙ ap (already_applied next head) missing))
        | inr (s, found) ↦ elim (Bool-cases (activate && not (names p (active p.home db)))) [
          | inl unnamed ↦ absurd (err≢ok (sym (if_true _ _ done ∙ if_true _ _ unnamed) ∙ h))
          | inr named ↦
              let kept =
                ap (λ (o : Option TrackingRecord). ok_or o disappeared >>= λ r. ok (db, r)) found in
              subst
                (λ (x : TrackingDatabase × TrackingRecord).
                  Reconciled p next head activate db x.0 x.1)
                (ok-injective (sym (if_true _ _ done ∙ if_false _ _ named ∙ kept) ∙ h))
                (applied-Reconciled p next head activate db s found
                  (ap (already_applied next head) (sym found) ∙ done) named)
        ]
      ]
      | inr other ↦ elim (Bool-cases (generation_of (load p db) == expected)) [
        | inl same ↦
            subst
              (λ (x : TrackingDatabase × TrackingRecord).
                Reconciled p next head activate db x.0 x.1)
              (ok-injective (sym (if_false _ _ other ∙ if_true _ _ same) ∙ h))
              (written-Reconciled p next head activate now (epoch_of (load p db)) db)
        | inr changed ↦ absurd (err≢ok (sym (if_false _ _ other ∙ if_false _ _ changed) ∙ h))
      ]
    ]

named_at : (a b : Bool) → (a ≡ true → b ≡ true) → (a && not b) ≡ false
named_at true b h = rw (h refl) refl
named_at false b h = refl

-- The same call again finds its work done.
reconcile_at-again :
    (p : Place) (expected : Option ℕ) (head : Option String) (activate : Bool) (later : String)
    (next : ℕ) (db after : TrackingDatabase) (r : TrackingRecord)
    → Reconciled p next head activate db after r
    → reconcile_at p expected head activate later next after ≡ ok (after, r)
unfolding reconcile_at already_applied active
reconcile_at-again p expected head activate later next db after r t =
    let done : already_applied next head (load p after) ≡ true =
      ap (already_applied next head) t.held
      ∙ and_intro _ _ ((eqb_iff r.generation next).1 t.generation) (eq→== t.integrated) in
    let named : (activate && not (names p (active p.home after))) ≡ false =
      named_at activate (names p (active p.home after)) t.activated in
    if_true _ _ done
    ∙ if_false _ _ named
    ∙ ap (λ (o : Option TrackingRecord). ok_or o disappeared >>= λ r. ok (after, r)) t.held

-- A checkout that is reconciled leaves, at its place, the record it answers, at the generation after the
-- one that the caller expected and with the head that the caller gave; where it was to activate the
-- namespace, the home is bound to it. The records of other places are the same, and so are the active
-- namespaces of other homes, and of this one where nothing was to be activated.
pub reconcile_checkout_lem :
    (p : Place) (expected : Option ℕ) (head : Option String) (activate : Bool) (now : String)
    (db after : TrackingDatabase) (r : TrackingRecord)
    → reconcile_checkout p expected head activate now db ≡ ok (after, r)
    → (next_generation expected ≡ ok r.generation)
      × (load p after ≡ some r)
      × (r.integrated_head ≡ head)
      × (activate ≡ true → names p (active p.home after) ≡ true)
      × ((q : Place) → (p == q) ≡ false → load q after ≡ load q db)
      × ((home : String)
          → (activate && p.home == home) ≡ false
          → active home after ≡ active home db)
unfolding reconcile_checkout
reconcile_checkout_lem p expected head activate now db after r h =
    let (_, checked, h1) = >>=-eq-ok (check_head head) _ h in
    let (next, counted, h2) = >>=-eq-ok (next_generation expected) _ h1 in
    let t = reconcile_at-Reconciled p expected head activate now next db after r h2 in
    (
      counted ∙ ap ok (sym t.generation),
      t.held,
      t.integrated,
      t.activated,
      t.elsewhere,
      t.other_homes,
    )

-- A checkout that was reconciled can be reconciled again, at any later time: the second call succeeds too,
-- changes nothing and gives the same answer.
pub reconcile_checkout-again :
    (p : Place) (expected : Option ℕ) (head : Option String) (activate : Bool) (now later : String)
    (db after : TrackingDatabase) (r : TrackingRecord)
    → reconcile_checkout p expected head activate now db ≡ ok (after, r)
    → reconcile_checkout p expected head activate later after ≡ ok (after, r)
unfolding reconcile_checkout
reconcile_checkout-again p expected head activate now later db after r h =
    let (_, checked, h1) = >>=-eq-ok (check_head head) _ h in
    let (next, counted, h2) = >>=-eq-ok (next_generation expected) _ h1 in
    let t = reconcile_at-Reconciled p expected head activate now next db after r h2 in
    simp (checked, counted) (reconcile_at-again p expected head activate later next db after r t)
