-- ===== src/Tracking/Swap.antt =====
-- `compare_and_set` of crates/sync-core/src/sync.rs: what it writes, and that of two writers who read the
-- same generation one is refused.
use codex_session_sync.Prelude.{
  ==_refl, ==→eq, >>=-eq-ok, Bool-cases, Option, String, ap, arith, err, err≢ok, false, if_false,
  if_true, if◌then◌else◌, inl, inr, ne→==, none, ok, ok-injective, refl, some, sym, ℕ, ◌+◌, ◌==◌,
  ◌∙◌, ◌≡◌, nat_eq, string_eq, option_eq,
}
use Prim.Native.Nat.{◌%◌}
use codex_session_sync.Tracking.Rows.{
  place_eq, TrackingRecord, TrackingDatabase, Place, place_of, select-upsert_tracking,
}
use codex_session_sync.Tracking.Store.{
  changed_concurrently, check_head, u64_mod, or_zero, epoch_of, record_at, with_record,
  generation_of, load, compare_and_set,
}

pub load-with_record :
    (p q : Place) (r : TrackingRecord) (db : TrackingDatabase)
    → place_of r ≡ p
    → load q (with_record r db) ≡ (if p == q then some r else load q db)
unfolding load
load-with_record p q r db h =
    select-upsert_tracking q r db.namespace_tracking
    ∙ ap (λ x. if x == q then some r else load q db) h

-- What a call that went through found and wrote.
record Swapped (p : Place) (expected : Option ℕ) (head : Option String) (now : String)
    (db after : TrackingDatabase) (r : TrackingRecord) : Type 0 where
  found : generation_of (load p db) ≡ expected
  new : r ≡ record_at p head (epoch_of (load p db)) ((or_zero expected + 1) % u64_mod) now
  written : after ≡ with_record r db

compare_and_set-Swapped :
    (p : Place) (expected : Option ℕ) (head : Option String) (now : String)
    (db after : TrackingDatabase) (r : TrackingRecord)
    → compare_and_set p expected head now db ≡ ok (after, r)
    → Swapped p expected head now db after r
unfolding compare_and_set
compare_and_set-Swapped p expected head now db after r h =
    let (checked, _, h) = >>=-eq-ok (check_head head) _ h in
    elim (Bool-cases (generation_of (load p db) == expected)) [
      | inl same ↦
          let is : generation_of (load p db) ≡ expected = ==→eq same in
          let w = ok-injective (sym (if_true _ _ same) ∙ h) in
          let new = ap (λ (x : TrackingDatabase × TrackingRecord). x.1) w in
          let written = ap (λ (x : TrackingDatabase × TrackingRecord). x.0) w in
          record {
            found = is;
            new =
                sym new
                ∙ ap (λ g. record_at p head (epoch_of (load p db)) ((or_zero g + 1) % u64_mod) now)
                    is;
            written = sym written ∙ ap (λ r. with_record r db) new;
          }
      | inr other ↦ absurd (err≢ok (sym (if_false _ _ other) ∙ h))
    ]

-- A call that goes through found the generation that the caller expected, 0 standing for no record; it
-- leaves a record of the next generation, with the new head and the remote epoch of before; the records
-- of other places and the active namespaces are the same.
pub compare_and_set_lem :
    (p : Place) (expected : Option ℕ) (head : Option String) (now : String)
    (db after : TrackingDatabase) (r : TrackingRecord)
    → compare_and_set p expected head now db ≡ ok (after, r)
    → (generation_of (load p db) ≡ expected)
      × (r ≡ record_at p head (epoch_of (load p db)) ((or_zero expected + 1) % u64_mod) now)
      × (load p after ≡ some r)
      × ((q : Place) → (p == q) ≡ false → load q after ≡ load q db)
      × (after.active_namespace ≡ db.active_namespace)
unfolding place_of
compare_and_set_lem p expected head now db after r h =
    let w = compare_and_set-Swapped p expected head now db after r h in
    let at = λ (q : Place). ap (load q) w.written ∙ load-with_record p q r db (ap place_of w.new) in
    (
      w.found,
      w.new,
      at p ∙ if_true _ _ (==_refl p),
      (λ q other. at q ∙ if_false _ _ other),
      ap (λ (d : TrackingDatabase). d.active_namespace) w.written,
    )

-- The next generation is another one, also where it wraps.
advanced : (e : Option ℕ) (g : ℕ) → g ≡ (or_zero e + 1) % u64_mod → (some g == e) ≡ false
advanced none g h = refl
advanced (some n) g h = ne→== g n (λ e. absurd (omega arith))

-- Of two writers of one place that expect the same generation, where the first goes through, the second
-- is told that the state changed, and of the generation that it has now.
pub compare_and_set-excludes :
    (p : Place) (expected : Option ℕ) (head : Option String) (now : String)
    (db after : TrackingDatabase) (r : TrackingRecord) (other : Option String) (later : String)
    → compare_and_set p expected head now db ≡ ok (after, r)
    → check_head other ≡ ok tt
    → compare_and_set p expected other later after
      ≡ err (changed_concurrently expected (some r.generation))
unfolding compare_and_set
compare_and_set-excludes p expected head now db after r other later h valid =
    let (found, new, held, _, _) = compare_and_set_lem p expected head now db after r h in
    let moved = advanced expected r.generation (ap (λ (x : TrackingRecord). x.generation) new) in
    simp (valid, held, moved) refl
