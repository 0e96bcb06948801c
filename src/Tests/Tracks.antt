-- ===== src/Tests/Tracks.antt =====
-- The tracking store of crates/sync-core/src/sync.rs at concrete inputs.
use codex_session_sync.Protocol.Sha256.{is_lower_hex, strip_prefix, validate_sha256}
use codex_session_sync.Prelude.{
  String, [], all, err, false, none, ok, refl, some, true, ◌&&◌, ◌+◌, ◌==◌, ◌∷◌, ◌≡◌, nat_eq,
  string_eq, option_eq,
}
use Prim.Native.Nat.{◌%◌}
use codex_session_sync.Tracking.Rows.{
  upsert_active, upsert_tracking, select_tracking, TrackingRecord, Place, TrackingDatabase,
  place_eq, place_of,
}
use codex_session_sync.Tracking.Store.{
  u64_mod, or_zero, active, already_applied, epoch_of, reconcile_at, record_at, names, active_at,
  next_generation, check_head, changed_concurrently, reconcile_checkout, generation_of,
  compare_and_set, load,
}
use codex_session_sync.Tracking.Swap.{compare_and_set_lem, compare_and_set-excludes}
use codex_session_sync.Tracking.Reconcile.{reconcile_checkout_lem, reconcile_checkout-again}

abbrev here : Place
here = record { home = "/home/user/.codex"; remote = 7; namespace = 11 }

abbrev old : TrackingRecord
old = record_at here none 3 4 "monday"

abbrev store : TrackingDatabase
store = record { namespace_tracking = old ∷ []; active_namespace = [] }

abbrev head : String
head = "sha256:0123456789abcdef0123456789abcdef0123456789abcdef0123456789abcdef"

abbrev swapped : TrackingRecord
swapped = record_at here (some head) 3 5 "tuesday"

abbrev swapped_store : TrackingDatabase
swapped_store = record { namespace_tracking = swapped ∷ []; active_namespace = [] }

swaps : compare_and_set here (some 4) (some head) "tuesday" store ≡ ok (swapped_store, swapped)
unfolding compare_and_set check_head load validate_sha256 strip_prefix is_lower_hex all
    select_tracking upsert_tracking place_of
swaps = refl

compare_and_set_lem_example :
    (generation_of (load here store) ≡ some 4)
    × (swapped
        ≡ record_at here
            (some head)
            (epoch_of (load here store))
            ((or_zero (some 4) + 1) % u64_mod)
            "tuesday")
    × (load here swapped_store ≡ some swapped)
    × ((q : Place) → (here == q) ≡ false → load q swapped_store ≡ load q store)
    × (swapped_store.active_namespace ≡ store.active_namespace)
compare_and_set_lem_example =
    compare_and_set_lem here (some 4) (some head) "tuesday" store swapped_store swapped swaps

no_head : check_head none ≡ ok tt
unfolding check_head
no_head = refl

compare_and_set-excludes_example :
    compare_and_set here (some 4) none "wednesday" swapped_store
    ≡ err (changed_concurrently (some 4) (some swapped.generation))
compare_and_set-excludes_example =
    compare_and_set-excludes here (some 4) (some head) "tuesday" store swapped_store swapped none
      "wednesday" swaps no_head

abbrev bound_store : TrackingDatabase
bound_store = record {
  namespace_tracking = swapped ∷ [];
  active_namespace = active_at here "tuesday" ∷ [];
}

reconciles :
    reconcile_checkout here (some 4) (some head) true "tuesday" store ≡ ok (bound_store, swapped)
unfolding reconcile_checkout reconcile_at next_generation already_applied check_head load
    validate_sha256 strip_prefix is_lower_hex all select_tracking upsert_tracking upsert_active
    place_of
reconciles = refl

reconcile_checkout_lem_example :
    (next_generation (some 4) ≡ ok swapped.generation)
    × (load here bound_store ≡ some swapped)
    × (swapped.integrated_head ≡ some head)
    × (true ≡ true → names here (active here.home bound_store) ≡ true)
    × ((q : Place) → (here == q) ≡ false → load q bound_store ≡ load q store)
    × ((home : String)
        → (true && here.home == home) ≡ false
        → active home bound_store ≡ active home store)
reconcile_checkout_lem_example =
    reconcile_checkout_lem here (some 4) (some head) true "tuesday" store bound_store swapped
      reconciles

reconcile_checkout-again_example :
    reconcile_checkout here (some 4) (some head) true "friday" bound_store
    ≡ ok (bound_store, swapped)
reconcile_checkout-again_example =
    reconcile_checkout-again here (some 4) (some head) true "tuesday" "friday" store bound_store
      swapped reconciles
