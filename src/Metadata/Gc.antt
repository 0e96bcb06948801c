-- ===== src/Metadata/Gc.antt =====
-- Storage objects and garbage collection of apps/sync-server/src/metadata.rs, and the loop over the
-- queue in apps/sync-server/src/api.rs. Moving and deleting the files is not modelled: each entry's file
-- operation is taken to succeed. `Uuid::now_v7` is a supply of identifiers, one for each row.
use codex_session_sync.Prelude.{
  Bool, List, [], any, contains, ensure, err, false, filter, if◌then◌else◌, leb, length, ltb, not,
  ok, suc, true, update_where, ℕ, ◌&&◌, ◌++◌, ◌+◌, ◌==◌, ◌>>=◌, ◌>>◌, ◌||◌, ◌∷◌, nat_eq, string_eq,
  option_eq,
}
use Prim.Native.Nat.{Ordering, compare as compare_ℕ}
use Prim.Native.String.{compare as compare_text}
use codex_session_sync.Metadata.Tables.{
  Uuid, Hash, Time, Tables, Key, Edge, StorageObjectRef, StorageObject, GcRow, GcState, M,
  revision_conflict, sqlite, sql_integer, is_pending, is_quarantined, u64_mod, i64_mod,
}
use codex_session_sync.Metadata.Reachability.{key_eq, key_of, kind_code, reachable_objects}

-- INSERT INTO storage_objects … ON CONFLICT DO UPDATE SET byte_length = excluded.byte_length WHERE the
-- lengths are equal: an object that is there keeps its row.
unfoldable pub record_storage_object : StorageObjectRef → Time → Tables → M Tables
record_storage_object object now s =
    if ltb object.byte_length i64_mod
    then if any (λ o. o.key == key_of object) s.objects
      then ok s
      else ok (record s {
        objects =
            record { key = key_of object; byte_length = object.byte_length; created_at = now }
            ∷ s.objects;
      })
    else err revision_conflict

-- The INSERTs of `replace_object_edges`; the primary key is the whole row.
unfoldable pub insert_edges : Key → List StorageObjectRef → List Edge → M (List Edge)
insert_edges owner [] edges = ok edges
insert_edges owner (target ∷ targets) edges =
    let rest =
      insert_edges owner targets (record { owner = owner; target = key_of target } ∷ edges) in
    if any (λ e. e.owner == owner && e.target == key_of target) edges then err sqlite else rest

unfoldable pub replace_object_edges : StorageObjectRef → List StorageObjectRef → Tables → M Tables
replace_object_edges owner targets s = do
  edges ← insert_edges (key_of owner) targets (filter (λ e. not (e.owner == key_of owner)) s.edges)
  ok (record s { edges = edges })

-- The derived order of `StorageObjectRef`: kind, hash, length.
unfoldable pub ref_before : StorageObjectRef → StorageObjectRef → Bool
ref_before a b = elim (compare_ℕ (kind_code a.kind) (kind_code b.kind)) [
  | Ordering.lt ↦ true
  | Ordering.gt ↦ false
  | Ordering.eq ↦ elim (compare_text a.sha256 b.sha256) [
    | Ordering.lt ↦ true
    | Ordering.gt ↦ false
    | Ordering.eq ↦ leb a.byte_length b.byte_length
  ]
]

unfoldable pub insert_ref : StorageObjectRef → List StorageObjectRef → List StorageObjectRef
insert_ref a [] = a ∷ []
insert_ref a (b ∷ bs) =
    let rest = insert_ref a bs in if ref_before a b then a ∷ b ∷ bs else b ∷ rest

-- `candidates.sort()`
unfoldable pub sort_refs : List StorageObjectRef → List StorageObjectRef
sort_refs [] = []
sort_refs (a ∷ as') = insert_ref a (sort_refs as')

pub record ServerGcPlan : Type 0 where
  pub created_at : Time
  pub reachable_object_count : ℕ
  pub candidates : List StorageObjectRef
  pub reclaimable_bytes : ℕ
  pub plan_fingerprint : Hash

-- One hour
abbrev pub grace : ℕ
grace = 3600000

-- The loop of `build_gc_plan` over the rows with created_at <= ?1.
unfoldable pub gc_candidates :
    List Key → Time → ℕ → List StorageObject → M (List StorageObjectRef × ℕ)
gc_candidates reachable now bytes [] = ok ([], bytes)
gc_candidates reachable now bytes (o ∷ os) =
    let skipped = gc_candidates reachable now bytes os in
    let taken : M (List StorageObjectRef × ℕ) =
      (gc_candidates reachable now (bytes + o.byte_length) os) >>= λ found. ok (
        record { kind = o.key.kind; sha256 = o.key.sha256; byte_length = o.byte_length } ∷ found.0,
        found.1,
      ) in
    if not (leb (o.created_at + grace) now) || contains reachable o.key
    then skipped
    else if ltb (bytes + o.byte_length) u64_mod
    then taken
    else err revision_conflict

-- `digest` stands for the hash of the candidates' JSON.
unfoldable pub build_gc_plan : (List StorageObjectRef → Hash) → Time → Tables → M ServerGcPlan
build_gc_plan digest now s = do
  found ← gc_candidates (reachable_objects s now) now 0 s.objects
  let candidates = sort_refs found.0
  ok (record {
    created_at = now;
    reachable_object_count = length (reachable_objects s now);
    candidates = candidates;
    reclaimable_bytes = found.1;
    plan_fingerprint = digest candidates;
  })

-- The rows that `enqueue_gc` inserts.
unfoldable pub gc_rows : (ℕ → Uuid) → ℕ → Uuid → Time → List StorageObjectRef → M (List GcRow)
gc_rows fresh i op now [] = ok []
gc_rows fresh i op now (object ∷ objects) =
    let rest = gc_rows fresh (suc i) op now objects in
    do
      sql_integer object.byte_length
      rows ← rest
      ok (
          record {
            id = fresh i;
            operation_id = op;
            object = object;
            state = GcState.pending;
            created_at = now;
            delete_after_quarantine = false;
          }
          ∷ rows)

unfoldable pub enqueue_gc :
    (List StorageObjectRef → Hash)
    → Hash
    → (ℕ → Uuid)
    → Uuid
    → Time
    → Tables
    → M (Tables × List GcRow)
enqueue_gc digest expected_fingerprint fresh op now s = do
  plan ← build_gc_plan digest now s
  ensure (plan.plan_fingerprint == expected_fingerprint) revision_conflict
  rows ← gc_rows fresh 0 op now plan.candidates
  ok (record s { gc_queue = s.gc_queue ++ rows }, rows)

-- SELECT … FROM gc_queue WHERE state = 'pending'
unfoldable pub pending_gc_entries : Tables → List GcRow
pending_gc_entries s = filter (λ e. is_pending e.state) s.gc_queue

unfoldable pub quarantined_gc_entries_for_purge : Tables → List GcRow
quarantined_gc_entries_for_purge s =
    filter (λ e. is_quarantined e.state && e.delete_after_quarantine) s.gc_queue

unfoldable pub gc_object_is_reachable : Time → Tables → StorageObjectRef → Bool
gc_object_is_reachable now s object = contains (reachable_objects s now) (key_of object)

unfoldable pub complete_gc_entry : GcRow → Tables → Tables
complete_gc_entry entry s = record s {
  edges =
      filter (λ e. not (e.owner == key_of entry.object || e.target == key_of entry.object)) s.edges;
  objects = filter (λ o. not (o.key == key_of entry.object)) s.objects;
  gc_queue =
      update_where (λ e. e.id == entry.id && is_pending e.state)
        (λ e. record e { state = GcState.quarantined }) s.gc_queue;
}

unfoldable pub cancel_gc_entry : Uuid → Tables → Tables
cancel_gc_entry id s = record s {
  gc_queue =
      update_where (λ e. e.id == id && is_pending e.state)
        (λ e. record e { state = GcState.cancelled }) s.gc_queue;
}

unfoldable pub mark_gc_entry_purged : Uuid → Tables → Tables
mark_gc_entry_purged id s = record s {
  gc_queue =
      update_where (λ e. e.id == id && (is_quarantined e.state && e.delete_after_quarantine))
        (λ e. record e { state = GcState.purged }) s.gc_queue;
}

-- One round of `process_gc_entries`.
unfoldable pub process_gc_entry : Time → GcRow → Tables → Tables
process_gc_entry now entry s =
    if gc_object_is_reachable now s entry.object
    then cancel_gc_entry entry.id s
    else if entry.delete_after_quarantine
    then mark_gc_entry_purged entry.id (complete_gc_entry entry s)
    else complete_gc_entry entry s

-- The loop; every round reads the clock anew, so the times are a list.
unfoldable pub process_gc_entries : List (Time × GcRow) → Tables → Tables
process_gc_entries [] s = s
process_gc_entries ((now, entry) ∷ entries) s =
    process_gc_entries entries (process_gc_entry now entry s)
