-- ===== src/Metadata/Purge.antt =====
-- The purge of truncated histories in apps/sync-server/src/metadata.rs: `build_history_trash_purge_plan`,
-- `commit_history_trash_purge` and `enqueue_gc_objects_for_purge_in_connection`.
use codex_session_sync.Prelude.{
  Bool, List, Option, String, [], all, any, contains, ensure, eqb, false, filter, if◌then◌else◌,
  length, ltb, none, not, ok, some, ℕ, ◌&&◌, ◌==◌, ◌>>=◌, ◌>>◌, ◌||◌, ◌∷◌, nat_eq, string_eq,
  option_eq,
}
use Prim.Native.String.{compare as compare_text}
use Prim.Native.Nat.{Ordering}
use codex_session_sync.Metadata.Tables.{
  read_namespace, revision_conflict, StorageObject, M, Uuid, TrashOperation, RevisionRoot, Hash,
  Key, StorageObjectRef, Tables, Revision, StorageObjectKind, is_trashed, operation_is_active,
}
use codex_session_sync.Metadata.Reachability.{root_key, key_eq, reach_from}

pub record HistoryTrashPurgePlan : Type 0 where
  pub operation_ids : List Uuid
  pub revision_count : ℕ
  pub candidate_objects : List StorageObjectRef

-- `BTreeSet<Uuid>`
unfoldable pub insert_uuid : Uuid → List Uuid → List Uuid
insert_uuid k [] = k ∷ []
insert_uuid k (j ∷ js) =
    let rest = insert_uuid k js in
    if ltb k j then k ∷ j ∷ js else if eqb k j then j ∷ js else j ∷ rest

unfoldable pub uuid_set : List Uuid → List Uuid
uuid_set [] = []
uuid_set (k ∷ ks) = insert_uuid k (uuid_set ks)

unfoldable pub wire_name : StorageObjectKind → String
wire_name StorageObjectKind.whole = "whole"
wire_name StorageObjectKind.chunk = "chunk"
wire_name StorageObjectKind.chunk_manifest = "chunkManifest"
wire_name StorageObjectKind.thread = "thread"
wire_name StorageObjectKind.revision_root = "revisionRoot"

-- `BTreeMap<(String, String), StorageObjectRef>::insert`, by the wire name of the kind and the hash
unfoldable pub insert_object : StorageObjectRef → List StorageObjectRef → List StorageObjectRef
insert_object a [] = a ∷ []
insert_object a (b ∷ bs) = elim (compare_text (wire_name a.kind) (wire_name b.kind)) [
  | Ordering.lt ↦ a ∷ b ∷ bs
  | Ordering.gt ↦ b ∷ insert_object a bs
  | Ordering.eq ↦ elim (compare_text a.sha256 b.sha256) [
    | Ordering.lt ↦ a ∷ b ∷ bs
    | Ordering.eq ↦ a ∷ bs
    | Ordering.gt ↦ b ∷ insert_object a bs
  ]
]

abbrev pub operation_ids_of : List TrashOperation → List Uuid
operation_ids_of [] = []
operation_ids_of (o ∷ os) = o.id ∷ operation_ids_of os

-- SELECT … FROM revision_trash_operations WHERE namespace_id = ?1 AND state = 'active'
unfoldable pub active_operations : Tables → Uuid → List TrashOperation
active_operations s ns =
    filter (λ o. o.namespace_id == ns && operation_is_active o.state) s.operations

unfoldable pub is_selected : List Uuid → Option Uuid → Bool
is_selected selected none = false
is_selected selected (some op) = contains selected op

-- A trashed revision of the namespace that one of the operations holds.
unfoldable pub is_purgeable : Uuid → List Uuid → Revision → Bool
is_purgeable ns selected r =
    r.namespace_id == ns && (is_trashed r.state && is_selected selected r.trash_operation_id)

unfoldable pub selected_revisions : Tables → Uuid → List Uuid → List Revision
selected_revisions s ns selected = filter (is_purgeable ns selected) s.revisions

unfoldable pub has_revision : List Revision → Option Hash → Bool
has_revision rows none = false
has_revision rows (some id) = any (λ r. r.id == id) rows

-- The objects of the graph below a root that are stored.
unfoldable pub stored_objects :
    List Key → List StorageObject → List StorageObjectRef → List StorageObjectRef
stored_objects graph [] found = found
stored_objects graph (o ∷ os) found = stored_objects graph os (
    if contains graph o.key
    then insert_object
        (record { kind = o.key.kind; sha256 = o.key.sha256; byte_length = o.byte_length }) found
    else found)

unfoldable pub purge_candidates :
    Tables → List Revision → List RevisionRoot → List StorageObjectRef → List StorageObjectRef
purge_candidates s rows [] found = found
purge_candidates s rows (root ∷ roots) found = purge_candidates s rows roots (
    if has_revision rows (some root.revision_id)
    then stored_objects (reach_from s.edges (root_key root ∷ [])) s.objects found
    else found)

unfoldable pub select_operations : List Uuid → List Uuid → Bool → M (List Uuid)
select_operations active requested purge_all = do
  ensure (eqb (length (uuid_set requested)) (length requested)) revision_conflict
  ensure (purge_all || all (contains active) requested) revision_conflict
  let selected = if purge_all then uuid_set active else uuid_set requested
  ensure (not (eqb (length selected) 0)) revision_conflict
  ok selected

unfoldable pub build_history_trash_purge_plan :
    Uuid → List Uuid → Bool → Tables → M HistoryTrashPurgePlan
build_history_trash_purge_plan ns requested purge_all s = do
  ensure (not (purge_all && not (eqb (length requested) 0))) revision_conflict
  ensure (not (not purge_all && eqb (length requested) 0)) revision_conflict
  read_namespace s ns
  selected ← select_operations (operation_ids_of (active_operations s ns)) requested purge_all
  let rows = selected_revisions s ns selected
  ensure
      (not (
        any (λ o. not (contains selected o.id) && has_revision rows o.new_head)
          (active_operations s ns)))
      revision_conflict
  ok (record {
    operation_ids = selected;
    revision_count = length rows;
    candidate_objects = purge_candidates s rows s.revision_roots [];
  })
