-- ===== src/Metadata/Commits.antt =====
-- The two commits of apps/sync-server/src/metadata.rs, `commit_revision` and `commit_revision_root`.
use codex_session_sync.Prelude.{
  Bool, List, Option, [], any, ensure, err, false, if◌then◌else◌, none, not, ok, some, true, ℕ,
  ◌&&◌, ◌++◌, ◌+◌, ◌==◌, ◌>>=◌, ◌>>◌, ◌∷◌, nat_eq, string_eq, option_eq,
}
use codex_session_sync.Metadata.Tables.{
  Hash, Time, revision_conflict, head_mismatch, epoch_mismatch, M, ObjectDescriptor, RevisionState,
  Namespace, Revision, RevisionObject, RevisionRoot, Tables, sql_integer, find_revision,
  read_namespace, sqlite,
}
use codex_session_sync.Metadata.Revisions.{
  same_metadata, read_revision, CommitRevisionOutcome, NewRevisionMetadata, Externals,
  RevisionMetadata, normalize_revision, created, already_committed,
}

-- The row that a commit inserts; `state` and `trash_operation_id` take their defaults.
unfoldable pub new_row : RevisionMetadata → M Revision
unfolding sql_integer
new_row revision = do
  manifest_byte_length ← sql_integer revision.manifest_byte_length
  thread_count ← sql_integer revision.thread_count
  object_count ← sql_integer revision.object_count
  total_bytes ← sql_integer revision.total_bytes
  ok (record {
    id = revision.id;
    namespace_id = revision.namespace_id;
    parent_revision = revision.parent_revision;
    created_at = revision.created_at;
    manifest_byte_length = manifest_byte_length;
    thread_count = thread_count;
    object_count = object_count;
    total_bytes = total_bytes;
    state = RevisionState.active;
    trash_operation_id = none;
  })

-- The parent, if there is one, is recorded in the same namespace.
unfoldable pub parent_is_local : Tables → RevisionMetadata → Bool
parent_is_local s revision = elim revision.parent_revision [
  | none ↦ true
  | some parent ↦ elim (find_revision s parent) [
    | none ↦ false
    | some row ↦ row.namespace_id == revision.namespace_id
  ]
]

-- INSERT INTO revision_objects for every object; the primary key is (revision_id, object_sha256).
unfoldable pub insert_objects :
    Hash → List ObjectDescriptor → List RevisionObject → M (List RevisionObject)
unfolding sql_integer
insert_objects id [] rows = ok rows
insert_objects id (o ∷ os) rows =
    let rest = insert_objects id os (rows ++ record { revision_id = id; object = o } ∷ []) in
    do
      sql_integer o.byte_length
      ensure (not (any (λ row. row.revision_id == id && row.object.sha256 == o.sha256) rows)) sqlite
      rest

-- UPDATE namespaces SET head_revision WHERE id AND head_revision (AND namespace_epoch), with the
-- number of rows that it changed.
unfoldable pub swap_head : (Namespace → Bool) → Hash → Time → List Namespace → List Namespace × ℕ
swap_head matches id now [] = ([], 0)
swap_head matches id now (n ∷ ns) =
    let (rest, changed) = swap_head matches id now ns in
    if matches n
    then (record n { head = some id; updated_at = now } ∷ rest, changed + 1)
    else (n ∷ rest, changed)

-- What both commits do once the revision is known to be new.
unfoldable pub insert_revision : Tables → Option Hash → Namespace → RevisionMetadata → M Tables
insert_revision s expected_head n revision = do
  ensure (n.head == expected_head) (head_mismatch n.head)
  ensure (revision.parent_revision == expected_head) revision_conflict
  ensure (parent_is_local s revision) revision_conflict
  row ← new_row revision
  ok (record s { revisions = row ∷ s.revisions })

unfoldable pub commit_revision :
    Externals
    → Option Hash
    → NewRevisionMetadata
    → Time
    → Tables
    → M (Tables × CommitRevisionOutcome)
commit_revision x expected_head new now s = do
  revision ← normalize_revision x new
  n ← read_namespace s revision.namespace_id
  elim (read_revision s revision.id) [
    | some existing ↦ do
      ensure (same_metadata existing revision) revision_conflict
      if n.head == some revision.id
          then ok (s, already_committed)
          else do ensure (n.head == expected_head) (head_mismatch n.head); err revision_conflict
    | none ↦ do
      t ← insert_revision s expected_head n revision
      rows ← insert_objects revision.id revision.objects t.revision_objects
      let (moved, changed) =
          swap_head (λ m. m.id == n.id && m.head == expected_head) revision.id now t.namespaces
      ensure (changed == 1) (head_mismatch n.head)
      ok (record t { revision_objects = rows; namespaces = moved }, created)
  ]

unfoldable pub commit_revision_root :
    Externals
    → Option Hash
    → ℕ
    → NewRevisionMetadata
    → Time
    → Tables
    → M (Tables × CommitRevisionOutcome × ℕ)
commit_revision_root x expected_head expected_epoch new now s = do
  revision ← normalize_revision x new
  n ← read_namespace s revision.namespace_id
  ensure (n.namespace_epoch == expected_epoch) (epoch_mismatch n.namespace_epoch)
  elim (read_revision s revision.id) [
    | some existing ↦ do
      ensure (same_metadata existing revision) revision_conflict
      ensure (n.head == some revision.id) revision_conflict
      ok (s, already_committed, n.namespace_epoch)
    | none ↦ do
      t ← insert_revision s expected_head n revision
      let (moved, changed) =
          swap_head
            (λ m.
              m.id == n.id && (m.head == expected_head && m.namespace_epoch == n.namespace_epoch))
            revision.id now t.namespaces
      ensure (changed == 1) (head_mismatch n.head)
      ensure (not (any (λ root. root.revision_id == revision.id) t.revision_roots)) sqlite
      let root : RevisionRoot = record {
        revision_id = revision.id;
        root_sha256 = revision.id;
        root_schema_version = revision.root_schema_version;
      }
      ok (
        record t { namespaces = moved; revision_roots = root ∷ t.revision_roots },
        created,
        n.namespace_epoch,
      )
  ]
