-- ===== src/Metadata/Tables.antt =====
-- The rows of apps/sync-server/src/metadata.rs, its errors, and the statements that read one row.
-- A UUID is its 128-bit number and a time its milliseconds: the code writes every time of its own in
-- one fixed-width UTC format, in which the order of texts is the order of times. The columns of
-- signed 64-bit integers that the code reads and writes through `as u64` and `as i64` hold the u64.
use codex_session_sync.Prelude.{
  Bool, List, Option, Result, String, err, false, find, if◌then◌else◌, ltb, none, ok, some, true, ℕ,
  ◌+◌, ◌==◌, ◌^◌, nat_eq, string_eq,
}

abbrev pub Uuid : Type 0
Uuid = ℕ

-- The name of a namespace, by its code points
abbrev pub Name : Type 0
Name = List ℕ

abbrev pub Hash : Type 0
Hash = String

abbrev pub Time : Type 0
Time = ℕ

pub data MetadataError : Type 0 where
  namespace_not_found : Uuid → MetadataError
  operation_not_found : Uuid → MetadataError
  revision_not_found : Hash → MetadataError
  head_mismatch : Option Hash → MetadataError
  epoch_mismatch : ℕ → MetadataError
  revision_conflict : MetadataError
  invalid_name : MetadataError
  sqlite : MetadataError

abbrev pub M : Type 0 → Type 0
M A = Result MetadataError A

pub data StorageObjectKind : Type 0 where
  whole chunk chunk_manifest thread revision_root : StorageObjectKind

pub record StorageObjectRef : Type 0 where
  pub kind : StorageObjectKind
  pub sha256 : Hash
  pub byte_length : ℕ

pub record ObjectDescriptor : Type 0 where
  pub sha256 : Hash
  pub byte_length : ℕ

pub data RevisionState : Type 0 where
  active trashed purged : RevisionState

pub data OperationState : Type 0 where
  active restored purged : OperationState

pub data GcState : Type 0 where
  pending quarantined cancelled purged : GcState

-- CREATE TABLE namespaces
pub record Namespace : Type 0 where
  pub id : Uuid
  pub display_name : Name
  pub head : Option Hash
  pub namespace_epoch : ℕ
  pub created_at : Time
  pub updated_at : Time

-- CREATE TABLE revisions
pub record Revision : Type 0 where
  pub id : Hash
  pub namespace_id : Uuid
  pub parent_revision : Option Hash
  pub created_at : String
  pub manifest_byte_length : ℕ
  pub thread_count : ℕ
  pub object_count : ℕ
  pub total_bytes : ℕ
  pub state : RevisionState
  pub trash_operation_id : Option Uuid

-- CREATE TABLE revision_objects
pub record RevisionObject : Type 0 where
  pub revision_id : Hash
  pub object : ObjectDescriptor

-- CREATE TABLE revision_roots
pub record RevisionRoot : Type 0 where
  pub revision_id : Hash
  pub root_sha256 : Hash
  pub root_schema_version : ℕ

-- CREATE TABLE revision_trash_operations
pub record TrashOperation : Type 0 where
  pub id : Uuid
  pub namespace_id : Uuid
  pub old_head : Option Hash
  pub new_head : Option Hash
  pub epoch_before : ℕ
  pub epoch_after : ℕ
  pub created_at : Time
  pub expires_at : Time
  pub revision_count : ℕ
  pub state : OperationState

-- The key of a storage object, (kind, sha256).
pub record Key : Type 0 where
  pub kind : StorageObjectKind
  pub sha256 : Hash

-- CREATE TABLE object_edges
pub record Edge : Type 0 where
  pub owner : Key
  pub target : Key

-- CREATE TABLE storage_objects
pub record StorageObject : Type 0 where
  pub key : Key
  pub byte_length : ℕ
  pub created_at : Time

-- CREATE TABLE gc_queue
pub record GcRow : Type 0 where
  pub id : Uuid
  pub operation_id : Uuid
  pub object : StorageObjectRef
  pub state : GcState
  pub created_at : Time
  pub delete_after_quarantine : Bool

pub record Tables : Type 0 where
  pub namespaces : List Namespace
  pub revisions : List Revision
  pub revision_objects : List RevisionObject
  pub revision_roots : List RevisionRoot
  pub operations : List TrashOperation
  pub edges : List Edge
  pub objects : List StorageObject
  pub gc_queue : List GcRow

abbrev pub u64_mod : ℕ
u64_mod = 2 ^ 64

abbrev pub i64_mod : ℕ
i64_mod = 2 ^ 63

-- `sql_integer`: a u64 that an INTEGER column holds.
unfoldable pub sql_integer : ℕ → M ℕ
sql_integer value = if ltb value i64_mod then ok value else err revision_conflict

-- `checked_add(1)` on a u64 epoch
unfoldable pub next_epoch : ℕ → M ℕ
next_epoch epoch = if ltb (epoch + 1) u64_mod then ok (epoch + 1) else err revision_conflict

abbrev pub is_active : RevisionState → Bool
is_active RevisionState.active = true
is_active _ = false

abbrev pub is_trashed : RevisionState → Bool
is_trashed RevisionState.trashed = true
is_trashed _ = false

abbrev pub operation_is_active : OperationState → Bool
operation_is_active OperationState.active = true
operation_is_active _ = false

abbrev pub is_pending : GcState → Bool
is_pending GcState.pending = true
is_pending _ = false

abbrev pub is_quarantined : GcState → Bool
is_quarantined GcState.quarantined = true
is_quarantined _ = false

-- SELECT … FROM namespaces WHERE id = ?1
unfoldable pub find_namespace : Tables → Uuid → Option Namespace
find_namespace s id = find (λ n. n.id == id) s.namespaces

-- SELECT … FROM revisions WHERE id = ?1
unfoldable pub find_revision : Tables → Hash → Option Revision
find_revision s id = find (λ r. r.id == id) s.revisions

-- SELECT … FROM revision_roots WHERE revision_id = ?1
unfoldable pub find_root : Tables → Hash → Option RevisionRoot
find_root s id = find (λ r. r.revision_id == id) s.revision_roots

-- The row of a namespace, or `not_found("namespace", id)`.
unfoldable pub read_namespace : Tables → Uuid → M Namespace
read_namespace s id = elim (find_namespace s id) [
  | none ↦ err (namespace_not_found id)
  | some n ↦ ok n
]
