-- ===== src/Metadata/Revisions.antt =====
-- Namespaces and revisions of apps/sync-server/src/metadata.rs: what a revision must satisfy before it
-- is recorded, how it is read back, and the two commits, which move the head of a namespace by
-- compare and swap. `Externals` stands for the crates `uuid` and `chrono`.
use codex_session_sync.Prelude.{
  Bool, List, Option, String, [], ensure, err, false, get, if◌then◌else◌, insert, length, ltb, none,
  ok, some, true, ℕ, ◌&&◌, ◌+◌, ◌==◌, ◌>>=◌, ◌>>◌, ◌∷◌, nat_eq, string_eq, option_eq,
}
use codex_session_sync.Protocol.Sha256.{validate_sha256}
use codex_session_sync.Metadata.Tables.{
  Uuid, Hash, revision_conflict, M, ObjectDescriptor, Revision, RevisionObject, RevisionRoot,
  Tables, u64_mod, find_revision, find_root,
}

pub record Externals : Type 0 where
  -- `Uuid::get_version_num`
  pub version_num : Uuid → ℕ
  -- `DateTime::parse_from_rfc3339(text).is_ok()`
  pub parses_rfc3339 : String → Bool

pub record NewRevisionMetadata : Type 0 where
  pub id : Hash
  pub namespace_id : Uuid
  pub parent_revision : Option Hash
  pub created_at : String
  pub manifest_byte_length : ℕ
  pub thread_count : ℕ
  pub objects : List ObjectDescriptor
  pub object_count_override : Option ℕ
  pub total_bytes_override : Option ℕ
  pub root_schema_version : ℕ

pub record RevisionMetadata : Type 0 where
  pub id : Hash
  pub namespace_id : Uuid
  pub parent_revision : Option Hash
  pub created_at : String
  pub manifest_byte_length : ℕ
  pub thread_count : ℕ
  pub object_count : ℕ
  pub total_bytes : ℕ
  pub objects : List ObjectDescriptor
  pub root_schema_version : ℕ

pub data CommitRevisionOutcome : Type 0 where
  created already_committed : CommitRevisionOutcome

-- The loop over `revision.objects`: one length for each hash.
unfoldable pub collect_objects : List ObjectDescriptor → List (String × ℕ) → M (List (String × ℕ))
collect_objects [] found = ok found
collect_objects (o ∷ os) found =
    let rest = collect_objects os (insert o.sha256 o.byte_length found) in
    if validate_sha256 o.sha256
    then elim (get o.sha256 found) [
      | none ↦ rest
      | some existing ↦ if existing == o.byte_length then rest else err revision_conflict
    ]
    else err revision_conflict

-- `try_fold` of `checked_add` on u64
unfoldable pub total_length : ℕ → List (String × ℕ) → M ℕ
total_length total [] = ok total
total_length total ((_, length) ∷ rest) =
    let sum = total_length (total + length) rest in
    if ltb (total + length) u64_mod then sum else err revision_conflict

abbrev pub to_descriptors : List (String × ℕ) → List ObjectDescriptor
to_descriptors [] = []
to_descriptors ((sha256, byte_length) ∷ rest) =
    record { sha256 = sha256; byte_length = byte_length } ∷ to_descriptors rest

abbrev pub or_else {ℓ} : {A : Type ℓ} → Option A → A → A
or_else (some a) d = a
or_else none d = d

abbrev pub is_valid_parent : Option Hash → Bool
is_valid_parent none = true
is_valid_parent (some parent) = validate_sha256 parent

unfoldable pub normalize_revision : Externals → NewRevisionMetadata → M RevisionMetadata
normalize_revision x revision = do
  ensure (validate_sha256 revision.id) revision_conflict
  ensure (x.version_num revision.namespace_id == 7) revision_conflict
  ensure (is_valid_parent revision.parent_revision) revision_conflict
  ensure (x.parses_rfc3339 revision.created_at) revision_conflict
  found ← collect_objects revision.objects []
  calculated_total_bytes ← total_length 0 found
  ok (record {
    id = revision.id;
    namespace_id = revision.namespace_id;
    parent_revision = revision.parent_revision;
    created_at = revision.created_at;
    manifest_byte_length = revision.manifest_byte_length;
    thread_count = revision.thread_count;
    object_count = or_else revision.object_count_override (length found);
    total_bytes = or_else revision.total_bytes_override calculated_total_bytes;
    objects = to_descriptors found;
    root_schema_version = revision.root_schema_version;
  })

-- SELECT … FROM revision_objects WHERE revision_id = ?1 ORDER BY object_sha256
unfoldable pub read_objects : List RevisionObject → Hash → List (String × ℕ)
read_objects [] id = []
read_objects (row ∷ rows) id =
    let rest = read_objects rows id in
    if row.revision_id == id then insert row.object.sha256 row.object.byte_length rest else rest

-- The schema version of a revision that has no root is that of v3.
abbrev pub schema_version_of : Option RevisionRoot → ℕ
schema_version_of none = 3
schema_version_of (some root) = root.root_schema_version

abbrev pub to_metadata : Tables → Revision → RevisionMetadata
to_metadata s row = record {
  id = row.id;
  namespace_id = row.namespace_id;
  parent_revision = row.parent_revision;
  created_at = row.created_at;
  manifest_byte_length = row.manifest_byte_length;
  thread_count = row.thread_count;
  object_count = row.object_count;
  total_bytes = row.total_bytes;
  objects = to_descriptors (read_objects s.revision_objects row.id);
  root_schema_version = schema_version_of (find_root s row.id);
}

unfoldable pub read_revision : Tables → Hash → Option RevisionMetadata
read_revision s id = elim (find_revision s id) [ none ↦ none | some row ↦ some (to_metadata s row) ]

abbrev pub objects_beq : List ObjectDescriptor → List ObjectDescriptor → Bool
objects_beq [] [] = true
objects_beq [] (_ ∷ _) = false
objects_beq (_ ∷ _) [] = false
objects_beq (o ∷ os) (p ∷ ps) =
    o.sha256 == p.sha256 && o.byte_length == p.byte_length && objects_beq os ps

-- `PartialEq` of `RevisionMetadata`
unfoldable pub same_metadata : RevisionMetadata → RevisionMetadata → Bool
same_metadata a b =
    a.id == b.id
    && a.namespace_id == b.namespace_id
    && a.parent_revision == b.parent_revision
    && a.created_at == b.created_at
    && a.manifest_byte_length == b.manifest_byte_length
    && a.thread_count == b.thread_count
    && a.object_count == b.object_count
    && a.total_bytes == b.total_bytes
    && objects_beq a.objects b.objects
    && a.root_schema_version == b.root_schema_version
