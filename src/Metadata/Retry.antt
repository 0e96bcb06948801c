-- ===== src/Metadata/Retry.antt =====
-- A commit of apps/sync-server/src/metadata.rs that is sent again after it was accepted.
use codex_session_sync.Prelude.{
  ==_refl, List, Option, [], ap, ap₂, arith, find, ok, some, subst, sym, true, ℕ, ◌∙◌, ◌∷◌, ◌≡◌,
  nat_eq, string_eq, option_eq,
}
use codex_session_sync.Metadata.Commit.{
  new_row-fields, commit_swaps_head, insert_revision-Inserted, normalize_revision-Normalized,
  commit_revision_root-Trace,
}
use codex_session_sync.Metadata.Revisions.{
  already_committed, created, read_revision, to_metadata, NewRevisionMetadata, schema_version_of,
  Externals, total_length, read_objects, collect_objects, RevisionMetadata, same_metadata,
  normalize_revision,
}
use codex_session_sync.Metadata.Commits.{commit_revision_root, new_row}
use codex_session_sync.Metadata.Tables.{
  RevisionRoot, find_namespace, find_revision, read_namespace, find_root, Hash, Time, Namespace,
  Tables, Revision,
}

same_metadata_refl : (a : RevisionMetadata) → a.objects ≡ [] → same_metadata a a ≡ true
unfolding same_metadata
same_metadata_refl a h = simp (==_refl, h)

normalize_revision-objects :
    (x : Externals) (new : NewRevisionMetadata) (r : RevisionMetadata)
    → new.objects ≡ []
    → normalize_revision x new ≡ ok r
    → r.objects ≡ []
unfolding normalize_revision collect_objects total_length
normalize_revision-objects x new r none_given h = ground arith

-- The row that was inserted reads back as what was committed.
new_row-reads_back :
    (s : Tables) (r : RevisionMetadata) (row : Revision)
    → new_row r ≡ ok row
    → r.objects ≡ []
    → read_objects s.revision_objects r.id ≡ []
    → schema_version_of (find_root s r.id) ≡ r.root_schema_version
    → to_metadata s row ≡ r
unfolding new_row
new_row-reads_back s r row h objects rows version = ground arith

recorded_version :
    (t : Tables) (r : RevisionMetadata) (roots : List RevisionRoot)
    → t.revision_roots
      ≡ record {
        revision_id = r.id;
        root_sha256 = r.id;
        root_schema_version = r.root_schema_version;
      }
        ∷ roots
    → schema_version_of (find_root t r.id) ≡ r.root_schema_version
unfolding find_root find
recorded_version t r roots h = ground (arith, ==_refl r.id)

recorded_row :
    (t : Tables) (r : RevisionMetadata) (row : Revision) (rows : List Revision)
    → t.revisions ≡ row ∷ rows
    → row.id ≡ r.id
    → find_revision t r.id ≡ some row
unfolding find_revision find
recorded_row t r row rows h e = ground (arith, ==_refl r.id)

retry_lem :
    (x : Externals) (t : Tables) (eh : Option Hash) (ee : ℕ) (new : NewRevisionMetadata)
    (later : Time) (r : RevisionMetadata) (row : Revision) (n : Namespace)
    → normalize_revision x new ≡ ok r
    → find_namespace t r.namespace_id ≡ some n
    → n.namespace_epoch ≡ ee
    → find_revision t r.id ≡ some row
    → to_metadata t row ≡ r
    → r.objects ≡ []
    → n.head ≡ some r.id
    → commit_revision_root x eh ee new later t ≡ ok (t, already_committed, ee)
unfolding commit_revision_root read_namespace read_revision
retry_lem x t eh ee new later r row n p q epoch found same none_given head =
    let good : same_metadata (to_metadata t row) r ≡ true =
      rw same (same_metadata_refl r none_given) in
    ground (arith, ==_refl r.id, good)

-- A commit that was accepted and is sent again, with the same expectations, reports that it is already
-- committed and changes nothing, if the revision lists no objects of its own, as every revision root
-- does, and no objects were recorded under its identifier before.
pub commit_retry :
    (x : Externals) (s t : Tables) (eh : Option Hash) (ee : ℕ) (new : NewRevisionMetadata)
    (now later : Time) (e : ℕ)
    → commit_revision_root x eh ee new now s ≡ ok (t, created, e)
    → new.objects ≡ []
    → read_objects s.revision_objects new.id ≡ []
    → commit_revision_root x eh ee new later t ≡ ok (t, already_committed, ee)
commit_retry x s t eh ee new now later e h none_given no_rows =
    let (r, n, u, tr) = commit_revision_root-Trace x s t eh ee new now e h in
    let f = normalize_revision-Normalized x new r tr.normalized in
    let (row, ins) = insert_revision-Inserted s u eh n r tr.inserted in
    let (m, found, head, epoch, parent, moved, _) = commit_swaps_head x s t eh ee new now e h in
    let rows : read_objects t.revision_objects r.id ≡ [] =
      ap₂ read_objects (tr.objects ∙ ap (λ (w : Tables). w.revision_objects) ins.table) f.id
      ∙ no_rows in
    let same =
      new_row-reads_back t r row ins.made
        (normalize_revision-objects x new r none_given tr.normalized) rows
        (recorded_version t r u.revision_roots tr.roots) in
    let after : Namespace = record m { head = some new.id; updated_at = now } in
    retry_lem x t eh ee new later r row after tr.normalized
      (subst (λ k. find_namespace t k ≡ some after) (sym f.namespace_id) moved) epoch
      (recorded_row t r row s.revisions (tr.revisions ∙ ap (λ (w : Tables). w.revisions) ins.table)
        (new_row-fields r row ins.made).0)
      same (normalize_revision-objects x new r none_given tr.normalized) (ap some (sym f.id))
