-- ===== src/Metadata/Spared.antt =====
-- The revisions that a purge of truncated histories spares: `commit_history_trash_purge` of
-- apps/sync-server/src/metadata.rs.
use codex_session_sync.Prelude.{
  ==→eq, Bool, Bool-cases, List, [], any, ap, arith, false, filter, find, inl, inr, not, refl,
  update_where, ◌&&◌, ◌==◌, ◌∙◌, ◌∷◌, ◌≡◌, nat_eq, string_eq, option_eq,
}
use codex_session_sync.Metadata.Tables.{
  Hash, Uuid, Tables, Revision, RevisionRoot, RevisionState, find_revision, find_root, is_trashed,
}
use codex_session_sync.Metadata.Reachability.{key_eq}
use codex_session_sync.Metadata.Purging.{purge_operation, purge_operations, is_held}

abbrev pub trashed_as : Hash → Revision → Bool
trashed_as id r = r.id == id && is_trashed r.state

abbrev pub purged : Revision → Revision
purged r = record r { state = RevisionState.purged }

find-purged :
    (ns op : Uuid) (id : Hash) (rows : List Revision)
    → any (trashed_as id) rows ≡ false
    → find (λ r. r.id == id) (update_where (is_held ns op) purged rows)
      ≡ find (λ r. r.id == id) rows
unfolding find update_where any
find-purged ns op id [] h = refl
find-purged ns op id (r ∷ rows) h = ground (arith, find-purged ns op id rows)

any-purged :
    (ns op : Uuid) (id : Hash) (rows : List Revision)
    → any (trashed_as id) rows ≡ false
    → any (trashed_as id) (update_where (is_held ns op) purged rows) ≡ false
unfolding update_where any
any-purged ns op id [] h = refl
any-purged ns op id (r ∷ rows) h = ground (arith, any-purged ns op id rows)

any-held :
    (ns op : Uuid) (id : Hash) (rows : List Revision)
    → any (trashed_as id) rows ≡ false
    → any (λ r. r.id == id && is_held ns op r) rows ≡ false
unfolding any
any-held ns op id [] h = refl
any-held ns op id (r ∷ rows) h = ground (arith, any-held ns op id rows)

find-roots :
    (ns op : Uuid) (id : Hash) (rows : List Revision) (roots : List RevisionRoot)
    → any (trashed_as id) rows ≡ false
    → find
        (λ root. root.revision_id == id)
        (filter (λ root. not (any (λ r. r.id == root.revision_id && is_held ns op r) rows)) roots)
      ≡ find (λ root. root.revision_id == id) roots
unfolding find filter
find-roots ns op id rows [] h = refl
find-roots ns op id rows (root ∷ roots) h =
    let ih = find-roots ns op id rows roots h in
    elim (Bool-cases (root.revision_id == id)) [
      | inl here ↦
          let free : any (λ r. r.id == root.revision_id && is_held ns op r) rows ≡ false =
            ap (λ k. any (λ r. r.id == k && is_held ns op r) rows) (==→eq here)
            ∙ any-held ns op id rows h in
          rw (free, here) refl
      | inr other ↦
          elim (Bool-cases (any (λ r. r.id == root.revision_id && is_held ns op r) rows)) [
            | inl gone ↦ rw (gone, other) ih
            | inr kept ↦ rw (kept, other) ih
          ]
    ]

-- What a purge leaves as it is.
pub record IsSpared (s t : Tables) : Type 0 where
  pub namespaces : t.namespaces ≡ s.namespaces
  pub edges : t.edges ≡ s.edges
  pub objects : t.objects ≡ s.objects
  pub queue : t.gc_queue ≡ s.gc_queue
  pub alone :
      (id : Hash)
      → any (trashed_as id) s.revisions ≡ false
      → any (trashed_as id) t.revisions ≡ false
  pub revisions :
      (id : Hash)
      → any (trashed_as id) s.revisions ≡ false
      → find_revision t id ≡ find_revision s id
  pub roots :
      (id : Hash) → any (trashed_as id) s.revisions ≡ false → find_root t id ≡ find_root s id

purge_operation-IsSpared : (ns op : Uuid) (s : Tables) → IsSpared s (purge_operation ns op s)
unfolding purge_operation find_revision find_root
purge_operation-IsSpared ns op s = record {
  namespaces = refl;
  edges = refl;
  objects = refl;
  queue = refl;
  alone = λ id h. any-purged ns op id s.revisions h;
  revisions = λ id h. find-purged ns op id s.revisions h;
  roots = λ id h. find-roots ns op id s.revisions s.revision_roots h;
}

pub purge_operations-IsSpared :
    (ns : Uuid) (ops : List Uuid) (s : Tables) → IsSpared s (purge_operations ns ops s)
unfolding purge_operations
purge_operations-IsSpared ns [] s = record {
  namespaces = refl;
  edges = refl;
  objects = refl;
  queue = refl;
  alone = λ id h. h;
  revisions = λ id h. refl;
  roots = λ id h. refl;
}
purge_operations-IsSpared ns (op ∷ ops) s =
    let first = purge_operation-IsSpared ns op s in
    let rest = purge_operations-IsSpared ns ops (purge_operation ns op s) in
    record {
      namespaces = rest.namespaces ∙ first.namespaces;
      edges = rest.edges ∙ first.edges;
      objects = rest.objects ∙ first.objects;
      queue = rest.queue ∙ first.queue;
      alone = λ id h. rest.alone id (first.alone id h);
      revisions = λ id h. rest.revisions id (first.alone id h) ∙ first.revisions id h;
      roots = λ id h. rest.roots id (first.alone id h) ∙ first.roots id h;
    }
