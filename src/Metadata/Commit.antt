-- ===== src/Metadata/Commit.antt =====
-- What a successful `commit_revision_root` of apps/sync-server/src/metadata.rs did, and what a retry
-- or a rival request finds.
use codex_session_sync.Prelude.{
  Bool, Option, Option-cases, Result-cases, ap, ap₂, arith, inl, inr, none, ok, option_beq_iff,
  some, subst, sym, true, ℕ, ◌&&◌, ◌==◌, ◌∙◌, ◌∷◌, ◌≡◌, ◌≢◌, nat_eq, string_eq, option_eq,
}
use codex_session_sync.Metadata.Swap.{find_namespace-swapped}
use codex_session_sync.Metadata.Tables.{
  Uuid, find_namespace, read_namespace, Time, Hash, Namespace, Tables, Revision, RevisionState,
}
use codex_session_sync.Metadata.Revisions.{
  read_revision, created, Externals, NewRevisionMetadata, RevisionMetadata, normalize_revision,
}
use codex_session_sync.Metadata.Commits.{
  parent_is_local, swap_head, commit_revision_root, insert_revision, new_row,
}

-- The identifying fields go through normalisation unchanged.
pub record Normalized (new : NewRevisionMetadata) (r : RevisionMetadata) : Type 0 where
  pub id : r.id ≡ new.id
  pub namespace_id : r.namespace_id ≡ new.namespace_id
  pub parent_revision : r.parent_revision ≡ new.parent_revision

pub normalize_revision-Normalized :
    (x : Externals) (new : NewRevisionMetadata) (r : RevisionMetadata)
    → normalize_revision x new ≡ ok r
    → Normalized new r
unfolding normalize_revision
normalize_revision-Normalized x new r h = ground arith

pub new_row-fields :
    (r : RevisionMetadata) (row : Revision)
    → new_row r ≡ ok row
    → (row.id ≡ r.id)
      × (row.namespace_id ≡ r.namespace_id)
      × (row.parent_revision ≡ r.parent_revision)
      × (row.state ≡ RevisionState.active)
unfolding new_row
new_row-fields r row h = ground arith

-- What the shared part of the two commits checked and inserted.
pub record Inserted (s t : Tables) (eh : Option Hash) (n : Namespace) (r : RevisionMetadata)
    (row : Revision) : Type 0 where
  pub head : n.head ≡ eh
  pub parent : r.parent_revision ≡ eh
  pub local : parent_is_local s r ≡ true
  pub made : new_row r ≡ ok row
  pub table : t ≡ record s { revisions = row ∷ s.revisions }

pub insert_revision-Inserted :
    (s t : Tables) (eh : Option Hash) (n : Namespace) (r : RevisionMetadata)
    → insert_revision s eh n r ≡ ok t
    → (row : Revision) × Inserted s t eh n r row
unfolding insert_revision
insert_revision-Inserted s t eh n r h = elim (Result-cases (new_row r)) [
  | inl (row, e) ↦
      (row, ground (arith, option_beq_iff n.head eh, option_beq_iff r.parent_revision eh))
  | inr (x, e) ↦ ground (arith)
]

-- The values that a commit that returned `created` went through.
pub record Trace (x : Externals) (s t : Tables) (eh : Option Hash) (ee : ℕ)
    (new : NewRevisionMetadata) (now : Time) (r : RevisionMetadata) (n : Namespace) (u : Tables)
    : Type 0 where
  pub normalized : normalize_revision x new ≡ ok r
  pub row : find_namespace s r.namespace_id ≡ some n
  pub epoch : n.namespace_epoch ≡ ee
  pub absent : read_revision s r.id ≡ none
  pub inserted : insert_revision s eh n r ≡ ok u
  pub swapped :
      t.namespaces
      ≡ (swap_head
          (λ m. m.id == n.id && (m.head == eh && m.namespace_epoch == n.namespace_epoch))
          r.id
          now
          u.namespaces).0
  pub revisions : t.revisions ≡ u.revisions
  pub roots :
      t.revision_roots
      ≡ record {
        revision_id = r.id;
        root_sha256 = r.id;
        root_schema_version = r.root_schema_version;
      }
        ∷ u.revision_roots
  pub objects : t.revision_objects ≡ u.revision_objects

pub commit_revision_root-Trace :
    (x : Externals) (s t : Tables) (eh : Option Hash) (ee : ℕ) (new : NewRevisionMetadata)
    (now : Time) (e : ℕ)
    → commit_revision_root x eh ee new now s ≡ ok (t, created, e)
    → (r : RevisionMetadata) × (n : Namespace) × (u : Tables) × Trace x s t eh ee new now r n u
unfolding commit_revision_root read_namespace
commit_revision_root-Trace x s t eh ee new now e h =
    elim (Result-cases (normalize_revision x new)) [
      | inr (y, p) ↦ ground arith
      | inl (r, p) ↦ elim (Option-cases (find_namespace s r.namespace_id)) [
        | inl q ↦ ground arith
        | inr (n, q) ↦ elim (Result-cases (insert_revision s eh n r)) [
          | inr (y, w) ↦ ground arith
          | inl (u, w) ↦ (r, n, u, ground arith)
        ]
      ]
    ]

-- A commit that returned `created` found the expected head, epoch and parent; afterwards the head of
-- its namespace is the new revision, under the same epoch, and every other namespace is as it was.
pub commit_swaps_head :
    (x : Externals) (s t : Tables) (eh : Option Hash) (ee : ℕ) (new : NewRevisionMetadata)
    (now : Time) (e : ℕ)
    → commit_revision_root x eh ee new now s ≡ ok (t, created, e)
    → (n : Namespace) × (find_namespace s new.namespace_id ≡ some n)
      × (n.head ≡ eh)
      × (n.namespace_epoch ≡ ee)
      × (new.parent_revision ≡ eh)
      × (find_namespace t new.namespace_id
          ≡ some (record n { head = some new.id; updated_at = now }))
      × ((j : Uuid) → j ≢ new.namespace_id → find_namespace t j ≡ find_namespace s j)
commit_swaps_head x s t eh ee new now e h =
    let (r, n, u, tr) = commit_revision_root-Trace x s t eh ee new now e h in
    let f = normalize_revision-Normalized x new r tr.normalized in
    let (row, ins) = insert_revision-Inserted s u eh n r tr.inserted in
    let found : find_namespace s new.namespace_id ≡ some n =
      subst (λ k. find_namespace s k ≡ some n) f.namespace_id tr.row in
    let test : Namespace → Bool = λ m. m.head == eh && m.namespace_epoch == n.namespace_epoch in
    let swapped : t.namespaces
        ≡ (swap_head (λ m. m.id == n.id && test m) new.id now s.namespaces).0 =
      tr.swapped
      ∙ ap₂ (λ i rows. (swap_head (λ m. m.id == n.id && test m) i now rows).0) f.id
          (ap (λ (w : Tables). w.namespaces) ins.table) in
    let moved =
      find_namespace-swapped s t n test new.id now new.namespace_id swapped found
        (ground (arith, option_beq_iff n.head eh)) in
    (n, found, ins.head, tr.epoch, sym f.parent_revision ∙ ins.parent, moved.0, moved.1)

parent_is_recorded :
    (s : Tables) (r : RevisionMetadata)
    → parent_is_local s r ≡ true
    → read_revision s r.id ≡ none
    → r.parent_revision ≢ some r.id
unfolding parent_is_local read_revision
parent_is_recorded s r h absent own = ground arith

-- A revision that is new is not its own parent.
not_own_parent :
    (x : Externals) (s t : Tables) (eh : Option Hash) (ee : ℕ) (new : NewRevisionMetadata)
    (now : Time) (e : ℕ)
    → commit_revision_root x eh ee new now s ≡ ok (t, created, e)
    → new.parent_revision ≢ some new.id
not_own_parent x s t eh ee new now e h own =
    let (r, n, u, tr) = commit_revision_root-Trace x s t eh ee new now e h in
    let f = normalize_revision-Normalized x new r tr.normalized in
    let (row, ins) = insert_revision-Inserted s u eh n r tr.inserted in
    parent_is_recorded s r ins.local tr.absent (cc)

-- Two commits that expect the same head of the same namespace cannot both be accepted, the second on
-- the state that the first left, whatever epochs they expect: no update is lost.
pub no_lost_update :
    (x : Externals) (s t u : Tables) (eh : Option Hash) (ee ee' : ℕ) (a b : NewRevisionMetadata)
    (now now' : Time) (e e' : ℕ)
    → commit_revision_root x eh ee a now s ≡ ok (t, created, e)
    → commit_revision_root x eh ee' b now' t ≡ ok (u, created, e')
    → a.namespace_id ≢ b.namespace_id
no_lost_update x s t u eh ee ee' a b now now' e e' p q same =
    let (n, _, _, _, parent, moved, _) = commit_swaps_head x s t eh ee a now e p in
    let (m, found, head, _, _, _, _) = commit_swaps_head x t u eh ee' b now' e' q in
    let same_row : some (record n { head = some a.id; updated_at = now }) ≡ some m =
      sym moved ∙ ap (find_namespace t) same ∙ found in
    not_own_parent x s t eh ee a now e p (ground arith)
