-- ===== src/Metadata/Swept.antt =====
-- What a purge of truncated histories leaves: `commit_history_trash_purge` of
-- apps/sync-server/src/metadata.rs.
use codex_session_sync.Prelude.{
  All, Bool-cases, List, Result-cases, [], any, ap, arith, contains, false, find, inl, inr, ok,
  refl, subst, sym, ℕ, ◌&&◌, ◌++◌, ◌==◌, ◌∙◌, ◌∷◌, ◌≡◌, nat_eq, string_eq, option_eq,
}
use codex_session_sync.Metadata.Purge.{build_history_trash_purge_plan, HistoryTrashPurgePlan}
use codex_session_sync.Metadata.Tables.{
  StorageObjectRef, GcRow, Time, Hash, Uuid, Tables, find_revision, find_root, is_trashed,
}
use codex_session_sync.Metadata.Reachability.{reach_from, key_eq, key_of, reachable_objects}
use codex_session_sync.Metadata.Collect.{live_roots-eq}
use codex_session_sync.Metadata.Purging.{
  object_set, plan_beq, purge_rows, enqueue_gc_objects_for_purge, commit_history_trash_purge,
  purge_operations,
}
use codex_session_sync.Metadata.Doomed.{IsDoomed, purge_rows-IsDoomed}
use codex_session_sync.Metadata.Spared.{purge_operations-IsSpared}

-- The values that a purge went through.
pub record Purged (fresh : ℕ → Uuid) (op ns : Uuid) (now : Time) (s t : Tables) (rows : List GcRow)
    (plan : HistoryTrashPurgePlan) (ops : List Uuid) (objects : List StorageObjectRef)
    : Type 0 where
  pub operations : ops ≡ plan.operation_ids
  pub queued : purge_rows fresh 0 op now (purge_operations ns ops s) objects ≡ ok rows
  pub table : t ≡ record (purge_operations ns ops s) {
    gc_queue = (purge_operations ns ops s).gc_queue ++ rows;
  }

pub commit_history_trash_purge-Purged :
    (fresh : ℕ → Uuid) (op ns : Uuid) (expected plan : HistoryTrashPurgePlan) (now : Time)
    (s t : Tables) (rows : List GcRow)
    → commit_history_trash_purge fresh op ns expected now s ≡ ok (t, plan, rows)
    → (ops : List Uuid) × (objects : List StorageObjectRef) × Purged fresh op ns now s t rows plan
        ops objects
unfolding commit_history_trash_purge enqueue_gc_objects_for_purge
commit_history_trash_purge-Purged fresh op ns expected plan now s t rows h =
    elim (Result-cases (build_history_trash_purge_plan ns expected.operation_ids false s)) [
      | inr (e, bad) ↦ absurd (ground arith)
      | inl (current, made) ↦ elim (Bool-cases (plan_beq current expected)) [
        | inr stale ↦ absurd (ground arith)
        | inl same ↦
            elim (Result-cases (
              purge_rows fresh 0 op now (purge_operations ns current.operation_ids s)
                (object_set current.candidate_objects []))) [
                  | inr (e, bad) ↦ absurd (ground arith)
                  | inl (found, queued) ↦
                      (current.operation_ids, object_set current.candidate_objects [], ground arith)
                ]
      ]
    ]

All-map :
    {A : Type 0} (P Q : A → Type 0) (xs : List A) → ((x : A) → P x → Q x) → All P xs → All Q xs
All-map P Q [] f h = tt
All-map P Q (x ∷ xs) f h = (f x h.0, All-map P Q xs f h.1)

-- The queue does not bear on what is reachable.
IsDoomed-queue :
    (u : Tables) (queue : List GcRow) (now : Time) (row : GcRow)
    → IsDoomed u now row
    → IsDoomed (record u { gc_queue = queue }) now row
unfolding reachable_objects
IsDoomed-queue u queue now row d = record {
  unreachable =
      ap (λ roots. contains (reach_from u.edges roots) (key_of row.object))
        (live_roots-eq u (record u { gc_queue = queue }) now u.revision_roots refl refl)
      ∙ d.unreachable;
  stored = d.stored;
  deleted = d.deleted;
}

-- A purge that goes through queues only objects that are stored with the length queued and that nothing
-- reaches in the tables it leaves, each to be deleted for good. It changes no namespace, edge or object,
-- and keeps the row and the root of every revision that is not in the trash.
pub commit_history_trash_purge_lem :
    (fresh : ℕ → Uuid) (op ns : Uuid) (expected plan : HistoryTrashPurgePlan) (now : Time)
    (s t : Tables) (rows : List GcRow)
    → commit_history_trash_purge fresh op ns expected now s ≡ ok (t, plan, rows)
    → All (IsDoomed t now) rows
      × (t.gc_queue ≡ s.gc_queue ++ rows)
      × (t.namespaces ≡ s.namespaces)
      × (t.edges ≡ s.edges)
      × (t.objects ≡ s.objects)
      × ((id : Hash)
          → any (λ r. r.id == id && is_trashed r.state) s.revisions ≡ false
          → (find_revision t id ≡ find_revision s id) × (find_root t id ≡ find_root s id))
unfolding find_revision find_root
commit_history_trash_purge_lem fresh op ns expected plan now s t rows h =
    let (ops, objects, tr) =
      commit_history_trash_purge-Purged fresh op ns expected plan now s t rows h in
    let u = purge_operations ns ops s in
    let kept = purge_operations-IsSpared ns ops s in
    let queue = u.gc_queue ++ rows in
    let doomed =
      All-map (IsDoomed u now) (IsDoomed (record u { gc_queue = queue }) now) rows
        (λ row. IsDoomed-queue u queue now row)
        (purge_rows-IsDoomed fresh 0 op now u objects rows tr.queued) in
    (
      subst (λ w. All (IsDoomed w now) rows) (sym tr.table) doomed,
      ap (λ (w : Tables). w.gc_queue) tr.table ∙ ap (λ q. q ++ rows) kept.queue,
      ap (λ (w : Tables). w.namespaces) tr.table ∙ kept.namespaces,
      ap (λ (w : Tables). w.edges) tr.table ∙ kept.edges,
      ap (λ (w : Tables). w.objects) tr.table ∙ kept.objects,
      λ id alone. (
        ap (λ (w : Tables). find (λ r. r.id == id) w.revisions) tr.table ∙ kept.revisions id alone,
        ap (λ (w : Tables). find (λ root. root.revision_id == id) w.revision_roots) tr.table
            ∙ kept.roots id alone,
      ),
    )
