-- ===== src/Merge/Threads.antt =====
-- `merge_thread_sets` and `resolve_thread_sets` of crates/sync-core/src/sync.rs. The SHA-256 of a JSON text
-- is a parameter: `bundle` digests a bundle that went through `remote_thread_view`, `conflict` the tuple of
-- a conflict. To serialise either does not fail.
use codex_session_sync.Prelude.{
  Bool, List, Option, Result, String, [], err, false, get, if◌then◌else◌, insert, is_some, none,
  not, ok, some, true, ℕ, ◌&&◌, ◌++◌, ◌==◌, ◌>>=◌, ◌∷◌, nat_eq, string_eq, option_eq,
}
use Prim.Native.String.{compare}
use Prim.Native.Nat.{Ordering}
use codex_session_sync.Merge.Bundle.{Integer, remote_thread_view, ThreadBundle}

pub data ThreadConflictKind : Type 0 where
  both_modified local_deleted_remote_modified remote_deleted_local_modified : ThreadConflictKind

pub record Digests : Type 0 where
  pub bundle : ThreadBundle → String
  pub conflict :
      String → ThreadConflictKind → Option String → Option String → Option String → String

pub record ThreadConflictVersion : Type 0 where
  pub title : String
  pub archived : Bool
  pub updated_at_ms : Option Integer
  pub model_provider : Option String
  pub workspace_source_path : Option String
  pub semantic_hash : String

pub record ThreadConflict : Type 0 where
  pub conflict_id : String
  pub thread_id : String
  pub title : String
  pub kind : ThreadConflictKind
  pub base : Option ThreadConflictVersion
  pub local : Option ThreadConflictVersion
  pub remote : Option ThreadConflictVersion

pub data ThreadResolutionChoice : Type 0 where
  keep_local keep_remote : ThreadResolutionChoice

pub record ThreadConflictResolution : Type 0 where
  pub conflict_id : String
  pub thread_id : String
  pub choice : ThreadResolutionChoice

pub record ThreadMergeOutcome : Type 0 where
  pub threads : List ThreadBundle
  pub conflicts : List ThreadConflict

pub data MergeError : Type 0 where
  duplicate_thread duplicate_resolution missing_resolution changed_conflict : String → MergeError
  conflict_set_changed : ℕ → ℕ → MergeError

abbrev pub Merged : Type 0 → Type 0
Merged A = Result MergeError A

abbrev pub Threads : Type 0
Threads = List (String × ThreadBundle)

unfoldable pub thread_map_from : Threads → List ThreadBundle → Merged Threads
thread_map_from m [] = ok m
thread_map_from m (t ∷ ts) =
    let rest = thread_map_from (insert t.thread_id t m) ts in
    if is_some (get t.thread_id m) then err (duplicate_thread t.thread_id) else rest

unfoldable pub thread_map : List ThreadBundle → Merged Threads
thread_map ts = thread_map_from [] ts

-- `BTreeSet::insert`
unfoldable pub insert_id : String → List String → List String
insert_id k [] = k ∷ []
insert_id k (j ∷ js) = elim (compare k j) [
  | Ordering.lt ↦ k ∷ j ∷ js
  | Ordering.eq ↦ j ∷ js
  | Ordering.gt ↦ j ∷ insert_id k js
]

unfoldable pub insert_keys : Threads → List String → List String
insert_keys [] ids = ids
insert_keys ((k, t) ∷ m) ids = insert_keys m (insert_id k ids)

-- `threads.sort_by(…)`, which is stable: an insertion sort
unfoldable pub place_thread : ThreadBundle → List ThreadBundle → List ThreadBundle
place_thread t [] = t ∷ []
place_thread t (u ∷ us) = elim (compare u.thread_id t.thread_id) [
  | Ordering.lt ↦ u ∷ place_thread t us
  | Ordering.eq ↦ t ∷ u ∷ us
  | Ordering.gt ↦ t ∷ u ∷ us
]

unfoldable pub sort_threads : List ThreadBundle → List ThreadBundle
sort_threads [] = []
sort_threads (t ∷ ts) = place_thread t (sort_threads ts)

abbrev pub or_option {ℓ} : {A : Type ℓ} → Option A → Option A → Option A
or_option (some t) o = some t
or_option none o = o

unfoldable pub kind_of : Option ThreadBundle → Option ThreadBundle → ThreadConflictKind
kind_of none (some r) = local_deleted_remote_modified
kind_of (some l) none = remote_deleted_local_modified
kind_of none none = both_modified
kind_of (some l) (some r) = both_modified

abbrev pub title_or : Option ThreadBundle → String → String
title_or (some t) id = t.title
title_or none id = id

abbrev pub hash_of : Option ThreadConflictVersion → Option String
hash_of none = none
hash_of (some v) = some v.semantic_hash

unfoldable pub push_selected : Option ThreadBundle → List ThreadBundle → List ThreadBundle
push_selected none ts = ts
push_selected (some t) ts = t ∷ ts

module _ (digests : Digests) where
  unfoldable pub semantic_thread_hash : ThreadBundle → String
  semantic_thread_hash thread = digests.bundle (remote_thread_view thread)

  unfoldable pub semantic_option_eq : Option ThreadBundle → Option ThreadBundle → Bool
  semantic_option_eq none none = true
  semantic_option_eq (some left) (some right) =
      semantic_thread_hash left == semantic_thread_hash right
  semantic_option_eq none (some right) = false
  semantic_option_eq (some left) none = false

  unfoldable pub conflict_version : Option ThreadBundle → Option ThreadConflictVersion
  conflict_version none = none
  conflict_version (some thread) = some (record {
    title = thread.title;
    archived = thread.archived;
    updated_at_ms = thread.updated_at_ms;
    model_provider = thread.model_provider;
    workspace_source_path = thread.workspace.source_path;
    semantic_hash = semantic_thread_hash thread;
  })

  unfoldable pub conflict_of :
      String → Option ThreadBundle → Option ThreadBundle → Option ThreadBundle → ThreadConflict
  conflict_of id b l r = record {
    conflict_id =
        digests.conflict id (kind_of l r) (hash_of (conflict_version b))
          (hash_of (conflict_version l)) (hash_of (conflict_version r));
    thread_id = id;
    title = title_or (or_option l (or_option r b)) id;
    kind = kind_of l r;
    base = conflict_version b;
    local = conflict_version l;
    remote = conflict_version r;
  }

  -- What a round of the loop selects, or the conflict that it reports.
  unfoldable pub merge_one :
      String
      → Option ThreadBundle
      → Option ThreadBundle
      → Option ThreadBundle
      → Option ThreadBundle × List ThreadConflict
  merge_one id b l r =
      let local_changed = not (semantic_option_eq l b) in
      let remote_changed = not (semantic_option_eq r b) in
      if not local_changed && not remote_changed
      then (or_option l r, [])
      else if local_changed && not remote_changed
      then (l, [])
      else if not local_changed && remote_changed
      then (r, [])
      else if semantic_option_eq l r
      then (l, [])
      else (none, conflict_of id b l r ∷ [])

  unfoldable pub merge_ids : Threads → Threads → Threads → List String → ThreadMergeOutcome
  merge_ids b l r [] = record { threads = []; conflicts = [] }
  merge_ids b l r (id ∷ ids) =
      let one = merge_one id (get id b) (get id l) (get id r) in
      let rest = merge_ids b l r ids in
      record { threads = push_selected one.0 rest.threads; conflicts = one.1 ++ rest.conflicts }

  unfoldable pub merge_maps : Threads → Threads → Threads → ThreadMergeOutcome
  merge_maps b l r =
      let outcome = merge_ids b l r (insert_keys r (insert_keys l (insert_keys b []))) in
      record outcome { threads = sort_threads outcome.threads }

  unfoldable pub merge_thread_sets :
      List ThreadBundle → List ThreadBundle → List ThreadBundle → Merged ThreadMergeOutcome
  merge_thread_sets base local remote = do
    b ← thread_map base
    l ← thread_map local
    r ← thread_map remote
    ok (merge_maps b l r)
