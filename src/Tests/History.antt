-- ===== src/Tests/History.antt =====
-- Commits, truncations and restores of apps/sync-server/src/metadata.rs at concrete inputs.
use codex_session_sync.Prelude.{
  List, Option, [], all, any, arith, find, none, ok, refl, some, true, update_where, ℕ, ◌+◌, ◌∷◌,
  ◌≡◌, ◌≢◌, nat_eq, string_eq, option_eq,
}
use codex_session_sync.Protocol.Sha256.{codes, is_lower_hex, strip_prefix, validate_sha256}
use codex_session_sync.Metadata.Tables.{
  sql_integer, find_revision, next_epoch, Time, RevisionRoot, Hash, TrashOperation, find_namespace,
  Revision, read_namespace, Uuid, Tables, Namespace, OperationState, RevisionState,
}
use codex_session_sync.Metadata.Revisions.{
  read_revision, total_length, collect_objects, NewRevisionMetadata, read_objects, Externals,
  normalize_revision, created, already_committed,
}
use codex_session_sync.Metadata.Commits.{
  swap_head, new_row, parent_is_local, insert_revision, commit_revision_root,
}
use codex_session_sync.Metadata.Commit.{commit_swaps_head, no_lost_update}
use codex_session_sync.Metadata.Retry.{commit_retry}
use codex_session_sync.Metadata.History.{
  set_head, trash_revisions, active_parent, walk, retention, trash_row, truncate_history,
  restore_history_trash,
}
use codex_session_sync.Metadata.RoundTrip.{restore-truncate_history}

abbrev externals : Externals
externals = record { version_num = λ id. 7; parses_rfc3339 = λ s. true }

abbrev first : Hash
first = "sha256:1111111111111111111111111111111111111111111111111111111111111111"

abbrev second : Hash
second = "sha256:2222222222222222222222222222222222222222222222222222222222222222"

abbrev revision : Hash → Option Hash → Uuid → NewRevisionMetadata
revision id parent ns = record {
  id = id;
  namespace_id = ns;
  parent_revision = parent;
  created_at = "2026-01-01T00:00:00Z";
  manifest_byte_length = 10;
  thread_count = 1;
  objects = [];
  object_count_override = some 2;
  total_bytes_override = some 30;
  root_schema_version = 4;
}

abbrev row : Hash → Option Hash → Uuid → Revision
row id parent ns = record {
  id = id;
  namespace_id = ns;
  parent_revision = parent;
  created_at = "2026-01-01T00:00:00Z";
  manifest_byte_length = 10;
  thread_count = 1;
  object_count = 2;
  total_bytes = 30;
  state = RevisionState.active;
  trash_operation_id = none;
}

abbrev root_row : Hash → RevisionRoot
root_row id = record { revision_id = id; root_sha256 = id; root_schema_version = 4 }

abbrev namespace : Uuid → Option Hash → ℕ → Time → Namespace
namespace id head epoch now = record {
  id = id;
  display_name = codes "team";
  head = head;
  namespace_epoch = epoch;
  created_at = 0;
  updated_at = now;
}

abbrev tables : List Namespace → List Revision → List RevisionRoot → Tables
tables namespaces revisions roots = record {
  namespaces = namespaces;
  revisions = revisions;
  revision_objects = [];
  revision_roots = roots;
  operations = [];
  edges = [];
  objects = [];
  gc_queue = [];
}

abbrev before : Tables
before = tables (namespace 1 none 5 0 ∷ namespace 2 none 5 0 ∷ []) [] []

abbrev after : Tables
after =
    tables (namespace 1 (some first) 5 100 ∷ namespace 2 none 5 0 ∷ []) (row first none 1 ∷ [])
      (root_row first ∷ [])

abbrev both : Tables
both =
    tables (namespace 1 (some first) 5 100 ∷ namespace 2 (some second) 5 200 ∷ [])
      (row second none 2 ∷ row first none 1 ∷ []) (root_row second ∷ root_row first ∷ [])

commits :
    commit_revision_root externals none 5 (revision first none 1) 100 before
    ≡ ok (after, created, 5)
unfolding commit_revision_root normalize_revision validate_sha256 strip_prefix is_lower_hex all
    collect_objects total_length read_namespace find_namespace read_revision find_revision find
    insert_revision parent_is_local new_row sql_integer swap_head any
commits = refl

commits_other :
    commit_revision_root externals none 5 (revision second none 2) 200 after ≡ ok (both, created, 5)
unfolding commit_revision_root normalize_revision validate_sha256 strip_prefix is_lower_hex all
    collect_objects total_length read_namespace find_namespace read_revision find_revision find
    insert_revision parent_is_local new_row sql_integer swap_head any
commits_other = refl

commit_swaps_head_example :
    (n : Namespace) × (find_namespace before 1 ≡ some n)
    × (n.head ≡ none)
    × (n.namespace_epoch ≡ 5)
    × ((revision first none 1).parent_revision ≡ none)
    × (find_namespace after 1
        ≡ some (record n { head = some (revision first none 1).id; updated_at = 100 }))
    × ((j : Uuid) → j ≢ 1 → find_namespace after j ≡ find_namespace before j)
commit_swaps_head_example =
    commit_swaps_head externals before after none 5 (revision first none 1) 100 5 commits

no_lost_update_example :
    (revision first none 1).namespace_id ≢ (revision second none 2).namespace_id
no_lost_update_example =
    no_lost_update externals before after both none 5 5 (revision first none 1)
      (revision second none 2) 100 200 5 5 commits commits_other

no_rows : read_objects before.revision_objects first ≡ []
unfolding read_objects
no_rows = refl

commit_retry_example :
    commit_revision_root externals none 5 (revision first none 1) 900 after
    ≡ ok (after, already_committed, 5)
commit_retry_example =
    commit_retry externals before after none 5 (revision first none 1) 100 900 5 commits refl
      no_rows

abbrev grown : Tables
grown =
    tables (namespace 1 (some second) 5 200 ∷ [])
      (row second (some first) 1 ∷ row first none 1 ∷ []) (root_row second ∷ root_row first ∷ [])

abbrev operation : TrashOperation
operation = record {
  id = 77;
  namespace_id = 1;
  old_head = some second;
  new_head = some first;
  epoch_before = 5;
  epoch_after = 6;
  created_at = 300;
  expires_at = 300 + retention;
  revision_count = 1;
  state = OperationState.active;
}

abbrev cut : Tables
cut = record grown {
  namespaces = namespace 1 (some first) 6 300 ∷ [];
  revisions = trash_row 77 (row second (some first) 1) ∷ row first none 1 ∷ [];
  operations = operation ∷ [];
}

truncates : truncate_history 1 (some second) 5 (some first) 77 300 grown ≡ ok (cut, operation)
unfolding truncate_history read_namespace find_namespace find walk active_parent next_epoch
    trash_revisions set_head update_where
truncates = refl

restore-truncate_history_example :
    (u : Tables) × (n : Namespace) × (restore_history_trash 1 77 (some first) (5 + 1) 400 cut
      ≡ ok (u, record operation { state = OperationState.restored }))
    × (u.revisions ≡ grown.revisions)
    × (find_namespace u 1 ≡ some n)
    × (n.head ≡ some second)
    × (n.namespace_epoch ≡ 5 + 2)
restore-truncate_history_example =
    restore-truncate_history grown cut 1 (some second) 5 (some first) 77 300 400 operation truncates
      ((λ e. refl), ((λ e. refl), tt)) ((λ h. cc), ((λ h. cc), tt)) (omega arith) (omega arith)
