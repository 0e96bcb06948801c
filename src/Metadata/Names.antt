-- ===== src/Metadata/Names.antt =====
-- The namespaces of apps/sync-server/src/metadata.rs: their names, and the operations on their rows.
use codex_session_sync.Prelude.{
  Bool, List, Option, [], any, ensure, eqb, err, false, if◌then◌else◌, length, ltb, none, not, ok,
  ok_or, true, update_where, ℕ, ◌&&◌, ◌==◌, ◌>>=◌, ◌>>◌, ◌||◌, ◌∷◌, nat_eq, string_eq, option_eq,
}
use codex_session_sync.Metadata.Revisions.{read_revision, RevisionMetadata}
use codex_session_sync.Metadata.Tables.{
  revision_not_found, namespace_not_found, sqlite, Time, Name, Hash, Uuid, invalid_name, M, Tables,
  Namespace, read_namespace,
}

-- `char::is_whitespace` and `char::is_control`, of the standard library
pub record Characters : Type 0 where
  pub is_whitespace : ℕ → Bool
  pub is_control : ℕ → Bool

abbrev pub max_namespace_name_chars : ℕ
max_namespace_name_chars = 128

-- `trim_start`
unfoldable pub trim_start : (ℕ → Bool) → List ℕ → List ℕ
trim_start p [] = []
trim_start p (c ∷ cs) = let rest = trim_start p cs in if p c then rest else c ∷ cs

-- `trim_end`
unfoldable pub trim_end : (ℕ → Bool) → List ℕ → List ℕ
trim_end p [] = []
trim_end p (c ∷ cs) = elim (trim_end p cs) [ [] ↦ if p c then [] else c ∷ [] | d ∷ ds ↦ c ∷ d ∷ ds ]

unfoldable pub is_empty : List ℕ → Bool
is_empty [] = true
is_empty (c ∷ cs) = false

unfoldable pub trim : (ℕ → Bool) → Name → Name
trim p name = trim_end p (trim_start p name)

unfoldable pub normalize_name : Characters → Name → M Name
normalize_name x display_name =
    let name = trim x.is_whitespace display_name in
    if is_empty name || (ltb max_namespace_name_chars (length name) || any x.is_control name)
    then err invalid_name
    else ok name

-- `id` is a fresh identifier; the column of the epoch has 0 for its default.
unfoldable pub create_namespace : Characters → Name → Uuid → Time → Tables → M (Tables × Namespace)
create_namespace x display_name id now s = do
  name ← normalize_name x display_name
  ensure (not (any (λ n. n.id == id) s.namespaces)) sqlite
  let row : Namespace = record {
    id = id;
    display_name = name;
    head = none;
    namespace_epoch = 0;
    created_at = now;
    updated_at = now;
  }
  let t : Tables = record s { namespaces = row ∷ s.namespaces }
  n ← read_namespace t id
  ok (t, n)

unfoldable pub rename_namespace : Characters → Uuid → Name → Time → Tables → M (Tables × Namespace)
rename_namespace x id display_name now s = do
  name ← normalize_name x display_name
  ensure (any (λ n. n.id == id) s.namespaces) (namespace_not_found id)
  let t : Tables = record s {
    namespaces =
        update_where (λ n. n.id == id) (λ n. record n { display_name = name; updated_at = now })
          s.namespaces;
  }
  n ← read_namespace t id
  ok (t, n)

unfoldable pub get_head : Uuid → Tables → M (Option Hash)
get_head id s = do n ← read_namespace s id; ok n.head

unfoldable pub get_head_state : Uuid → Tables → M (Option Hash × ℕ)
get_head_state id s = do n ← read_namespace s id; ok (n.head, n.namespace_epoch)

unfoldable pub get_revision_metadata : Hash → Tables → M RevisionMetadata
get_revision_metadata id s = ok_or (read_revision s id) (revision_not_found id)

-- ORDER BY created_at, id
unfoldable pub created_before : Namespace → Namespace → Bool
created_before a b =
    ltb a.created_at b.created_at || (eqb a.created_at b.created_at && ltb a.id b.id)

unfoldable pub insert_namespace : Namespace → List Namespace → List Namespace
insert_namespace n [] = n ∷ []
insert_namespace n (m ∷ rows) =
    let rest = insert_namespace n rows in if created_before m n then m ∷ rest else n ∷ m ∷ rows

unfoldable pub sort_namespaces : List Namespace → List Namespace
sort_namespaces [] = []
sort_namespaces (n ∷ rows) = insert_namespace n (sort_namespaces rows)

unfoldable pub list_namespaces : Tables → List Namespace
list_namespaces s = sort_namespaces s.namespaces
