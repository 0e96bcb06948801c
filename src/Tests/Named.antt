-- ===== src/Tests/Named.antt =====
-- The namespaces of apps/sync-server/src/metadata.rs at concrete inputs.
use codex_session_sync.Prelude.{
  [], any, eqb, err, false, find, length, ltb, none, ok, refl, some, update_where, ℕ, ◌∷◌, ◌≡◌, ◌≢◌,
  ◌≤◌, nat_eq, string_eq, option_eq,
}
use codex_session_sync.Metadata.Tables.{
  read_namespace, invalid_name, Uuid, Name, Tables, Namespace, find_namespace,
}
use codex_session_sync.Metadata.Names.{
  trim_end, trim_start, Characters, is_empty, normalize_name, create_namespace, rename_namespace,
  trim,
}
use codex_session_sync.Metadata.Naming.{
  normalize_name_lem, create_namespace_lem, rename_namespace_lem,
}
use codex_session_sync.Protocol.Sha256.{codes}

abbrev ascii : Characters
ascii = record { is_whitespace = λ c. eqb c 32; is_control = λ c. ltb c 32 }

abbrev empty_server : Tables
empty_server = record {
  namespaces = [];
  revisions = [];
  revision_objects = [];
  revision_roots = [];
  operations = [];
  edges = [];
  objects = [];
  gc_queue = [];
}

abbrev team : ℕ → ℕ → Name → Namespace
team id now name = record {
  id = id;
  display_name = name;
  head = none;
  namespace_epoch = 0;
  created_at = 10;
  updated_at = now;
}

abbrev server : Tables
server = record empty_server { namespaces = team 4 10 (codes "our team") ∷ [] }

abbrev renamed_server : Tables
renamed_server = record empty_server { namespaces = team 4 20 (codes "crew") ∷ [] }

normalizes : normalize_name ascii (codes "  our team ") ≡ ok (codes "our team")
unfolding normalize_name trim trim_start trim_end is_empty any
normalizes = refl

refuses_blank : normalize_name ascii (codes "   ") ≡ err invalid_name
unfolding normalize_name trim trim_start trim_end is_empty any
refuses_blank = refl

creates :
    create_namespace ascii (codes "  our team ") 4 10 empty_server
    ≡ ok (server, team 4 10 (codes "our team"))
unfolding create_namespace normalize_name trim trim_start trim_end is_empty any read_namespace
    find_namespace find
creates = refl

renames :
    rename_namespace ascii 4 (codes "crew") 20 server
    ≡ ok (renamed_server, team 4 20 (codes "crew"))
unfolding rename_namespace normalize_name trim trim_start trim_end is_empty any read_namespace
    find_namespace find update_where
renames = refl

normalize_name_lem_example :
    (trim ascii.is_whitespace (codes "our team") ≡ codes "our team")
    × (is_empty (codes "our team") ≡ false)
    × (length (codes "our team") ≤ 128)
    × (any ascii.is_control (codes "our team") ≡ false)
    × (normalize_name ascii (codes "our team") ≡ ok (codes "our team"))
normalize_name_lem_example =
    normalize_name_lem ascii (codes "  our team ") (codes "our team") normalizes

create_namespace_lem_example :
    (normalize_name ascii (codes "  our team ") ≡ ok (codes "our team"))
    × (find_namespace empty_server 4 ≡ none)
    × (find_namespace server 4 ≡ some (team 4 10 (codes "our team")))
    × ((team 4 10 (codes "our team")).head ≡ none)
    × ((team 4 10 (codes "our team")).namespace_epoch ≡ 0)
    × ((j : Uuid) → j ≢ 4 → find_namespace server j ≡ find_namespace empty_server j)
    × (server ≡ record empty_server { namespaces = server.namespaces })
create_namespace_lem_example =
    create_namespace_lem ascii (codes "  our team ") 4 10 empty_server server
      (team 4 10 (codes "our team")) creates

rename_namespace_lem_example :
    (m : Namespace) × (find_namespace server 4 ≡ some m)
    × (normalize_name ascii (codes "crew") ≡ ok (codes "crew"))
    × (team 4 20 (codes "crew") ≡ record m { display_name = codes "crew"; updated_at = 20 })
    × (find_namespace renamed_server 4 ≡ some (team 4 20 (codes "crew")))
    × ((j : Uuid) → j ≢ 4 → find_namespace renamed_server j ≡ find_namespace server j)
    × (renamed_server ≡ record server { namespaces = renamed_server.namespaces })
rename_namespace_lem_example =
    rename_namespace_lem ascii 4 (codes "crew") 20 server renamed_server (team 4 20 (codes "crew"))
      renames
