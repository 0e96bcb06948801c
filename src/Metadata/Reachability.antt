-- ===== src/Metadata/Reachability.antt =====
-- `reachable_objects` of apps/sync-server/src/metadata.rs: the least set of objects that holds the live
-- roots and is closed under the edges, which the statement WITH RECURSIVE … UNION … computes.
use codex_session_sync.Prelude.{
  Bool, Eq, List, Option, [], arith, contains, eq_iff, eqb, false, find, if◌then◌else◌, length, ltb,
  none, not, some, suc, true, zero, ℕ, ◌&&◌, ◌==◌, ◌||◌, ◌↔◌, ◌∷◌, ◌≡◌, nat_eq, string_eq,
  option_eq,
}
use codex_session_sync.Metadata.Tables.{
  Uuid, Time, Tables, Key, Edge, StorageObjectKind, StorageObjectRef, RevisionRoot, find_revision,
  is_active, is_trashed, operation_is_active,
}

-- The order of the enumeration, and its equality.
abbrev pub kind_code : StorageObjectKind → ℕ
kind_code StorageObjectKind.whole = 0
kind_code StorageObjectKind.chunk = 1
kind_code StorageObjectKind.chunk_manifest = 2
kind_code StorageObjectKind.thread = 3
kind_code StorageObjectKind.revision_root = 4

abbrev pub key_beq : Key → Key → Bool
key_beq a b = eqb (kind_code a.kind) (kind_code b.kind) && a.sha256 == b.sha256

kind_code-injective : (a b : StorageObjectKind) → kind_code a ≡ kind_code b → a ≡ b
kind_code-injective a b h = ground arith

pub key_beq_iff : (a b : Key) → (key_beq a b ≡ true) ↔ (a ≡ b)
key_beq_iff a b = (
  (λ h. ground (arith, eq_iff a.sha256 b.sha256)),
  (λ h. ground (arith, eq_iff a.sha256 b.sha256)),
)

instance abbrev pub key_eq : Eq Key
key_eq = record { beq = key_beq; beq_iff = key_beq_iff }

abbrev pub key_of : StorageObjectRef → Key
key_of object = record { kind = object.kind; sha256 = object.sha256 }

-- LEFT JOIN revision_trash_operations ON trash.id = r.trash_operation_id: whether the operation still
-- protects what it holds.
unfoldable pub operation_keeps : Tables → Time → Option Uuid → Bool
operation_keeps s now none = false
operation_keeps s now (some op) = elim (find (λ o. o.id == op) s.operations) [
  | none ↦ false
  | some o ↦ operation_is_active o.state && ltb now o.expires_at
]

unfoldable pub root_is_live : Tables → Time → RevisionRoot → Bool
root_is_live s now root = elim (find_revision s root.revision_id) [
  | none ↦ false
  | some r ↦ is_active r.state || (is_trashed r.state && operation_keeps s now r.trash_operation_id)
]

abbrev pub root_key : RevisionRoot → Key
root_key root = record { kind = StorageObjectKind.revision_root; sha256 = root.root_sha256 }

-- The base of the recursion.
unfoldable pub live_roots : Tables → Time → List RevisionRoot → List Key
live_roots s now [] = []
live_roots s now (root ∷ roots) =
    let rest = live_roots s now roots in
    if root_is_live s now root then root_key root ∷ rest else rest

-- A row that one more round of the recursion adds, if there is one.
unfoldable pub next_target : List Key → List Edge → Option Key
next_target seen [] = none
next_target seen (e ∷ edges) =
    let rest = next_target seen edges in
    if contains seen e.owner && not (contains seen e.target) then some e.target else rest

-- The rounds; there are at most as many as there are edges.
unfoldable pub close : List Edge → ℕ → List Key → List Key
close edges zero seen = seen
close edges (suc fuel) seen = elim (next_target seen edges) [
  | none ↦ seen
  | some key ↦ close edges fuel (key ∷ seen)
]

-- The closure of a set of objects under the edges.
unfoldable pub reach_from : List Edge → List Key → List Key
reach_from edges roots = close edges (length edges) roots

unfoldable pub reachable_objects : Tables → Time → List Key
reachable_objects s now = reach_from s.edges (live_roots s now s.revision_roots)
