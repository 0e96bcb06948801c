-- ===== src/Metadata/Upload.antt =====
-- What the tables record of an upload, apps/sync-server/src/metadata.rs: `record_storage_object`,
-- `replace_object_edges` and the plan of the collector.
use codex_session_sync.Prelude.{
  ==_false_sym, ==_refl, >>=-eq-ok, All, Bool, Bool-cases, List, [], and_false_intro,
  and_true-false, any, any-false_of_find, ap, false, filter, find, find-none_of_any, if-of_false,
  if-of_true, inl, inr, ltb, ne→==, none, not, ok, ok-injective, or_false, or_false_intro, refl,
  some, sym, ◌&&◌, ◌==◌, ◌↔◌, ◌∙◌, ◌∷◌, ◌≡◌, ◌≢◌, nat_eq, string_eq, option_eq,
}
use codex_session_sync.Metadata.Collect.{find_object}
use codex_session_sync.Metadata.Gc.{record_storage_object, replace_object_edges, insert_edges}
use codex_session_sync.Metadata.Tables.{
  i64_mod, Time, Tables, Key, Edge, StorageObject, StorageObjectRef,
}
use codex_session_sync.Metadata.Reachability.{key_eq, key_of}

-- No two targets have the same kind and hash.
abbrev pub AreDistinct : List StorageObjectRef → Type 0
AreDistinct [] = Unit {0}
AreDistinct (a ∷ as') = (any (λ b. key_of b == key_of a) as' ≡ false) × AreDistinct as'

abbrev taken : Key → Key → List Edge → Bool
taken owner k = any (λ e. e.owner == owner && e.target == k)

-- The targets that are free of edges from the owner.
abbrev AreFree : Key → List Edge → List StorageObjectRef → Type 0
AreFree owner edges = All (λ t. taken owner (key_of t) edges ≡ false)

AreFree-cons :
    (owner k : Key) (edges : List Edge) (targets : List StorageObjectRef)
    → AreFree owner (record { owner = owner; target = k } ∷ edges) targets
      ↔ ((any (λ b. key_of b == k) targets ≡ false) × AreFree owner edges targets)
unfolding any
AreFree-cons owner k edges [] = ((λ h. (refl, tt)), (λ h. tt))
AreFree-cons owner k edges (t ∷ targets) = (
  (λ h.
      let (here, there) = or_false _ (taken owner (key_of t) edges) h.0 in
      let (rest, free) = (AreFree-cons owner k edges targets).0 h.1 in
      (
        or_false_intro _ _ (==_false_sym k (key_of t) (and_true-false _ _ (==_refl owner) here))
            rest,
        (there, free),
      )),
  (λ h.
      let (here, there) = or_false (key_of t == k) _ h.0 in
      (
        or_false_intro _ _ (and_false_intro (owner == owner) _ (==_false_sym (key_of t) k here))
            h.1.0,
        (AreFree-cons owner k edges targets).1 (there, h.1.1),
      )),
)

insert_edges-AreDistinct :
    (owner : Key) (targets : List StorageObjectRef) (edges out : List Edge)
    → insert_edges owner targets edges ≡ ok out
    → AreDistinct targets × AreFree owner edges targets
unfolding insert_edges
insert_edges-AreDistinct owner [] edges out h = (tt, tt)
insert_edges-AreDistinct owner (t ∷ targets) edges out h =
    elim (Bool-cases (taken owner (key_of t) edges)) [
      | inl old ↦ cc (if-of_true (taken owner (key_of t) edges) _ _ _ h old)
      | inr new ↦
          let (d, f) =
            insert_edges-AreDistinct owner targets _ out
              (if-of_false (taken owner (key_of t) edges) _ _ _ h new) in
          let (apart, free) = (AreFree-cons owner (key_of t) edges targets).0 f in
          ((apart, d), (new, free))
    ]

insert_edges_total :
    (owner : Key) (targets : List StorageObjectRef) (edges : List Edge)
    → AreDistinct targets
    → AreFree owner edges targets
    → (out : List Edge) × (insert_edges owner targets edges ≡ ok out)
unfolding insert_edges
insert_edges_total owner [] edges d f = (edges, refl)
insert_edges_total owner (t ∷ targets) edges d f =
    let (out, h) =
      insert_edges_total owner targets (record { owner = owner; target = key_of t } ∷ edges) d.1
        ((AreFree-cons owner (key_of t) edges targets).1 (d.0, f.1)) in
    (out, rw f.0 h)

not-taken :
    (owner k : Key) (edges : List Edge)
    → taken owner k (filter (λ e. not (e.owner == owner)) edges) ≡ false
unfolding any filter
not-taken owner k [] = refl
not-taken owner k (e ∷ edges) = elim (Bool-cases (e.owner == owner)) [
  | inl own ↦ rw own (not-taken owner k edges)
  | inr other ↦ rw (other, other) (not-taken owner k edges)
]

AreFree-filter :
    (owner : Key) (edges : List Edge) (targets : List StorageObjectRef)
    → AreFree owner (filter (λ e. not (e.owner == owner)) edges) targets
AreFree-filter owner edges [] = tt
AreFree-filter owner edges (t ∷ targets) =
    (not-taken owner (key_of t) edges, AreFree-filter owner edges targets)

-- `replace_object_edges` succeeds exactly when no two targets are the same object: a repeated target
-- breaks the primary key of the table, and the whole statement fails.
pub replace_object_edges-AreDistinct :
    (owner : StorageObjectRef) (targets : List StorageObjectRef) (s : Tables)
    → ((t : Tables) × (replace_object_edges owner targets s ≡ ok t)) ↔ AreDistinct targets
unfolding replace_object_edges
replace_object_edges-AreDistinct owner targets s = (
  (λ h.
      let (edges, p, _) = >>=-eq-ok (insert_edges (key_of owner) targets _) _ h.1 in
      (insert_edges-AreDistinct (key_of owner) targets _ edges p).0),
  (λ d.
      let (out, p) =
        insert_edges_total (key_of owner) targets _ d
          (AreFree-filter (key_of owner) s.edges targets) in
      (record s { edges = out }, rw p)),
)

-- Recording an upload: an object that was there keeps its row, its age included, and nothing changes;
-- a new object gets a row with the time of the upload, and every other object keeps its own.
pub record_storage_object_lem :
    (object : StorageObjectRef) (now : Time) (s t : Tables)
    → record_storage_object object now s ≡ ok t
    → ((o : StorageObject) → find_object s (key_of object) ≡ some o → t ≡ s)
      × (find_object s (key_of object) ≡ none
          → find_object t (key_of object)
            ≡ some (record {
              key = key_of object;
              byte_length = object.byte_length;
              created_at = now;
            }))
      × ((k : Key) → k ≢ key_of object → find_object t k ≡ find_object s k)
unfolding record_storage_object find
record_storage_object_lem object now s t h =
    let fits = ltb object.byte_length i64_mod in
    let present = any (λ o. o.key == key_of object) s.objects in
    let added : Tables = record s {
      objects =
          record { key = key_of object; byte_length = object.byte_length; created_at = now }
          ∷ s.objects;
    } in
    elim (Bool-cases fits) [
      | inr large ↦ cc (if-of_false fits _ _ _ h large)
      | inl small ↦ elim (Bool-cases present) [
        | inl old ↦
            let same : s ≡ t =
              ok-injective (if-of_true present _ _ _ (if-of_true fits _ _ _ h small) old) in
            (
              (λ o f. sym same),
              (λ f. cc (old, any-false_of_find (λ o. o.key == key_of object) s.objects f)),
              λ k ne. ap (λ w. find_object w k) (sym same),
            )
        | inr new ↦
            let same : added ≡ t =
              ok-injective (if-of_false present _ _ _ (if-of_true fits _ _ _ h small) new) in
            let absent = find-none_of_any (λ o. o.key == key_of object) s.objects new in
            (
              (λ o f. cc (f, absent)),
              (λ f.
                  ap (λ w. find_object w (key_of object)) (sym same)
                  ∙ rw (==_refl (key_of object)) refl),
              λ k ne.
                  ap (λ w. find_object w k) (sym same)
                  ∙ rw (ne→== (key_of object) k (λ w. ne (sym w))) refl,
            )
      ]
    ]
