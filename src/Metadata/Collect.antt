-- ===== src/Metadata/Collect.antt =====
-- The garbage collector of apps/sync-server/src/metadata.rs and api.rs never takes what can be reached.
use codex_session_sync.Prelude.{
  ==→eq, Bool-cases, List, Option, Option-cases, [], and_left, and_right, any, arith, contains,
  filter, find, inl, inr, ne→==, none, not, or_cases, or_left, or_right, refl, some, subst, sym,
  true, ◌&&◌, ◌==◌, ◌||◌, ◌∙◌, ◌∷◌, ◌≡◌, ◌≢◌, ◌≤◌, nat_eq, string_eq, option_eq,
}
use codex_session_sync.Metadata.Closure.{along, from_root, Reaches, has_edge}
use codex_session_sync.Metadata.Tables.{
  find_revision, RevisionRoot, Uuid, Time, Tables, Key, Edge, StorageObject,
}
use codex_session_sync.Metadata.Reachability.{
  root_key, operation_keeps, root_is_live, key_eq, live_roots,
}

abbrev pub find_object : Tables → Key → Option StorageObject
find_object s k = find (λ o. o.key == k) s.objects

-- The edges that stay when an object goes.
abbrev pub without : Key → List Edge → List Edge
without k = filter (λ e. not (e.owner == k || e.target == k))

not_either :
    (e : Edge) (k a b : Key)
    → a ≢ k
    → b ≢ k
    → (e.owner == a && e.target == b) ≡ true
    → not (e.owner == k || e.target == k) ≡ true
not_either e k a b p q h =
    let owner : e.owner ≢ k = λ w. p (sym (==→eq (and_left _ _ h)) ∙ w) in
    let target : e.target ≢ k = λ w. q (sym (==→eq (and_right _ _ h)) ∙ w) in
    rw (ne→== e.owner k owner, ne→== e.target k target) refl

has_edge-without :
    (k a b : Key) (edges : List Edge)
    → a ≢ k
    → b ≢ k
    → has_edge edges a b ≡ true
    → has_edge (without k edges) a b ≡ true
unfolding has_edge any filter
has_edge-without k a b [] p q h = cc
has_edge-without k a b (e ∷ edges) p q h = elim (or_cases (e.owner == a && e.target == b) _ h) [
  | inl here ↦ rw (not_either e k a b p q here) (or_left _ _ here)
  | inr (_, later) ↦
      let ih = has_edge-without k a b edges p q later in
      elim (Bool-cases (not (e.owner == k || e.target == k))) [
        | inl kept ↦ rw kept (or_right (e.owner == a && e.target == b) _ ih)
        | inr gone ↦ rw gone ih
      ]
]

pub Reaches-without :
    (edges : List Edge) (roots : List Key) (k : Key) {a : Key}
    → ¬ Reaches edges roots k
    → Reaches edges roots a
    → Reaches (without k edges) roots a
Reaches-without edges roots k no_path (from_root h) = from_root h
Reaches-without edges roots k no_path (along {a = a} {b = b} r e) =
    along (Reaches-without edges roots k no_path r) (
      has_edge-without k a b edges (λ w. no_path (subst (Reaches edges roots) w r))
        (λ w. no_path (subst (Reaches edges roots) w (along r e))) e)

pub find-without :
    (k a : Key) (objects : List StorageObject)
    → a ≢ k
    → find (λ o. o.key == a) (filter (λ o. not (o.key == k)) objects)
      ≡ find (λ o. o.key == a) objects
unfolding find filter
find-without k a [] h = refl
find-without k a (o ∷ objects) h = elim (Bool-cases (o.key == k)) [
  | inl gone ↦ rw (gone, ne→== o.key a (λ w. h (sym w ∙ ==→eq gone))) (find-without k a objects h)
  | inr kept ↦ rw (kept, find-without k a objects h) refl
]

operation_keeps-eq :
    (s t : Tables) (now : Time) (op : Option Uuid)
    → t.operations ≡ s.operations
    → operation_keeps t now op ≡ operation_keeps s now op
unfolding operation_keeps
operation_keeps-eq s t now none q = refl
operation_keeps-eq s t now (some op) q = ground arith

root_is_live-eq :
    (s t : Tables) (now : Time) (root : RevisionRoot)
    → t.revisions ≡ s.revisions
    → t.operations ≡ s.operations
    → root_is_live t now root ≡ root_is_live s now root
unfolding root_is_live find_revision
root_is_live-eq s t now root p q =
    elim (Option-cases (find (λ r. r.id == root.revision_id) s.revisions)) [
      | inl e ↦ ground arith
      | inr (r, e) ↦ ground (arith, operation_keeps-eq s t now r.trash_operation_id q)
    ]

pub live_roots-eq :
    (s t : Tables) (now : Time) (roots : List RevisionRoot)
    → t.revisions ≡ s.revisions
    → t.operations ≡ s.operations
    → live_roots t now roots ≡ live_roots s now roots
unfolding live_roots
live_roots-eq s t now [] p q = refl
live_roots-eq s t now (root ∷ roots) p q =
    rw (root_is_live-eq s t now root p q, live_roots-eq s t now roots p q) refl

-- A root that is live at a time was live before it.
operation_keeps_before :
    (s : Tables) (now later : Time) (op : Option Uuid)
    → now ≤ later
    → operation_keeps s later op ≡ true
    → operation_keeps s now op ≡ true
unfolding operation_keeps
operation_keeps_before s now later none h k = k
operation_keeps_before s now later (some op) h k = ground arith

root_is_live_before :
    (s : Tables) (now later : Time) (root : RevisionRoot)
    → now ≤ later
    → root_is_live s later root ≡ true
    → root_is_live s now root ≡ true
unfolding root_is_live
root_is_live_before s now later root h k = elim (Option-cases (find_revision s root.revision_id)) [
  | inl e ↦ ground arith
  | inr (r, e) ↦ ground (arith, operation_keeps_before s now later r.trash_operation_id)
]

pub live_roots_before :
    (s : Tables) (now later : Time) (roots : List RevisionRoot) (k : Key)
    → now ≤ later
    → contains (live_roots s later roots) k ≡ true
    → contains (live_roots s now roots) k ≡ true
unfolding live_roots contains
live_roots_before s now later [] k h p = p
live_roots_before s now later (root ∷ roots) k h p =
    let ih = live_roots_before s now later roots k h in
    elim (Bool-cases (root_is_live s later root)) [
      | inl live ↦
          rw (root_is_live_before s now later root h live)
            (elim (or_cases (root_key root == k) _ (rw live at p)) [
              | inl here ↦ or_left _ _ here
              | inr (_, rest) ↦ or_right (root_key root == k) _ (ih rest)
            ])
      | inr dead ↦
          let rest = ih (rw dead at p) in
          elim (Bool-cases (root_is_live s now root)) [
            | inl live ↦ rw live (or_right (root_key root == k) _ rest)
            | inr still ↦ rw still rest
          ]
    ]
