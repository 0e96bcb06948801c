-- ===== src/Metadata/Safety.antt =====
-- The loop over the collection queue, apps/sync-server/src/api.rs, takes no object that can be reached.
use codex_session_sync.Prelude.{
  All, List, [], ap, contains, false, find, if_rule, refl, subst, sym, true, true≢false, ◌==◌, ◌↔◌,
  ◌∙◌, ◌∷◌, ◌≡◌, ◌≤◌, nat_eq, string_eq, option_eq,
}
use codex_session_sync.Metadata.Closure.{along, reach_from-Reaches, from_root, Reaches}
use codex_session_sync.Metadata.Gc.{
  cancel_gc_entry, mark_gc_entry_purged, process_gc_entries, process_gc_entry,
  gc_object_is_reachable, complete_gc_entry,
}
use codex_session_sync.Metadata.Tables.{Time, Tables, Key, Edge, GcRow}
use codex_session_sync.Metadata.Reachability.{key_eq, key_of, reachable_objects, live_roots}
use codex_session_sync.Metadata.Collect.{
  find-without, Reaches-without, without, live_roots_before, live_roots-eq, find_object,
}

-- A round of the loop kept an object that is reachable at time `until`.
record Kept (s t : Tables) (until : Time) (k : Key) : Type 0 where
  reachable : contains (reachable_objects t until) k ≡ true
  row : find_object t k ≡ find_object s k

Reaches-mono :
    (edges : List Edge) (xs ys : List Key) {k : Key}
    → ((a : Key) → contains xs a ≡ true → contains ys a ≡ true)
    → Reaches edges xs k
    → Reaches edges ys k
Reaches-mono edges xs ys h (from_root p) = from_root (h _ p)
Reaches-mono edges xs ys h (along r e) = along (Reaches-mono edges xs ys h r) e

reachable-Reaches :
    (s : Tables) (now : Time) (k : Key)
    → (contains (reachable_objects s now) k ≡ true)
      ↔ Reaches s.edges (live_roots s now s.revision_roots) k
unfolding reachable_objects
reachable-Reaches s now k = reach_from-Reaches s.edges (live_roots s now s.revision_roots) k

-- Two states with the same history, edges and objects keep the same.
Kept-same :
    (s t : Tables) (until : Time) (k : Key)
    → t.revisions ≡ s.revisions
    → t.operations ≡ s.operations
    → t.revision_roots ≡ s.revision_roots
    → t.edges ≡ s.edges
    → t.objects ≡ s.objects
    → contains (reachable_objects s until) k ≡ true
    → Kept s t until k
unfolding reachable_objects
Kept-same s t until k p q r edges objects h = record {
  reachable = rw (live_roots-eq s t until t.revision_roots p q, edges, r) h;
  row = ap (find (λ o. o.key == k)) objects;
}

complete_gc_entry-Kept :
    (s : Tables) (now until : Time) (entry : GcRow) (k : Key)
    → now ≤ until
    → gc_object_is_reachable now s entry.object ≡ false
    → contains (reachable_objects s until) k ≡ true
    → Kept s (complete_gc_entry entry s) until k
unfolding complete_gc_entry gc_object_is_reachable
complete_gc_entry-Kept s now until entry k le gone h =
    let victim = key_of entry.object in
    let roots = live_roots s until s.revision_roots in
    let path : Reaches s.edges roots k = (reachable-Reaches s until k).0 h in
    let no_path : ¬ Reaches s.edges roots victim = λ r. true≢false (
      sym (
        (reachable-Reaches s now victim).1 (
          Reaches-mono s.edges roots (live_roots s now s.revision_roots)
            (λ a. live_roots_before s now until s.revision_roots a le) r))
      ∙ gone) in
    record {
      reachable = (reachable-Reaches (complete_gc_entry entry s) until k).1 (
          subst (λ w. Reaches (without victim s.edges) w k)
            (sym (live_roots-eq s (complete_gc_entry entry s) until s.revision_roots refl refl))
            (Reaches-without s.edges roots victim no_path path));
      row = find-without victim k s.objects (λ e. no_path (subst (Reaches s.edges roots) e path));
    }

Kept-trans :
    {s t u : Tables} {until : Time} {k : Key}
    → Kept s t until k
    → Kept t u until k
    → Kept s u until k
Kept-trans a b = record { reachable = b.reachable; row = b.row ∙ a.row }

process_gc_entry-Kept :
    (s : Tables) (now until : Time) (entry : GcRow) (k : Key)
    → now ≤ until
    → contains (reachable_objects s until) k ≡ true
    → Kept s (process_gc_entry now entry s) until k
unfolding process_gc_entry mark_gc_entry_purged cancel_gc_entry
process_gc_entry-Kept s now until entry k le h =
    if_rule (λ t. Kept s t until k) (gc_object_is_reachable now s entry.object) _ _
      (λ live. Kept-same s _ until k refl refl refl refl refl h)
      λ gone.
        let done = complete_gc_entry-Kept s now until entry k le gone h in
        if_rule (λ t. Kept s t until k) entry.delete_after_quarantine _ _
          (λ _. Kept-trans done (
            Kept-same (complete_gc_entry entry s) _ until k refl refl refl refl refl
              done.reachable))
          (λ _. done)

-- Whatever entries the loop is given, in whatever order: an object that is reachable at a time not
-- before any of its rounds is still reachable then, and keeps its row.
pub process_gc_entries-keeps_reachable :
    (entries : List (Time × GcRow)) (s : Tables) (until : Time) (k : Key)
    → All (λ e. e.0 ≤ until) entries
    → contains (reachable_objects s until) k ≡ true
    → (contains (reachable_objects (process_gc_entries entries s) until) k ≡ true)
      × (find_object (process_gc_entries entries s) k ≡ find_object s k)
unfolding process_gc_entries
process_gc_entries-keeps_reachable [] s until k times h = (h, refl)
process_gc_entries-keeps_reachable ((now, entry) ∷ entries) s until k times h =
    let round = process_gc_entry-Kept s now until entry k times.0 h in
    let (reachable, row) =
      process_gc_entries-keeps_reachable entries (process_gc_entry now entry s) until k times.1
        round.reachable in
    (reachable, row ∙ round.row)
