-- ===== src/Metadata/Doomed.antt =====
-- What a purge of truncated histories leaves alone, and what it gives to the garbage collector:
-- `commit_history_trash_purge` of apps/sync-server/src/metadata.rs.
use codex_session_sync.Prelude.{
  All, Bool-cases, List, Option-cases, Result-cases, [], and_intro, any, ap, arith, contains, eqb,
  false, find, if_false, if_true, inl, inr, ok, ok-injective, or_left, or_right, refl, some, subst,
  suc, sym, true, ℕ, ◌&&◌, ◌==◌, ◌∙◌, ◌∷◌, ◌≡◌, nat_eq, string_eq, option_eq,
}
use codex_session_sync.Metadata.Tables.{
  sql_integer, GcRow, StorageObjectRef, StorageObject, Time, Uuid, Key, Tables,
}
use codex_session_sync.Metadata.Reachability.{key_eq, key_of, reachable_objects}
use mathlib.Core.Option.{some-injective}
use codex_session_sync.Metadata.Purging.{purge_row, purge_rows}

-- A row of the queue whose object is stored, cannot be reached, and is to be deleted for good.
pub record IsDoomed (s : Tables) (now : Time) (row : GcRow) : Type 0 where
  pub unreachable : contains (reachable_objects s now) (key_of row.object) ≡ false
  pub stored :
      any (λ o. o.key == key_of row.object && eqb o.byte_length row.object.byte_length) s.objects
      ≡ true
  pub deleted : row.delete_after_quarantine ≡ true

found_any :
    (k : Key) (n : ℕ) (o : StorageObject) (os : List StorageObject)
    → find (λ o. o.key == k) os ≡ some o
    → eqb o.byte_length n ≡ true
    → any (λ o. o.key == k && eqb o.byte_length n) os ≡ true
unfolding find any
found_any k n o [] h e = cc
found_any k n o (p ∷ os) h e = elim (Bool-cases (p.key == k)) [
  | inl here ↦
      let is : p ≡ o = some-injective _ _ (sym (if_true _ _ here) ∙ h) in
      or_left _ _ (and_intro _ _ here (ap (λ (q : StorageObject). eqb q.byte_length n) is ∙ e))
  | inr other ↦
      or_right (p.key == k && eqb p.byte_length n) _
        (found_any k n o os (sym (if_false _ _ other) ∙ h) e)
]

pub purge_rows-IsDoomed :
    (fresh : ℕ → Uuid) (i : ℕ) (op : Uuid) (now : Time) (s : Tables)
    (objects : List StorageObjectRef) (rows : List GcRow)
    → purge_rows fresh i op now s objects ≡ ok rows
    → All (IsDoomed s now) rows
unfolding purge_rows
purge_rows-IsDoomed fresh i op now s [] rows h = subst (All (IsDoomed s now)) (ok-injective h) tt
purge_rows-IsDoomed fresh i op now s (object ∷ objects) rows h =
    elim (Bool-cases (contains (reachable_objects s now) (key_of object))) [
      | inl reached ↦ purge_rows-IsDoomed fresh i op now s objects rows (ground arith)
      | inr lost ↦ elim (Option-cases (find (λ o. o.key == key_of object) s.objects)) [
        | inl missing ↦ purge_rows-IsDoomed fresh i op now s objects rows (ground arith)
        | inr (o, found) ↦ elim (Bool-cases (eqb o.byte_length object.byte_length)) [
          | inr differs ↦ absurd (ground arith)
          | inl same ↦ elim (Result-cases (sql_integer object.byte_length)) [
            | inr (e, bad) ↦ absurd (ground arith)
            | inl (n, fits) ↦ elim (Result-cases (purge_rows fresh (suc i) op now s objects)) [
              | inr (e, bad) ↦ absurd (ground arith)
              | inl (rest, later) ↦
                  let is : purge_row fresh i op now object ∷ rest ≡ rows = ground arith in
                  subst (All (IsDoomed s now)) is (
                    record {
                      unreachable = lost;
                      stored = found_any (key_of object) object.byte_length o s.objects found same;
                      deleted = refl;
                    },
                    purge_rows-IsDoomed fresh (suc i) op now s objects rest later,
                  )
            ]
          ]
        ]
      ]
    ]
