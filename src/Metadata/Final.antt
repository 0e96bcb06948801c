-- ===== src/Metadata/Final.antt =====
-- A purge is final: `commit_history_trash_purge` and `restore_history_trash` of
-- apps/sync-server/src/metadata.rs.
use codex_session_sync.Metadata.Swept.{commit_history_trash_purge-Purged}
use codex_session_sync.Prelude.{
  ==→eq, Bool, Bool-cases, List, Option, Option-cases, Result-cases, [], and_intro, any, ap, arith,
  contains, false, find, if_false, if_true, inl, inr, ok, or_cases, or_left, or_right, refl, some,
  subst, sym, true, true≢false, update_where, ℕ, ◌&&◌, ◌==◌, ◌∙◌, ◌∷◌, ◌≡◌, ◌≢◌, nat_eq, string_eq,
  option_eq,
}
use codex_session_sync.Metadata.Purge.{HistoryTrashPurgePlan}
use codex_session_sync.Metadata.Tables.{
  GcRow, Time, Hash, Uuid, Tables, TrashOperation, OperationState, operation_is_active,
  read_namespace,
}
use codex_session_sync.Metadata.History.{restore_history_trash, find_operation}
use mathlib.Core.Option.{some-injective}
use codex_session_sync.Metadata.Purging.{
  commit_history_trash_purge, purge_operation, purge_operations,
}

abbrev active_as : Uuid → Uuid → TrashOperation → Bool
active_as ns op o = (o.id == op && o.namespace_id == ns) && operation_is_active o.state

abbrev purged : TrashOperation → TrashOperation
purged o = record o { state = OperationState.purged }

abbrev hit : Uuid → Uuid → TrashOperation → Bool
hit ns op o = o.namespace_id == ns && (o.id == op && operation_is_active o.state)

any-hit :
    (ns op : Uuid) (rows : List TrashOperation)
    → any (active_as ns op) (update_where (hit ns op) purged rows) ≡ false
unfolding any update_where
any-hit ns op [] = refl
any-hit ns op (o ∷ rows) = ground (arith, any-hit ns op rows)

any-other :
    (ns op other : Uuid) (rows : List TrashOperation)
    → any (active_as ns op) rows ≡ false
    → any (active_as ns op) (update_where (hit ns other) purged rows) ≡ false
unfolding any update_where
any-other ns op other [] h = refl
any-other ns op other (o ∷ rows) h = ground (arith, any-other ns op other rows)

purge_operations-other :
    (ns op : Uuid) (ops : List Uuid) (s : Tables)
    → any (active_as ns op) s.operations ≡ false
    → any (active_as ns op) (purge_operations ns ops s).operations ≡ false
unfolding purge_operations purge_operation
purge_operations-other ns op [] s h = h
purge_operations-other ns op (other ∷ ops) s h =
    purge_operations-other ns op ops (purge_operation ns other s)
      (any-other ns op other s.operations h)

purge_operations-hit :
    (ns op : Uuid) (ops : List Uuid) (s : Tables)
    → contains ops op ≡ true
    → any (active_as ns op) (purge_operations ns ops s).operations ≡ false
unfolding purge_operations purge_operation contains
purge_operations-hit ns op [] s h = cc
purge_operations-hit ns op (other ∷ ops) s h = elim (or_cases (other == op) (contains ops op) h) [
  | inl here ↦ purge_operations-other ns op ops (purge_operation ns other s) (
      subst (λ k. any (active_as ns op) (update_where (hit ns k) purged s.operations) ≡ false)
        (sym (==→eq here)) (any-hit ns op s.operations))
  | inr (_, later) ↦ purge_operations-hit ns op ops (purge_operation ns other s) later
]

any-found :
    {A : Type 0} (p q : A → Bool) (xs : List A) (a : A)
    → find p xs ≡ some a
    → q a ≡ true
    → any (λ x. p x && q x) xs ≡ true
unfolding find any
any-found p q [] a h e = cc
any-found p q (x ∷ xs) a h e = elim (Bool-cases (p x)) [
  | inl here ↦
      or_left _ _ (and_intro _ _ here (ap q (some-injective _ _ (sym (if_true _ _ here) ∙ h)) ∙ e))
  | inr other ↦ or_right (p x && q x) _ (any-found p q xs a (sym (if_false _ _ other) ∙ h) e)
]

-- A restore needs an active operation.
restore-active :
    (ns op : Uuid) (head : Option Hash) (epoch : ℕ) (now : Time) (t u : Tables) (o : TrashOperation)
    → restore_history_trash ns op head epoch now t ≡ ok (u, o)
    → any (active_as ns op) t.operations ≡ true
unfolding restore_history_trash find_operation
restore-active ns op head epoch now t u o h = elim (Result-cases (read_namespace t ns)) [
  | inr (e, bad) ↦ absurd (ground arith)
  | inl (n, row) ↦
      elim (Option-cases (find (λ o. o.id == op && o.namespace_id == ns) t.operations)) [
        | inl missing ↦ absurd (ground arith)
        | inr (k, found) ↦
            let is_active : operation_is_active k.state ≡ true = ground arith in
            any-found (λ o. o.id == op && o.namespace_id == ns) (λ o. operation_is_active o.state)
              t.operations k found is_active
      ]
]

-- After a purge that goes through, no operation that it named can be restored, at any time and under any
-- expectation.
pub restore_history_trash-commit_history_trash_purge :
    (fresh : ℕ → Uuid) (purge ns : Uuid) (expected plan : HistoryTrashPurgePlan) (now : Time)
    (s t : Tables) (rows : List GcRow) (op : Uuid) (head : Option Hash) (epoch : ℕ) (later : Time)
    (u : Tables) (o : TrashOperation)
    → commit_history_trash_purge fresh purge ns expected now s ≡ ok (t, plan, rows)
    → contains plan.operation_ids op ≡ true
    → restore_history_trash ns op head epoch later t ≢ ok (u, o)
restore_history_trash-commit_history_trash_purge fresh purge ns expected plan now s t rows op head
      epoch later u o h named restored =
    let (ops, objects, tr) =
      commit_history_trash_purge-Purged fresh purge ns expected plan now s t rows h in
    let spent : any (active_as ns op) t.operations ≡ false =
      ap (λ (w : Tables). any (active_as ns op) w.operations) tr.table
      ∙ purge_operations-hit ns op ops s (ap (λ l. contains l op) tr.operations ∙ named) in
    true≢false (sym (restore-active ns op head epoch later t u o restored) ∙ spent)
