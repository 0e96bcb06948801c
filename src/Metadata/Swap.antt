-- ===== src/Metadata/Swap.antt =====
-- The compare and swap of a head: what `swap_head` leaves in the table of namespaces.
use codex_session_sync.Prelude.{
  Bool, List, [], ap, arith, find, find-test, refl, some, subst, sym, true, ◌&&◌, ◌==◌, ◌∙◌, ◌∷◌,
  ◌≡◌, ◌≢◌, nat_eq, string_eq, option_eq,
}
use codex_session_sync.Metadata.Tables.{Tables, find_namespace, Uuid, Hash, Time, Namespace}
use codex_session_sync.Metadata.Commits.{swap_head}

module _ (ns : Uuid) (test : Namespace → Bool) (id : Hash) (now : Time) where
  -- The row of the namespace, if it passes the test, has the new head.
  pub find-swap_head :
      (rows : List Namespace) (n : Namespace)
      → find (λ m. m.id == ns) rows ≡ some n
      → test n ≡ true
      → find (λ m. m.id == ns) (swap_head (λ m. m.id == ns && test m) id now rows).0
        ≡ some (record n { head = some id; updated_at = now })
  unfolding find swap_head
  find-swap_head [] n h q = cc
  find-swap_head (m ∷ rows) n h q = ground (arith, find-swap_head rows n)

  -- Every other namespace keeps its row.
  pub find-swap_head_ne :
      (rows : List Namespace) (other : Uuid)
      → other ≢ ns
      → find (λ m. m.id == other) (swap_head (λ m. m.id == ns && test m) id now rows).0
        ≡ find (λ m. m.id == other) rows
  unfolding find swap_head
  find-swap_head_ne [] other h = refl
  find-swap_head_ne (m ∷ rows) other h = ground (arith, find-swap_head_ne rows other h)

pub find_namespace-id :
    (s : Tables) (j : Uuid) (n : Namespace) → find_namespace s j ≡ some n → n.id ≡ j
unfolding find_namespace
find_namespace-id s j n h = ground (arith, find-test (λ (m : Namespace). m.id == j) s.namespaces n)

-- The same of the tables: one row has the new head, and the rest stand.
pub find_namespace-swapped :
    (s t : Tables) (n : Namespace) (test : Namespace → Bool) (id : Hash) (now : Time) (ns : Uuid)
    → t.namespaces ≡ (swap_head (λ m. m.id == n.id && test m) id now s.namespaces).0
    → find_namespace s ns ≡ some n
    → test n ≡ true
    → (find_namespace t ns ≡ some (record n { head = some id; updated_at = now }))
      × ((j : Uuid) → j ≢ ns → find_namespace t j ≡ find_namespace s j)
unfolding find_namespace
find_namespace-swapped s t n test id now ns e h q =
    let at = find_namespace-id s ns n h in
    (
      ap (find (λ m. m.id == ns)) e
          ∙ subst
              (λ k.
                find (λ m. m.id == ns) (swap_head (λ m. m.id == k && test m) id now s.namespaces).0
                ≡ some (record n { head = some id; updated_at = now }))
              (sym at) (find-swap_head ns test id now s.namespaces n h q),
      λ j ne.
          ap (find (λ m. m.id == j)) e
          ∙ find-swap_head_ne n.id test id now s.namespaces j (λ p. ne (p ∙ at)),
    )
