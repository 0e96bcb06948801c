-- ===== src/Metadata/Naming.antt =====
-- What the operations on namespaces of apps/sync-server/src/metadata.rs give and keep.
use codex_session_sync.Prelude.{
  ==_refl, Bool, Bool-cases, List, Option-cases, Result-cases, [], any, any-false_of_find, ap,
  arith, eqb_iff, err, err≢ok, false, find, find-none_of_any, if_false, if_true, if◌then◌else◌, inl,
  inr, length, ltb, map_option, ne→==, none, not, ok, ok-injective, or_false, refl, some, subst,
  sym, true, update_where, ℕ, ◌==◌, ◌||◌, ◌∙◌, ◌∷◌, ◌≡◌, ◌≢◌, ◌≤◌, nat_eq, string_eq, option_eq,
}
use codex_session_sync.Metadata.Tables.{
  invalid_name, M, Time, Uuid, Name, Tables, Namespace, find_namespace, read_namespace,
}
use codex_session_sync.Metadata.Names.{
  max_namespace_name_chars, is_empty, Characters, create_namespace, rename_namespace,
  normalize_name, trim, trim_end, trim_start,
}

-- A name that does not start with a character of the class.
clear : (ℕ → Bool) → Name → Bool
clear p [] = true
clear p (c ∷ cs) = not (p c)

trim_start-clear : (p : ℕ → Bool) (name : Name) → clear p (trim_start p name) ≡ true
unfolding clear trim_start
trim_start-clear p [] = refl
trim_start-clear p (c ∷ cs) = ground (arith, trim_start-clear p cs)

trim_start-whole : (p : ℕ → Bool) (name : Name) → clear p name ≡ true → trim_start p name ≡ name
unfolding clear trim_start
trim_start-whole p [] h = refl
trim_start-whole p (c ∷ cs) h = ground arith

trim_end-clear :
    (p : ℕ → Bool) (name : Name) → clear p name ≡ true → clear p (trim_end p name) ≡ true
unfolding clear trim_end
trim_end-clear p [] h = refl
trim_end-clear p (c ∷ cs) h = ground arith

trim_end-again : (p : ℕ → Bool) (name : Name) → trim_end p (trim_end p name) ≡ trim_end p name
unfolding trim_end
trim_end-again p [] = refl
trim_end-again p (c ∷ cs) = ground (arith, trim_end-again p cs)

trim-again : (p : ℕ → Bool) (name : Name) → trim p (trim p name) ≡ trim p name
unfolding trim
trim-again p name =
    ap (trim_end p) (
      trim_start-whole p (trim_end p (trim_start p name))
        (trim_end-clear p (trim_start p name) (trim_start-clear p name)))
    ∙ trim_end-again p (trim_start p name)

name_is_good :
    (name : Name) (p : ℕ → Bool)
    → (is_empty name || (ltb max_namespace_name_chars (length name) || any p name)) ≡ false
    → (is_empty name ≡ false) × (length name ≤ 128) × (any p name ≡ false)
name_is_good name p h =
    let (full, rest) = or_false _ _ h in
    let (short, plain) = or_false _ _ rest in (full, ground arith, plain)

-- The test of a name that is trimmed.
abbrev normalize : Characters → Name → M Name
normalize x name =
    if is_empty name || (ltb max_namespace_name_chars (length name) || any x.is_control name)
    then err invalid_name
    else ok name

-- A name that is accepted has no space around it, is not empty, has 128 characters at most, and none of
-- them a control character; normalised again, it is accepted as it is.
pub normalize_name_lem :
    (x : Characters) (given name : Name)
    → normalize_name x given ≡ ok name
    → (trim x.is_whitespace name ≡ name)
      × (is_empty name ≡ false)
      × (length name ≤ 128)
      × (any x.is_control name ≡ false)
      × (normalize_name x name ≡ ok name)
unfolding normalize_name
normalize_name_lem x given name h =
    let trimmed = trim x.is_whitespace given in
    let fails =
      is_empty trimmed
      || (ltb max_namespace_name_chars (length trimmed) || any x.is_control trimmed) in
    elim (Bool-cases fails) [
      | inl bad ↦ absurd (err≢ok (sym (if_true _ _ bad) ∙ h))
      | inr good ↦
          let is : trimmed ≡ name = ok-injective (sym (if_false _ _ good) ∙ h) in
          let (full, short, plain) = name_is_good trimmed x.is_control good in
          let again : trim x.is_whitespace name ≡ name =
            ap (trim x.is_whitespace) (sym is) ∙ trim-again x.is_whitespace given ∙ is in
          (
            again,
            ap is_empty (sym is) ∙ full,
            subst (λ k. length k ≤ 128) is short,
            ap (any x.is_control) (sym is) ∙ plain,
            ap (λ k. normalize x k) (again ∙ sym is) ∙ if_false _ _ good ∙ ap ok is,
          )
    ]

record Created (x : Characters) (given : Name) (id : Uuid) (now : Time) (s t : Tables)
    (n : Namespace) : Type 0 where
  normal : normalize_name x given ≡ ok n.display_name
  fresh : any (λ m. m.id == id) s.namespaces ≡ false
  row : n ≡ record {
    id = id;
    display_name = n.display_name;
    head = none;
    namespace_epoch = 0;
    created_at = now;
    updated_at = now;
  }
  table : t ≡ record s { namespaces = n ∷ s.namespaces }

create_namespace-Created :
    (x : Characters) (given : Name) (id : Uuid) (now : Time) (s t : Tables) (n : Namespace)
    → create_namespace x given id now s ≡ ok (t, n)
    → Created x given id now s t n
unfolding create_namespace read_namespace find_namespace find
create_namespace-Created x given id now s t n h = elim (Result-cases (normalize_name x given)) [
  | inr (e, bad) ↦ absurd (ground arith)
  | inl (name, good) ↦ elim (Bool-cases (any (λ m. m.id == id) s.namespaces)) [
    | inl taken ↦ absurd (ground arith)
    | inr free ↦ ground (arith, ==_refl id)
  ]
]

-- A namespace that is created has the normalised name, no head and epoch 0, and can be read; the other
-- namespaces are as they were, and so are all other tables.
pub create_namespace_lem :
    (x : Characters) (given : Name) (id : Uuid) (now : Time) (s t : Tables) (n : Namespace)
    → create_namespace x given id now s ≡ ok (t, n)
    → (normalize_name x given ≡ ok n.display_name)
      × (find_namespace s id ≡ none)
      × (find_namespace t id ≡ some n)
      × (n.head ≡ none)
      × (n.namespace_epoch ≡ 0)
      × ((j : Uuid) → j ≢ id → find_namespace t j ≡ find_namespace s j)
      × (t ≡ record s { namespaces = t.namespaces })
unfolding find_namespace find
create_namespace_lem x given id now s t n h =
    let c = create_namespace-Created x given id now s t n h in
    let table : t.namespaces ≡ n ∷ s.namespaces = ap (λ (w : Tables). w.namespaces) c.table in
    let has_id : n.id ≡ id = ap (λ (m : Namespace). m.id) c.row in
    (
      c.normal,
      find-none_of_any (λ m. m.id == id) s.namespaces c.fresh,
      ap (find (λ m. m.id == id)) table ∙ if_true _ _ ((eqb_iff n.id id).1 has_id),
      ap (λ (m : Namespace). m.head) c.row,
      ap (λ (m : Namespace). m.namespace_epoch) c.row,
      (λ j other.
          ap (find (λ m. m.id == j)) table
          ∙ if_false _ _ (ne→== n.id j (λ e. other (sym e ∙ has_id)))),
      c.table ∙ ap (λ k. record s { namespaces = k }) (sym table),
    )

abbrev with_name : Name → Time → Namespace → Namespace
with_name name now n = record n { display_name = name; updated_at = now }

find-with_name :
    (id j : Uuid) (name : Name) (now : Time) (rows : List Namespace)
    → find (λ n. n.id == j) (update_where (λ n. n.id == id) (with_name name now) rows) ≡ (
        if id == j
        then map_option (with_name name now) (find (λ n. n.id == j) rows)
        else find (λ n. n.id == j) rows)
unfolding find update_where
find-with_name id j name now [] = ground arith
find-with_name id j name now (n ∷ rows) = ground (arith, find-with_name id j name now rows)

record Renamed (x : Characters) (id : Uuid) (given : Name) (now : Time) (s t : Tables)
    (n m : Namespace) : Type 0 where
  normal : normalize_name x given ≡ ok n.display_name
  there : find_namespace s id ≡ some m
  row : n ≡ with_name n.display_name now m
  table : t ≡ record s {
    namespaces = update_where (λ k. k.id == id) (with_name n.display_name now) s.namespaces;
  }

rename_namespace-Renamed :
    (x : Characters) (id : Uuid) (given : Name) (now : Time) (s t : Tables) (n : Namespace)
    → rename_namespace x id given now s ≡ ok (t, n)
    → (m : Namespace) × Renamed x id given now s t n m
unfolding rename_namespace read_namespace find_namespace
rename_namespace-Renamed x id given now s t n h = elim (Result-cases (normalize_name x given)) [
  | inr (e, bad) ↦ absurd (ground arith)
  | inl (name, good) ↦ elim (Option-cases (find (λ m. m.id == id) s.namespaces)) [
    | inl missing ↦
        absurd (ground (arith, any-false_of_find (λ m. m.id == id) s.namespaces missing))
    | inr (m, found) ↦
        let now_found = find-with_name id id name now s.namespaces in
        (m, ground (arith, ==_refl id))
  ]
]

-- A namespace that is renamed was there; it has the normalised name and the time of the change, and is
-- otherwise as it was, with its head, its epoch and the time of its creation. The other namespaces are as
-- they were, and so are all other tables.
pub rename_namespace_lem :
    (x : Characters) (id : Uuid) (given : Name) (now : Time) (s t : Tables) (n : Namespace)
    → rename_namespace x id given now s ≡ ok (t, n)
    → (m : Namespace) × (find_namespace s id ≡ some m)
      × (normalize_name x given ≡ ok n.display_name)
      × (n ≡ record m { display_name = n.display_name; updated_at = now })
      × (find_namespace t id ≡ some n)
      × ((j : Uuid) → j ≢ id → find_namespace t j ≡ find_namespace s j)
      × (t ≡ record s { namespaces = t.namespaces })
unfolding find_namespace
rename_namespace_lem x id given now s t n h =
    let (m, c) = rename_namespace-Renamed x id given now s t n h in
    let table = ap (λ (w : Tables). w.namespaces) c.table in
    let at = λ (j : Uuid).
      ap (find (λ k. k.id == j)) table ∙ find-with_name id j n.display_name now s.namespaces in
    (
      m,
      c.there,
      c.normal,
      c.row,
      at id
          ∙ if_true _ _ (==_refl id)
          ∙ ap (map_option (with_name n.display_name now)) c.there
          ∙ ap some (sym c.row),
      (λ j other. at j ∙ if_false _ _ (ne→== id j (λ e. other (sym e)))),
      c.table ∙ ap (λ k. record s { namespaces = k }) (sym table),
    )
