-- ===== src/Jobs/Tallies.antt =====
-- What a call of apps/desktop/src-tauri/src/jobs.rs does to the entry of a repository, next to the count
-- of the leases that are held.
use codex_session_sync.Prelude.{
  ==_refl, ==→eq, Bool, Bool-cases, Option, Option-cases, String, ap, arith, eqb, err, false,
  if_false, if_true, if◌then◌else◌, inl, inr, none, not, ok, refl, some, subst, suc, sym, true,
  zero, ℕ, ◌&&◌, ◌+◌, ◌==◌, ◌∙◌, ◌≡◌, nat_eq, string_eq, option_eq,
}
use codex_session_sync.Jobs.Registry.{lookup-remove, lookup-put, bit, Tally}
use codex_session_sync.Jobs.Leases.{
  dropped, put, or_default, lookup, drop_repository, try_acquire_repository, JobManager,
  RepositoryLease, LeaseError, RepositoryLeaseState,
}

abbrev pub taken : Bool → RepositoryLeaseState → RepositoryLeaseState
taken excl state =
    if excl then record state { writer = true } else record state { readers = state.readers + 1 }

-- What a call that gave a lease found and wrote.
pub record Acquired (s m : JobManager) (key : String) (excl : Bool) (l : RepositoryLease)
    : Type 0 where
  pub is_lease : l ≡ record { key = key; exclusive = excl }
  pub no_writer : (or_default (lookup key s.repositories)).writer ≡ false
  pub no_reader : excl ≡ true → (or_default (lookup key s.repositories)).readers ≡ 0
  pub written :
      m.repositories ≡ put key (taken excl (or_default (lookup key s.repositories))) s.repositories

pub try_acquire_repository-Acquired :
    (s m : JobManager) (key : String) (excl : Bool) (l : RepositoryLease)
    → try_acquire_repository key excl s ≡ (m, ok l)
    → Acquired s m key excl l
unfolding try_acquire_repository
try_acquire_repository-Acquired s m key excl l h = ground arith

Tally-taken :
    (entry : Option RepositoryLeaseState) (excl : Bool) (r x : ℕ)
    → Tally entry r x
    → (or_default entry).writer ≡ false
    → (excl ≡ true → (or_default entry).readers ≡ 0)
    → Tally (some (taken excl (or_default entry))) (bit (not excl) + r) (bit excl + x)
Tally-taken entry true r x t w z = record {
  readers_match = ground (arith, t.readers_match);
  writer_matches = ground (arith, t.writer_matches);
  apart = λ _. ground (arith, t.readers_match, z refl);
  live = λ state e. ground arith;
}
Tally-taken entry false r x t w z = record {
  readers_match = ground (arith, t.readers_match);
  writer_matches = ground (arith, t.writer_matches);
  apart = λ p. ground (arith, t.writer_matches);
  live = λ state e. ground arith;
}

-- A refused call found an entry, and wrote it back.
pub try_acquire_repository_refused :
    (s m : JobManager) (key : String) (excl : Bool) (e : LeaseError)
    → try_acquire_repository key excl s ≡ (m, err e)
    → (state : RepositoryLeaseState) × (lookup key s.repositories ≡ some state)
      × (m.repositories ≡ put key state s.repositories)
unfolding try_acquire_repository
try_acquire_repository_refused s m key excl e h = elim (Option-cases (lookup key s.repositories)) [
  | inl q ↦ absurd (ground arith)
  | inr (state, q) ↦ (state, q, ground arith)
]

pub refuse-lookup :
    (s m : JobManager) (key : String) (excl : Bool) (e : LeaseError) (k : String)
    → try_acquire_repository key excl s ≡ (m, err e)
    → lookup k m.repositories ≡ lookup k s.repositories
refuse-lookup s m key excl e k h =
    let (state, found, written) = try_acquire_repository_refused s m key excl e h in
    ap (lookup k) written ∙ lookup-put key k state s.repositories ∙ elim (Bool-cases (key == k)) [
      | inl same ↦ rw same (sym found ∙ ap (λ j. lookup j s.repositories) (==→eq same))
      | inr other ↦ rw other refl
    ]

-- What a dropped lease leaves of an entry.
abbrev left : Bool → RepositoryLeaseState → Option RepositoryLeaseState
left excl state =
    let after = dropped excl state in
    if not after.writer && eqb after.readers 0 then none else some after

-- A shared lease has no writer beside it.
Tally-shared :
    (state : RepositoryLeaseState) (r x : ℕ)
    → Tally (some state) (bit (not false) + r) (bit false + x)
    → x ≡ 0
Tally-shared state r zero t = refl
Tally-shared state r (suc x) t = absurd (omega (arith, t.apart (omega arith)))

Tally-left :
    (state : RepositoryLeaseState) (excl : Bool) (r x : ℕ)
    → Tally (some state) (bit (not excl) + r) (bit excl + x)
    → Tally (left excl state) r x
Tally-left state true r x t =
    let alone : 0 + r ≡ 0 = t.apart (omega arith) in
    record {
      readers_match = ground (arith, t.readers_match);
      writer_matches = ground (arith, t.writer_matches, t.readers_match);
      apart = λ _. omega arith;
      live = λ s e. ground (arith, t.readers_match);
    }
Tally-left state false r x t =
    let no_writer : x ≡ 0 = Tally-shared state r x t in
    record {
      readers_match = ground (arith, t.readers_match, t.writer_matches);
      writer_matches = ground (arith, t.writer_matches, t.readers_match);
      apart = λ p. absurd (omega arith);
      live = λ s e. ground (arith, t.readers_match);
    }

-- What `lookup` finds after a lease is dropped.
drop_repository-lookup :
    (s : JobManager) (l : RepositoryLease) (k : String) (state : RepositoryLeaseState)
    → lookup l.key s.repositories ≡ some state
    → lookup k (drop_repository l s).repositories
      ≡ (if l.key == k then left l.exclusive state else lookup k s.repositories)
unfolding drop_repository
drop_repository-lookup s l k state found =
    let after = dropped l.exclusive state in
    let gone = lookup-remove l.key k s.repositories in
    let kept = lookup-put l.key k after s.repositories in ground arith

pub Tally-cast :
    {e f : Option RepositoryLeaseState} {r q x y : ℕ}
    → Tally e r x
    → e ≡ f
    → r ≡ q
    → x ≡ y
    → Tally f q y
Tally-cast {e} {f} {r} {q} {x} {y} t p h k =
    subst (λ y. Tally f q y) k (subst (λ q. Tally f q x) h (subst (λ f. Tally f r x) p t))

pub release-Tally :
    (s : JobManager) (l : RepositoryLease) (k : String) (r x : ℕ) (state : RepositoryLeaseState)
    → lookup l.key s.repositories ≡ some state
    → Tally
        (lookup k s.repositories)
        (bit (l.key == k && not l.exclusive) + r)
        (bit (l.key == k && l.exclusive) + x)
    → Tally (lookup k (drop_repository l s).repositories) r x
release-Tally s l k r x state found t = elim (Bool-cases (l.key == k)) [
  | inl same ↦
      let held : Tally (some state) (bit (not l.exclusive) + r) (bit l.exclusive + x) =
        Tally-cast t (ap (λ j. lookup j s.repositories) (sym (==→eq same)) ∙ found)
          (ap (λ b. bit (b && not l.exclusive) + r) same)
          (ap (λ b. bit (b && l.exclusive) + x) same) in
      Tally-cast (Tally-left state l.exclusive r x held)
        (sym (drop_repository-lookup s l k state found ∙ if_true _ _ same)) refl refl
  | inr other ↦
      Tally-cast t (sym (drop_repository-lookup s l k state found ∙ if_false _ _ other))
        (ground arith) (ground arith)
]

-- A lease that is held has an entry.
pub held-entry :
    (entry : Option RepositoryLeaseState) (key : String) (excl : Bool) (r x : ℕ)
    → Tally entry (bit (key == key && not excl) + r) (bit (key == key && excl) + x)
    → (state : RepositoryLeaseState) × (entry ≡ some state)
held-entry none key true r x t = absurd (ground (arith, t.writer_matches, ==_refl key))
held-entry none key false r x t = absurd (ground (arith, t.readers_match, ==_refl key))
held-entry (some state) key excl r x t = (state, refl)

pub acquire-Tally :
    (s m : JobManager) (key : String) (excl : Bool) (l : RepositoryLease) (k : String) (r x : ℕ)
    → Acquired s m key excl l
    → Tally (lookup k s.repositories) r x
    → Tally
        (lookup k m.repositories)
        (bit (l.key == k && not l.exclusive) + r)
        (bit (l.key == k && l.exclusive) + x)
acquire-Tally s m key excl l k r x a t =
    let entry : lookup k m.repositories ≡ (
        if key == k
        then some (taken excl (or_default (lookup key s.repositories)))
        else lookup k s.repositories) =
      ap (lookup k) a.written
      ∙ lookup-put key k (taken excl (or_default (lookup key s.repositories))) s.repositories in
    elim (Bool-cases (key == k)) [
      | inl same ↦
          let here = ap (λ j. lookup j s.repositories) (sym (==→eq same)) in
          Tally-cast
            (Tally-taken (lookup key s.repositories) excl r x (Tally-cast t here refl refl)
              a.no_writer a.no_reader)
            (sym (entry ∙ if_true _ _ same)) (ground (arith, a.is_lease))
            (ground (arith, a.is_lease))
      | inr other ↦
          Tally-cast t (sym (entry ∙ if_false _ _ other)) (ground (arith, a.is_lease))
            (ground (arith, a.is_lease))
    ]
