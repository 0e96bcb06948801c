-- ===== src/Jobs/Exclusion.antt =====
-- Repository leases as the threads of apps/desktop/src-tauri/src/jobs.rs take and drop them, in any
-- interleaving: a lease that excludes others is alone.
use codex_session_sync.Prelude.{
  Option, String, arith, none, refl, some, sym, ℕ, ◌++◌, ◌+◌, ◌<◌, ◌↔◌, ◌≡◌, nat_eq, string_eq,
  option_eq,
}
use codex_session_sync.Jobs.Registry.{exclusive-middle, shared-middle, exclusive, shared, Tally}
use codex_session_sync.Jobs.Leases.{or_default, lookup, RepositoryLeaseState}
use codex_session_sync.Jobs.Worlds.{
  IsTallied, Reach, Step, World, acquire, refuse, release, at_start, next,
}
use codex_session_sync.Jobs.Tallies.{
  release-Tally, held-entry, refuse-lookup, Tally-cast, try_acquire_repository-Acquired,
  acquire-Tally,
}

Step-IsTallied : {v w : World} → Step v w → IsTallied v → IsTallied w
unfolding shared exclusive
Step-IsTallied (acquire v key excl m l e) t = record {
  at = λ k.
      acquire-Tally v.manager m key excl l k (shared k v.held) (exclusive k v.held)
        (try_acquire_repository-Acquired v.manager m key excl l e) (t.at k);
}
Step-IsTallied (refuse v key excl m x e) t = record {
  at = λ k. Tally-cast (t.at k) (sym (refuse-lookup v.manager m key excl x k e)) refl refl;
}
Step-IsTallied (release m before after l) t = record {
  at = λ k.
      let split = λ (j : String).
        Tally-cast (t.at j) refl (shared-middle j before after l)
          (exclusive-middle j before after l) in
      let (state, found) =
        held-entry (lookup l.key m.repositories) l.key l.exclusive (shared l.key (before ++ after))
          (exclusive l.key (before ++ after)) (split l.key) in
      release-Tally m l k (shared k (before ++ after)) (exclusive k (before ++ after)) state found
        (split k);
}

Reach-IsTallied : {w : World} → Reach w → IsTallied w
unfolding shared exclusive lookup
Reach-IsTallied at_start = record {
  at = λ k. record {
    readers_match = refl;
    writer_matches = refl;
    apart = λ p. refl;
    live = λ s e. ground arith;
  };
}
Reach-IsTallied (next r s) = Step-IsTallied s (Reach-IsTallied r)

Tally-alone :
    (entry : Option RepositoryLeaseState) (r x : ℕ)
    → Tally entry r x
    → (0 < x → (x ≡ 1) × (r ≡ 0)) × ((entry ≡ none) ↔ (r + x ≡ 0))
Tally-alone none r x t = (
  (λ h. absurd (ground (arith, t.writer_matches))),
  ((λ e. ground (arith, t.writer_matches, t.readers_match)), λ e. refl),
)
Tally-alone (some state) r x t = (
  (λ h. (ground (arith, t.writer_matches), t.apart h)),
  (
    (λ e. absurd (ground arith)),
    λ e. absurd (ground (arith, t.live state refl, t.writer_matches, t.readers_match)),
  ),
)

-- Whatever threads take and drop repository leases, in any order, refused calls included: a repository
-- with an exclusive lease has that one lease and no shared one, the registry has an entry for a
-- repository exactly when some lease of it is held, and the entry counts its shared leases.
pub leases-AreExclusive :
    (w : World) (k : String)
    → Reach w
    → (0 < exclusive k w.held → (exclusive k w.held ≡ 1) × (shared k w.held ≡ 0))
      × ((lookup k w.manager.repositories ≡ none) ↔ (shared k w.held + exclusive k w.held ≡ 0))
      × ((or_default (lookup k w.manager.repositories)).readers ≡ shared k w.held)
leases-AreExclusive w k r =
    let t = (Reach-IsTallied r).at k in
    let (alone, entry) =
      Tally-alone (lookup k w.manager.repositories) (shared k w.held) (exclusive k w.held) t in
    (alone, entry, t.readers_match)
