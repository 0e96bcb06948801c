-- ===== src/Metadata/Plan.antt =====
-- What `build_gc_plan` of apps/sync-server/src/metadata.rs proposes.
use codex_session_sync.Prelude.{
  ==_refl, >>=-eq-ok, All, Bool-cases, List, [], and_intro, any, ap, arith, contains, false,
  if-of_false, if-of_true, if_rule, inl, inr, leb, ltb, ltb→lt, not, not-false, ok, ok-injective,
  or_false, or_left, or_right, refl, subst, true, ℕ, ◌&&◌, ◌+◌, ◌<◌, ◌==◌, ◌||◌, ◌∙◌, ◌∷◌, ◌≡◌,
  nat_eq, string_eq, option_eq,
}
use codex_session_sync.Metadata.Gc.{
  ref_before, ServerGcPlan, insert_ref, build_gc_plan, sort_refs, gc_candidates, grace,
}
use codex_session_sync.Metadata.Tables.{
  M, u64_mod, Hash, Time, Tables, Key, StorageObject, StorageObjectRef,
}
use codex_session_sync.Metadata.Reachability.{key_eq, key_of, reachable_objects}

abbrev pub sum_lengths : List StorageObjectRef → ℕ
sum_lengths [] = 0
sum_lengths (c ∷ cs) = c.byte_length + sum_lengths cs

-- The object is stored with that length, out of its grace period, and unreachable.
abbrev pub IsGarbage : List Key → Time → List StorageObject → StorageObjectRef → Type 0
IsGarbage reachable now objects c =
    (contains reachable (key_of c) ≡ false)
    × (any
          (λ o.
            o.key == key_of c && (o.byte_length == c.byte_length && leb (o.created_at + grace) now))
          objects
        ≡ true)

IsGarbage-cons :
    (reachable : List Key) (now : Time) (o : StorageObject) (os : List StorageObject)
    (cs : List StorageObjectRef)
    → All (IsGarbage reachable now os) cs
    → All (IsGarbage reachable now (o ∷ os)) cs
unfolding any
IsGarbage-cons reachable now o os [] h = tt
IsGarbage-cons reachable now o os (c ∷ cs) h =
    ((h.0.0, or_right _ _ h.0.1), IsGarbage-cons reachable now o os cs h.1)

record Found (reachable : List Key) (now : Time) (bytes : ℕ) (os : List StorageObject)
    (cs : List StorageObjectRef) (total : ℕ) : Type 0 where
  garbage : All (IsGarbage reachable now os) cs
  bytes_add_up : total ≡ bytes + sum_lengths cs
  bounded : bytes < u64_mod → total < u64_mod

taken_lem :
    (reachable : List Key) (now : Time) (bytes : ℕ) (o : StorageObject) (os : List StorageObject)
    (cs : List StorageObjectRef) (total : ℕ) (found : List StorageObjectRef × ℕ)
    → Found reachable now (bytes + o.byte_length) os found.0 found.1
    → ◌≡◌ {A = M (List StorageObjectRef × ℕ)}
        (ok (
          record { kind = o.key.kind; sha256 = o.key.sha256; byte_length = o.byte_length }
              ∷ found.0,
          found.1,
        ))
        (ok (cs, total))
    → (not (leb (o.created_at + grace) now) || contains reachable o.key) ≡ false
    → ltb (bytes + o.byte_length) u64_mod ≡ true
    → Found reachable now bytes (o ∷ os) cs total
unfolding any
taken_lem reachable now bytes o os cs total found f e kept small =
    let c : StorageObjectRef = record {
      kind = o.key.kind;
      sha256 = o.key.sha256;
      byte_length = o.byte_length;
    } in
    let both : ◌≡◌ {A = List StorageObjectRef × ℕ} (c ∷ found.0, found.1) (cs, total) =
      ok-injective e in
    let (early, unreachable) = or_false (not (leb (o.created_at + grace) now)) _ kept in
    let all : All (IsGarbage reachable now (o ∷ os)) (c ∷ found.0) = (
      (
        unreachable,
        or_left _ _ (
            and_intro _ _ (==_refl o.key)
              (and_intro _ _ (==_refl o.byte_length) (not-false _ early))),
      ),
      IsGarbage-cons reachable now o os found.0 f.garbage,
    ) in
    record {
      garbage =
          subst (λ (w : List StorageObjectRef × ℕ). All (IsGarbage reachable now (o ∷ os)) w.0) both
            all;
      bytes_add_up =
          subst (λ (w : List StorageObjectRef × ℕ). w.1 ≡ bytes + sum_lengths w.0) both
            (omega (arith, f.bytes_add_up));
      bounded =
          subst (λ (w : List StorageObjectRef × ℕ). bytes < u64_mod → w.1 < u64_mod) both
            (λ _. f.bounded (ltb→lt _ _ small));
    }

gc_candidates-Found :
    (reachable : List Key) (now : Time) (bytes : ℕ) (os : List StorageObject)
    (cs : List StorageObjectRef) (total : ℕ)
    → gc_candidates reachable now bytes os ≡ ok (cs, total)
    → Found reachable now bytes os cs total
unfolding gc_candidates any
gc_candidates-Found reachable now bytes [] cs total h =
    let none_found : ([] ≡ cs) × (bytes ≡ total) = ground arith in
    record {
      garbage = subst (All (IsGarbage reachable now [])) none_found.0 tt;
      bytes_add_up = subst (λ w. total ≡ bytes + sum_lengths w) none_found.0 (omega arith);
      bounded = λ b. omega arith;
    }
gc_candidates-Found reachable now bytes (o ∷ os) cs total h =
    let skip = not (leb (o.created_at + grace) now) || contains reachable o.key in
    let fits = ltb (bytes + o.byte_length) u64_mod in
    elim (Bool-cases skip) [
      | inl y ↦
          let f = gc_candidates-Found reachable now bytes os cs total (if-of_true skip _ _ _ h y) in
          record {
            garbage = IsGarbage-cons reachable now o os cs f.garbage;
            bytes_add_up = f.bytes_add_up;
            bounded = f.bounded;
          }
      | inr n ↦ elim (Bool-cases fits) [
        | inr large ↦ cc (if-of_false fits _ _ _ (if-of_false skip _ _ _ h n) large)
        | inl small ↦
            let (found, p, q) =
              >>=-eq-ok (gc_candidates reachable now (bytes + o.byte_length) os) _
                (if-of_true fits _ _ _ (if-of_false skip _ _ _ h n) small) in
            taken_lem reachable now bytes o os cs total found
              (gc_candidates-Found reachable now (bytes + o.byte_length) os found.0 found.1 p) q n
              small
      ]
    ]

module _ (P : StorageObjectRef → Type 0) where
  All-insert_ref :
      (a : StorageObjectRef) (cs : List StorageObjectRef) → P a → All P cs → All P (insert_ref a cs)
  unfolding insert_ref
  All-insert_ref a [] p h = (p, tt)
  All-insert_ref a (c ∷ cs) p h =
      if_rule (All P) (ref_before a c) (a ∷ c ∷ cs) (c ∷ insert_ref a cs) (λ _. (p, h))
        (λ _. (h.0, All-insert_ref a cs p h.1))

  All-sort_refs : (cs : List StorageObjectRef) → All P cs → All P (sort_refs cs)
  unfolding sort_refs
  All-sort_refs [] h = tt
  All-sort_refs (c ∷ cs) h = All-insert_ref c (sort_refs cs) h.0 (All-sort_refs cs h.1)

sum_lengths-insert_ref :
    (a : StorageObjectRef) (cs : List StorageObjectRef)
    → sum_lengths (insert_ref a cs) ≡ a.byte_length + sum_lengths cs
unfolding insert_ref
sum_lengths-insert_ref a [] = refl
sum_lengths-insert_ref a (c ∷ cs) =
    if_rule (λ w. sum_lengths w ≡ a.byte_length + sum_lengths (c ∷ cs)) (ref_before a c)
      (a ∷ c ∷ cs) (c ∷ insert_ref a cs) (λ _. refl)
      (λ _. omega (arith, sum_lengths-insert_ref a cs))

sum_lengths-sort_refs : (cs : List StorageObjectRef) → sum_lengths (sort_refs cs) ≡ sum_lengths cs
unfolding sort_refs
sum_lengths-sort_refs [] = refl
sum_lengths-sort_refs (c ∷ cs) =
    sum_lengths-insert_ref c (sort_refs cs) ∙ ap (λ n. c.byte_length + n) (sum_lengths-sort_refs cs)

-- Every candidate of a plan is an object that is stored with the length that the plan says, is an hour
-- old or more, and cannot be reached; and the reclaimable bytes are the sum of the candidates' lengths,
-- which a u64 holds.
pub build_gc_plan-IsGarbage :
    (digest : List StorageObjectRef → Hash) (now : Time) (s : Tables) (plan : ServerGcPlan)
    → build_gc_plan digest now s ≡ ok plan
    → All (IsGarbage (reachable_objects s now) now s.objects) plan.candidates
      × (plan.reclaimable_bytes ≡ sum_lengths plan.candidates)
      × (plan.reclaimable_bytes < u64_mod)
unfolding build_gc_plan
build_gc_plan-IsGarbage digest now s plan h =
    let (found, p, q) = >>=-eq-ok (gc_candidates (reachable_objects s now) now 0 s.objects) _ h in
    let f = gc_candidates-Found (reachable_objects s now) now 0 s.objects found.0 found.1 p in
    let same = ok-injective q in
    (
      subst
          (λ (w : ServerGcPlan).
            All (IsGarbage (reachable_objects s now) now s.objects) w.candidates)
          same
          (All-sort_refs (IsGarbage (reachable_objects s now) now s.objects) found.0 f.garbage),
      subst (λ (w : ServerGcPlan). w.reclaimable_bytes ≡ sum_lengths w.candidates) same
          (omega (arith, f.bytes_add_up, sum_lengths-sort_refs found.0)),
      subst (λ (w : ServerGcPlan). w.reclaimable_bytes < u64_mod) same (f.bounded (omega arith)),
    )
