-- ===== src/Jobs/Ends.antt =====
-- What the callers of apps/desktop/src-tauri/src/jobs.rs see of a job: when it can be cancelled, and when
-- its result can be taken.
use codex_session_sync.Prelude.{
  ==_refl, ==→eq, Bool, Bool-cases, Option-cases, String, ap, arith, err, false, if_false, if_true,
  inl, inr, is_some, ok, refl, some, subst, sym, true, ◌==◌, ◌∙◌, ◌≡◌, nat_eq, string_eq, option_eq,
}
use codex_session_sync.Jobs.Life.{
  not_completed, not_cancellable, Value, Jobs, is_completed, requested, finished, reported, initial,
  finish, report, JobEntry, start, with_entry, take_result, cancel,
}
use mathlib.Core.Option.{some-injective}
use codex_session_sync.Jobs.Leases.{lookup, put, remove}
use codex_session_sync.Jobs.Registry.{lookup-put, lookup-remove}
use codex_session_sync.Jobs.Settled.{
  is_running, was_asked, is_live, requested-Settles, takes, begin, takes, cancels, finished-Settles,
  finishes, reported-Settles, reports, set_runs, starts, Move, then_move, Settles, AreSettled,
  Leads, Desk, initial-Settles,
}

-- A write under one id keeps what is said of the other ids, where `runs` of them is the same.

put-AreSettled :
    (d : Desk) (id : String) (entry : JobEntry) (runs : String → Bool)
    → Settles entry (runs id)
    → ((j : String) → (id == j) ≡ false → runs j ≡ d.runs j)
    → AreSettled d
    → AreSettled (record { jobs = put id entry d.jobs; runs = runs })
put-AreSettled d id entry runs here others t = record {
  at = λ j e found. elim (Bool-cases (id == j)) [
    | inl same ↦
        let is : entry ≡ e =
          some-injective _ _ (sym (lookup-put id j entry d.jobs ∙ if_true _ _ same) ∙ found) in
        subst (λ e. Settles e (runs j)) is (subst (λ k. Settles entry (runs k)) (==→eq same) here)
    | inr other ↦
        subst (Settles e) (sym (others j other))
          (t.at j e (sym (lookup-put id j entry d.jobs ∙ if_false _ _ other) ∙ found))
  ];
}

with_entry-AreSettled :
    (d : Desk) (id : String) (change : JobEntry → JobEntry) (runs : String → Bool)
    → ((e : JobEntry) → Settles e (d.runs id) → Settles (change e) (runs id))
    → ((j : String) → (id == j) ≡ false → runs j ≡ d.runs j)
    → AreSettled d
    → AreSettled (record { jobs = with_entry id change d.jobs; runs = runs })
unfolding with_entry
with_entry-AreSettled d id change runs here others t = elim (Option-cases (lookup id d.jobs)) [
  | inl missing ↦
      let same_jobs : with_entry id change d.jobs ≡ d.jobs = rw (with_entry, missing) refl in
      subst (λ m. AreSettled (record { jobs = m; runs = runs })) (sym same_jobs)
        (record {
          at = λ j e (found : lookup j d.jobs ≡ some e). elim (Bool-cases (id == j)) [
            | inl same ↦
                absurd (ground (arith, missing, found, ap (λ k. lookup k d.jobs) (==→eq same)))
            | inr other ↦ subst (Settles e) (sym (others j other)) (t.at j e found)
          ];
        })
  | inr (entry, found) ↦
      let written : with_entry id change d.jobs ≡ put id (change entry) d.jobs =
        rw (with_entry, found) refl in
      subst (λ m. AreSettled (record { jobs = m; runs = runs })) (sym written)
        (put-AreSettled d id (change entry) runs (here entry (t.at id entry found)) others t)
]

cancel-AreSettled :
    (d : Desk) (id : String)
    → AreSettled d
    → AreSettled (record { jobs = (cancel id d.jobs).0; runs = d.runs })
unfolding cancel
cancel-AreSettled d id t = elim (Option-cases (lookup id d.jobs)) [
  | inl missing ↦ rw (cancel, missing) t
  | inr (entry, found) ↦ elim (Bool-cases entry.snapshot.cancellable) [
    | inl can ↦
        simp (cancel, found, can)
          (put-AreSettled d id (requested entry) d.runs
            (requested-Settles entry (d.runs id) (t.at id entry found) can) (λ j other. refl) t)
    | inr closed ↦ rw (cancel, found, closed) t
  ]
]

remaining :
    (id j : String) (e : JobEntry) (jobs : Jobs)
    → lookup j (remove id jobs) ≡ some e
    → lookup j jobs ≡ some e
remaining id j e jobs h = let found = sym (lookup-remove id j jobs) ∙ h in ground arith

take_result-AreSettled :
    (d : Desk) (id : String)
    → AreSettled d
    → AreSettled (record { jobs = (take_result id d.jobs).0; runs = d.runs })
unfolding take_result
take_result-AreSettled d id t = elim (Option-cases (lookup id d.jobs)) [
  | inl missing ↦ rw (take_result, missing) t
  | inr (entry, found) ↦ elim (Bool-cases (is_completed entry.snapshot.state)) [
    | inl over ↦
        rw (take_result, found, over)
          (record { at = λ j e h. t.at j e (remaining id j e d.jobs h) })
    | inr still ↦ rw (take_result, found, still) t
  ]
]

Move-AreSettled : {c d : Desk} → Move c d → AreSettled c → AreSettled d
unfolding start report finish
Move-AreSettled (starts d id kind cancellable new idle) t =
    put-AreSettled d id (initial id kind cancellable) (set_runs id true d.runs)
      (subst (Settles (initial id kind cancellable)) (sym (if_true _ _ (==_refl id)))
        (initial-Settles id kind cancellable))
      (λ j other. if_false _ _ other) t
Move-AreSettled (reports d id progress busy) t =
    with_entry-AreSettled d id (reported progress) d.runs
      (λ e h.
        subst (Settles (reported progress e)) (sym busy)
          (reported-Settles progress e (subst (Settles e) busy h)))
      (λ j other. refl) t
Move-AreSettled (finishes d id outcome busy) t =
    with_entry-AreSettled d id (finished outcome) (set_runs id false d.runs)
      (λ e h.
        subst (Settles (finished outcome e)) (sym (if_true _ _ (==_refl id)))
          (finished-Settles outcome e (subst (Settles e) busy h)))
      (λ j other. if_false _ _ other) t
Move-AreSettled (cancels d id) t = cancel-AreSettled d id t
Move-AreSettled (takes d id) t = take_result-AreSettled d id t

Leads-AreSettled : {d : Desk} → Leads d → AreSettled d
unfolding lookup
Leads-AreSettled begin = record { at = λ id e h. ground arith }
Leads-AreSettled (then_move l m) = Move-AreSettled m (Leads-AreSettled l)

-- Of a job that is in the table, at any moment: a request to cancel is refused once the operation has
-- ended; the state is `cancelling` or `cancelled` only where a request was accepted, and after an accepted
-- request it is no longer `running`; and a job that ended without a value has an error.
pub cancel-refused_at_end :
    (d : Desk) (id : String) (e : JobEntry)
    → Leads d
    → lookup id d.jobs ≡ some e
    → (d.runs id ≡ false → cancel id d.jobs ≡ (d.jobs, err not_cancellable))
      × (was_asked e.snapshot.state ≡ true → e.cancel ≡ true)
      × (e.cancel ≡ true → is_running e.snapshot.state ≡ false)
      × (d.runs id ≡ false → is_some e.result ≡ false → is_some e.snapshot.error ≡ true)
unfolding cancel is_live was_asked is_running is_completed
cancel-refused_at_end d id e l found =
    let t = (Leads-AreSettled l).at id e found in
    (
      (λ over. simp (cancel, found, t.closed over) refl),
      t.asked,
      t.unasked,
      λ over no_value. ground (arith, t.live, t.value, t.reason),
    )

completed-ended :
    (e : JobEntry) (runs : Bool) → Settles e runs → e.snapshot.result_ready ≡ true → runs ≡ false
unfolding is_live is_completed
completed-ended e runs t h = ground (arith, t.live, t.ready)

-- Of a job that is in the table, at any moment: where its snapshot says that a result is ready, the
-- operation has ended, `take_result` gives the value and removes the job; where it does not,
-- `take_result` says that the job is not completed and changes nothing. No third answer is given.
pub take_result-result_ready :
    (d : Desk) (id : String) (e : JobEntry)
    → Leads d
    → lookup id d.jobs ≡ some e
    → (e.snapshot.result_ready ≡ true
        → (d.runs id ≡ false)
          × ((v : Value) × (e.result ≡ some v)
              × (take_result id d.jobs ≡ (remove id d.jobs, ok v))))
      × (e.snapshot.result_ready ≡ false → take_result id d.jobs ≡ (d.jobs, err not_completed))
unfolding take_result
take_result-result_ready d id e l found =
    let t = (Leads-AreSettled l).at id e found in
    (
      (λ ready. elim (Option-cases e.result) [
        | inl nothing ↦ absurd (ground (arith, t.value, t.ready))
        | inr (v, is) ↦ (
          completed-ended e (d.runs id) t ready,
          (v, is, simp (take_result, found, sym t.ready ∙ ready, is) refl),
        )
      ]),
      λ unready. simp (take_result, found, sym t.ready ∙ unready) refl,
    )
