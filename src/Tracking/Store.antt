-- ===== src/Tracking/Store.antt =====
-- The operations of `TrackingStore`, crates/sync-core/src/sync.rs. An operation that succeeds gives the
-- database it leaves beside its result.
use codex_session_sync.Prelude.{
  Bool, Option, Result, String, eqb, err, false, if◌then◌else◌, ltb, none, not, ok, ok_or, some, ℕ,
  ◌&&◌, ◌+◌, ◌-◌, ◌==◌, ◌>>=◌, ◌>>◌, ◌^◌, nat_eq, string_eq, option_eq,
}
use Prim.Native.Nat.{◌%◌}
use codex_session_sync.Protocol.Sha256.{validate_sha256}
use codex_session_sync.Tracking.Rows.{
  select_tracking, select_active, upsert_active, upsert_tracking, ActiveNamespaceBinding,
  TrackingRecord, Place, TrackingDatabase,
}

pub data TrackingError : Type 0 where
  invalid_head : String → TrackingError
  changed_concurrently : Option ℕ → Option ℕ → TrackingError
  generation_out_of_range generation_overflow not_active epoch_conflict disappeared : TrackingError

abbrev pub Answer : Type 0 → Type 0
Answer A = Result TrackingError A

abbrev pub u64_mod : ℕ
u64_mod = 2 ^ 64

abbrev pub i64_max : ℕ
i64_max = 2 ^ 63 - 1

unfoldable pub load : Place → TrackingDatabase → Option TrackingRecord
load p db = select_tracking p db.namespace_tracking

unfoldable pub check_head : Option String → Answer (Unit {0})
check_head none = ok tt
check_head (some head) = if validate_sha256 head then ok tt else err (invalid_head head)

abbrev pub generation_of : Option TrackingRecord → Option ℕ
generation_of none = none
generation_of (some r) = some r.generation

abbrev pub epoch_of : Option TrackingRecord → ℕ
epoch_of none = 0
epoch_of (some r) = r.remote_epoch

abbrev pub or_zero : Option ℕ → ℕ
or_zero none = 0
or_zero (some n) = n

abbrev pub record_at : Place → Option String → ℕ → ℕ → String → TrackingRecord
record_at p head epoch generation now = record {
  remote_id = p.remote;
  namespace_id = p.namespace;
  codex_home_key = p.home;
  integrated_head = head;
  remote_epoch = epoch;
  generation = generation;
  updated_at = now;
}

abbrev pub with_record : TrackingRecord → TrackingDatabase → TrackingDatabase
with_record r db = record db { namespace_tracking = upsert_tracking r db.namespace_tracking }

-- The generation is added to as an i64 of the release build, which wraps.
unfoldable pub compare_and_set :
    Place
    → Option ℕ
    → Option String
    → String
    → TrackingDatabase
    → Answer (TrackingDatabase × TrackingRecord)
compare_and_set p expected head now db =
    check_head head
    >> (let current = load p db in
        if generation_of current == expected
        then (let new =
              record_at p head (epoch_of current) ((or_zero (generation_of current) + 1) % u64_mod)
                now in
            ok (with_record new db, new))
        else err (changed_concurrently expected (generation_of current)))

abbrev pub active_at : Place → String → ActiveNamespaceBinding
active_at p now = record {
  remote_id = p.remote;
  namespace_id = p.namespace;
  codex_home_key = p.home;
  updated_at = now;
}

abbrev pub with_active : ActiveNamespaceBinding → TrackingDatabase → TrackingDatabase
with_active b db = record db { active_namespace = upsert_active b db.active_namespace }

unfoldable pub names : Place → Option ActiveNamespaceBinding → Bool
names p none = false
names p (some b) = eqb b.remote_id p.remote && eqb b.namespace_id p.namespace

unfoldable pub already_applied : ℕ → Option String → Option TrackingRecord → Bool
already_applied next head none = false
already_applied next head (some r) = eqb r.generation next && r.integrated_head == head

-- `expected.unwrap_or(0).checked_add(1)` after `i64::try_from`
unfoldable pub next_generation : Option ℕ → Answer ℕ
next_generation none = ok 1
next_generation (some g) =
    if ltb i64_max g
    then err generation_out_of_range
    else if eqb g i64_max
    then err generation_overflow
    else ok (g + 1)

unfoldable pub reconcile_at :
    Place
    → Option ℕ
    → Option String
    → Bool
    → String
    → ℕ
    → TrackingDatabase
    → Answer (TrackingDatabase × TrackingRecord)
reconcile_at p expected head activate now next db =
    let current = load p db in
    if already_applied next head current
    then (if activate && not (names p (select_active p.home db.active_namespace))
        then err not_active
        else ok_or current disappeared >>= λ r. ok (db, r))
    else if generation_of current == expected
    then (let new = record_at p head (epoch_of current) next now in
        let written = with_record new db in
        ok ((if activate then with_active (active_at p now) written else written), new))
    else err (changed_concurrently expected (generation_of current))

unfoldable pub reconcile_checkout :
    Place
    → Option ℕ
    → Option String
    → Bool
    → String
    → TrackingDatabase
    → Answer (TrackingDatabase × TrackingRecord)
reconcile_checkout p expected head activate now db =
    check_head head
    >> (next_generation expected >>= λ next. reconcile_at p expected head activate now next db)

-- The UPDATE and the `load` are two transactions of their own; no other writer is modelled between them.
unfoldable pub update_remote_epoch :
    Place → ℕ → ℕ → String → TrackingDatabase → Answer (TrackingDatabase × TrackingRecord)
update_remote_epoch p expected epoch now db = elim (load p db) [
  | none ↦ err epoch_conflict
  | some r ↦
      if eqb r.generation expected
      then (let written = with_record (record r { remote_epoch = epoch; updated_at = now }) db in
          ok_or (load p written) disappeared >>= λ s. ok (written, s))
      else err epoch_conflict
]

unfoldable pub active : String → TrackingDatabase → Option ActiveNamespaceBinding
active home db = select_active home db.active_namespace

unfoldable pub set_active :
    Place → String → TrackingDatabase → TrackingDatabase × ActiveNamespaceBinding
set_active p now db = (with_active (active_at p now) db, active_at p now)
