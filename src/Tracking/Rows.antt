-- ===== src/Tracking/Rows.antt =====
-- The tables of the tracking database of crates/sync-core/src/sync.rs, and the statements on them. An i64
-- column is kept as its two's complement, a number below 2 ^ 64, which is what `as u64` reads.
-- A UUID is its 128-bit number: the code writes and reads its one text.
use codex_session_sync.Prelude.{
  Bool, Eq, List, Option, String, [], arith, eq_iff, eqb, if◌then◌else◌, none, refl, some, true, ℕ,
  ◌&&◌, ◌==◌, ◌↔◌, ◌∷◌, ◌≡◌, nat_eq, string_eq, option_eq,
}

pub record TrackingRecord : Type 0 where
  pub remote_id : ℕ
  pub namespace_id : ℕ
  pub codex_home_key : String
  pub integrated_head : Option String
  pub remote_epoch : ℕ
  pub generation : ℕ
  pub updated_at : String

pub record ActiveNamespaceBinding : Type 0 where
  pub remote_id : ℕ
  pub namespace_id : ℕ
  pub codex_home_key : String
  pub updated_at : String

pub record TrackingDatabase : Type 0 where
  pub namespace_tracking : List TrackingRecord
  pub active_namespace : List ActiveNamespaceBinding

-- PRIMARY KEY(codex_home_key, remote_id, namespace_id)
pub record Place : Type 0 where
  pub home : String
  pub remote : ℕ
  pub namespace : ℕ

unfoldable pub place_of : TrackingRecord → Place
place_of r = record { home = r.codex_home_key; remote = r.remote_id; namespace = r.namespace_id }

abbrev pub place_beq : Place → Place → Bool
place_beq a b = a.home == b.home && (eqb a.remote b.remote && eqb a.namespace b.namespace)

pub place_beq_iff : (a b : Place) → (place_beq a b ≡ true) ↔ (a ≡ b)
place_beq_iff a b =
    ((λ h. ground (arith, eq_iff a.home b.home)), (λ h. ground (arith, eq_iff a.home b.home)))

instance abbrev pub place_eq : Eq Place
place_eq = record { beq = place_beq; beq_iff = place_beq_iff }

-- `WHERE codex_home_key = ?1 AND remote_id = ?2 AND namespace_id = ?3`
unfoldable pub select_tracking : Place → List TrackingRecord → Option TrackingRecord
select_tracking p [] = none
select_tracking p (r ∷ rs) = if place_of r == p then some r else select_tracking p rs

-- `INSERT INTO namespace_tracking … ON CONFLICT … DO UPDATE SET …`
unfoldable pub upsert_tracking : TrackingRecord → List TrackingRecord → List TrackingRecord
upsert_tracking new [] = new ∷ []
upsert_tracking new (r ∷ rs) =
    if place_of r == place_of new then new ∷ rs else r ∷ upsert_tracking new rs

unfoldable pub select_active : String → List ActiveNamespaceBinding → Option ActiveNamespaceBinding
select_active home [] = none
select_active home (b ∷ bs) = if b.codex_home_key == home then some b else select_active home bs

unfoldable pub upsert_active :
    ActiveNamespaceBinding → List ActiveNamespaceBinding → List ActiveNamespaceBinding
upsert_active new [] = new ∷ []
upsert_active new (b ∷ bs) =
    if b.codex_home_key == new.codex_home_key then new ∷ bs else b ∷ upsert_active new bs

pub select-upsert_tracking :
    (p : Place) (new : TrackingRecord) (rs : List TrackingRecord)
    → select_tracking p (upsert_tracking new rs)
      ≡ (if place_of new == p then some new else select_tracking p rs)
unfolding select_tracking upsert_tracking
select-upsert_tracking p new [] = refl
select-upsert_tracking p new (r ∷ rs) = ground (
  arith,
  place_beq_iff (place_of r) p,
  place_beq_iff (place_of new) p,
  place_beq_iff (place_of r) (place_of new),
  select-upsert_tracking p new rs,
)

pub select-upsert_active :
    (home : String) (new : ActiveNamespaceBinding) (bs : List ActiveNamespaceBinding)
    → select_active home (upsert_active new bs)
      ≡ (if new.codex_home_key == home then some new else select_active home bs)
unfolding select_active upsert_active
select-upsert_active home new [] = refl
select-upsert_active home new (b ∷ bs) = ground (
  arith,
  eq_iff b.codex_home_key home,
  eq_iff new.codex_home_key home,
  eq_iff b.codex_home_key new.codex_home_key,
  select-upsert_active home new bs,
)

pub select_tracking-place :
    (p : Place) (r : TrackingRecord) (rs : List TrackingRecord)
    → select_tracking p rs ≡ some r
    → place_of r ≡ p
unfolding select_tracking
select_tracking-place p r [] h = cc
select_tracking-place p r (s ∷ rs) h =
    ground (arith, place_beq_iff (place_of s) p, select_tracking-place p r rs)
