-- ===== src/Merge/Bundle.antt =====
-- The thread bundles of crates/sync-core/src/models.rs, and `remote_thread_view` of
-- crates/sync-core/src/sync.rs: what of a bundle counts when two are compared.
use codex_session_sync.Prelude.{
  Bool, Eq, List, Option, String, [], arith, eqb, false, if◌then◌else◌, ltb, none, some, true, ℕ,
  ◌*◌, ◌+◌, ◌==◌, ◌^◌, ◌||◌, ◌↔◌, ◌∷◌, ◌≡◌, nat_eq, string_eq, option_eq,
}

-- An i64; `negsuc n` is - (n + 1).
pub data Integer : Type 0 where
  pos negsuc : ℕ → Integer

-- `serde_json::Value`, with what the code does not look into as its text
pub data Value : Type 0 where
  null : Value
  bool : Bool → Value
  int : Integer → Value
  text : String → Value
  other : String → Value

abbrev pub Fields : Type 0
Fields = List (String × Value)

-- A row of a table: an object, or what is none.
pub data Row : Type 0 where
  object : Fields → Row
  not_object : Value → Row

pub record ContentObject : Type 0 where
  pub sha256 : String
  pub byte_length : ℕ
  pub media_type : String
  pub logical_path : Option String
  pub source_path : Option String
  pub storage : Option String

pub record WorkspaceRef : Type 0 where
  pub logical_id : Option String
  pub source_path : Option String

pub record RelatedRecords : Type 0 where
  pub source_database : Option String
  pub tables : List (String × List Row)

pub record ThreadBundle : Type 0 where
  pub schema_version : ℕ
  pub thread_id : String
  pub title : String
  pub archived : Bool
  pub created_at_ms : Option Integer
  pub updated_at_ms : Option Integer
  pub model_provider : Option String
  pub workspace : WorkspaceRef
  pub rollout : ContentObject
  pub related_records : RelatedRecords
  pub attachments : List ContentObject

abbrev pub integer_beq : Integer → Integer → Bool
integer_beq (pos m) (pos n) = eqb m n
integer_beq (negsuc m) (negsuc n) = eqb m n
integer_beq (pos m) (negsuc n) = false
integer_beq (negsuc m) (pos n) = false

pub integer_beq_iff : (a b : Integer) → (integer_beq a b ≡ true) ↔ (a ≡ b)
integer_beq_iff (pos m) (pos n) = ((λ h. ground arith), λ h. ground arith)
integer_beq_iff (negsuc m) (negsuc n) = ((λ h. ground arith), λ h. ground arith)
integer_beq_iff (pos m) (negsuc n) = ((λ h. ground arith), λ h. ground arith)
integer_beq_iff (negsuc m) (pos n) = ((λ h. ground arith), λ h. ground arith)

instance abbrev pub integer_eq : Eq Integer
integer_eq = record { beq = integer_beq; beq_iff = integer_beq_iff }

-- `value.checked_mul(1_000)` on an i64
unfoldable pub checked_mul_1000 : Integer → Option Integer
checked_mul_1000 (pos n) = if ltb (n * 1000) (2 ^ 63) then some (pos (n * 1000)) else none
checked_mul_1000 (negsuc n) =
    if ltb (n * 1000 + 999) (2 ^ 63) then some (negsuc (n * 1000 + 999)) else none

unfoldable pub field : String → Fields → Option Value
field k [] = none
field k ((j, v) ∷ row) = if j == k then some v else field k row

-- `Map::remove`
unfoldable pub drop_field : String → Fields → Fields
drop_field k [] = []
drop_field k ((j, v) ∷ row) = let rest = drop_field k row in if j == k then rest else (j, v) ∷ rest

unfoldable pub is_null : Value → Bool
is_null null = true
is_null (bool b) = false
is_null (int n) = false
is_null (text s) = false
is_null (other s) = false

-- `row.retain(|_, value| !value.is_null())`
unfoldable pub retain_values : Fields → Fields
retain_values [] = []
retain_values ((j, v) ∷ row) =
    let rest = retain_values row in if is_null v then rest else (j, v) ∷ rest

abbrev pub as_i64 : Option Value → Option Integer
as_i64 (some (int n)) = some n
as_i64 (some null) = none
as_i64 (some (bool b)) = none
as_i64 (some (text s)) = none
as_i64 (some (other s)) = none
as_i64 none = none

abbrev pub as_str : Option Value → Option String
as_str (some (text s)) = some s
as_str (some null) = none
as_str (some (bool b)) = none
as_str (some (int n)) = none
as_str (some (other s)) = none
as_str none = none

unfoldable pub millis : Option Integer → Option Integer → Option Integer
millis (some ms) seconds = some ms
millis none none = none
millis none (some s) = checked_mul_1000 s

unfoldable pub drop_if : Bool → String → Fields → Fields
drop_if b k row = if b then drop_field k row else row

-- The defaults that a row of the table `threads` may leave out.
unfoldable pub thread_row_view : Fields → Fields
thread_row_view row =
    let updated_at = as_i64 (field "updated_at" row) in
    let updated_at_ms = millis (as_i64 (field "updated_at_ms" row)) updated_at in
    let recency_at = as_i64 (field "recency_at" row) in
    let recency_at_ms = as_i64 (field "recency_at_ms" row) in
    let row1 = drop_if (recency_at == some (pos 0) || recency_at == updated_at) "recency_at" row in
    let row2 =
      drop_if (recency_at_ms == some (pos 0) || recency_at_ms == updated_at_ms) "recency_at_ms"
        row1 in
    drop_if (as_str (field "history_mode" row2) == some "legacy") "history_mode" row2

unfoldable pub row_view : String → Row → Row
row_view table (not_object v) = not_object v
row_view table (object row) =
    let local =
      drop_field "cwd"
        (drop_field "model_provider" (drop_field "codex_home" (drop_field "rollout_path" row))) in
    let filled = retain_values local in
    object (if table == "threads" then thread_row_view filled else filled)

unfoldable pub rows_view : String → List Row → List Row
rows_view table [] = []
rows_view table (row ∷ rows) = row_view table row ∷ rows_view table rows

unfoldable pub tables_view : List (String × List Row) → List (String × List Row)
tables_view [] = []
tables_view ((table, rows) ∷ tables) = (table, rows_view table rows) ∷ tables_view tables

abbrev pub content_view : ContentObject → ContentObject
content_view c = record c { source_path = none; storage = none }

unfoldable pub contents_view : List ContentObject → List ContentObject
contents_view [] = []
contents_view (c ∷ cs) = content_view c ∷ contents_view cs

unfoldable pub remote_thread_view : ThreadBundle → ThreadBundle
remote_thread_view thread = record thread {
  model_provider = none;
  workspace = record thread.workspace { source_path = none };
  rollout = content_view thread.rollout;
  attachments = contents_view thread.attachments;
  related_records = record {
    source_database = none;
    tables = tables_view thread.related_records.tables;
  };
}
