-- ===== src/Merge/Again.antt =====
-- `remote_thread_view` of crates/sync-core/src/sync.rs, over the rows and contents of a bundle.
use codex_session_sync.Prelude.{
  ==_refl, Bool, List, String, [], ap, ap₂, false, if_true, if◌then◌else◌, none, refl, true, ◌==◌,
  ◌∙◌, ◌∷◌, ◌≡◌, nat_eq, string_eq, option_eq,
}
use codex_session_sync.Merge.Bundle.{
  object, not_object, ContentObject, Row, row_view, retain_values, content_view, field,
  contents_view, tables_view, ThreadBundle, drop_if, rows_view, thread_row_view, Fields,
  remote_thread_view, integer_eq, drop_field,
}
use codex_session_sync.Merge.View.{
  retain_values-whole, field-drop_field, has_null, drop_if-has_null, retain_values-has_null,
  field-drop_if, thread_row_view-again, drop_field-absent, field-retain_values,
}

-- A row that the view has nothing to take from, but the defaults of a thread.
record IsShared (row : Fields) : Type 0 where
  no_path : field "rollout_path" row ≡ none
  no_home : field "codex_home" row ≡ none
  no_provider : field "model_provider" row ≡ none
  no_cwd : field "cwd" row ≡ none
  no_null : has_null row ≡ false

drop_field-same : (k : String) (row : Fields) → field k (drop_field k row) ≡ none
drop_field-same k row = field-drop_field k k row ∙ if_true _ _ (==_refl k)

drop_field-none :
    (k j : String) (row : Fields) → field j row ≡ none → field j (drop_field k row) ≡ none
unfolding drop_if
drop_field-none k j row h = field-drop_if true k j row h

abbrev shared_part : Fields → Fields
shared_part row = retain_values (
    drop_field "cwd"
      (drop_field "model_provider" (drop_field "codex_home" (drop_field "rollout_path" row))))

shared_part-IsShared : (row : Fields) → IsShared (shared_part row)
shared_part-IsShared row =
    let a = drop_field "rollout_path" row in
    let b = drop_field "codex_home" a in
    let c = drop_field "model_provider" b in
    let d = drop_field "cwd" c in
    record {
      no_path = field-retain_values _ d (
          drop_field-none _ _ c
            (drop_field-none _ _ b (drop_field-none _ _ a (drop_field-same _ row))));
      no_home =
          field-retain_values _ d
            (drop_field-none _ _ c (drop_field-none _ _ b (drop_field-same _ a)));
      no_provider = field-retain_values _ d (drop_field-none _ _ c (drop_field-same _ b));
      no_cwd = field-retain_values _ d (drop_field-same _ c);
      no_null = retain_values-has_null d;
    }

drop_if-IsShared :
    (b : Bool) (k : String) (row : Fields) → IsShared row → IsShared (drop_if b k row)
drop_if-IsShared b k row t = record {
  no_path = field-drop_if b k _ row t.no_path;
  no_home = field-drop_if b k _ row t.no_home;
  no_provider = field-drop_if b k _ row t.no_provider;
  no_cwd = field-drop_if b k _ row t.no_cwd;
  no_null = drop_if-has_null b k row t.no_null;
}

thread_row_view-IsShared : (row : Fields) → IsShared row → IsShared (thread_row_view row)
unfolding thread_row_view
thread_row_view-IsShared row t =
    drop_if-IsShared _ _ _ (drop_if-IsShared _ _ _ (drop_if-IsShared _ _ row t))

shared_part-again : (row : Fields) → IsShared row → shared_part row ≡ row
shared_part-again row t =
    ap
      (λ r.
        retain_values (drop_field "cwd" (drop_field "model_provider" (drop_field "codex_home" r))))
      (drop_field-absent _ row t.no_path)
    ∙ ap (λ r. retain_values (drop_field "cwd" (drop_field "model_provider" r)))
        (drop_field-absent _ row t.no_home)
    ∙ ap (λ r. retain_values (drop_field "cwd" r)) (drop_field-absent _ row t.no_provider)
    ∙ ap retain_values (drop_field-absent _ row t.no_cwd)
    ∙ retain_values-whole row t.no_null

fields_view-again :
    (thread : Bool) (row : Fields)
    → let once = (if thread then thread_row_view (shared_part row) else shared_part row) in
      (if thread then thread_row_view (shared_part once) else shared_part once) ≡ once
fields_view-again true row =
    ap thread_row_view (
      shared_part-again (thread_row_view (shared_part row))
        (thread_row_view-IsShared (shared_part row) (shared_part-IsShared row)))
    ∙ thread_row_view-again (shared_part row)
fields_view-again false row = shared_part-again (shared_part row) (shared_part-IsShared row)

rows_view-again :
    (table : String) (rows : List Row)
    → rows_view table (rows_view table rows) ≡ rows_view table rows
unfolding rows_view row_view
rows_view-again table [] = refl
rows_view-again table (not_object v ∷ rows) =
    ap (λ r. not_object v ∷ r) (rows_view-again table rows)
rows_view-again table (object row ∷ rows) =
    ap₂ (λ f r. object f ∷ r) (fields_view-again (table == "threads") row)
      (rows_view-again table rows)

tables_view-again :
    (tables : List (String × List Row)) → tables_view (tables_view tables) ≡ tables_view tables
unfolding tables_view
tables_view-again [] = refl
tables_view-again ((table, rows) ∷ tables) =
    ap₂ (λ r t. (table, r) ∷ t) (rows_view-again table rows) (tables_view-again tables)

contents_view-again :
    (cs : List ContentObject) → contents_view (contents_view cs) ≡ contents_view cs
unfolding contents_view
contents_view-again [] = refl
contents_view-again (c ∷ cs) = ap (λ r. content_view c ∷ r) (contents_view-again cs)

-- The view of a bundle's view is that view, whatever rows and columns its tables hold.
pub remote_thread_view-again :
    (thread : ThreadBundle)
    → remote_thread_view (remote_thread_view thread) ≡ remote_thread_view thread
unfolding remote_thread_view
remote_thread_view-again thread =
    ap₂
      (λ a t. record thread {
        model_provider = none;
        workspace = record thread.workspace { source_path = none };
        rollout = content_view thread.rollout;
        attachments = a;
        related_records = record { source_database = none; tables = t };
      })
      (contents_view-again thread.attachments) (tables_view-again thread.related_records.tables)
