-- ===== src/Merge/View.antt =====
-- `remote_thread_view` of crates/sync-core/src/sync.rs: the view of a view is that view.
use codex_session_sync.Prelude.{
  ==_refl, Bool, Option, String, [], ap, ap₂, arith, eq_iff, false, if_false, if_true,
  if◌then◌else◌, none, refl, some, sym, true, true≢false, ◌==◌, ◌||◌, ◌∙◌, ◌∷◌, ◌≡◌, nat_eq,
  string_eq, option_eq,
}
use codex_session_sync.Merge.Bundle.{
  millis, pos, as_str, as_i64, Value, thread_row_view, is_null, drop_field, Fields, drop_if,
  retain_values, field, integer_eq,
}

pub field-drop_field :
    (k j : String) (row : Fields)
    → field j (drop_field k row) ≡ (if k == j then none else field j row)
unfolding field drop_field
field-drop_field k j [] = ground arith
field-drop_field k j ((i, v) ∷ row) =
    ground (arith, eq_iff k j, eq_iff i k, eq_iff i j, field-drop_field k j row)

pub drop_field-absent : (k : String) (row : Fields) → field k row ≡ none → drop_field k row ≡ row
unfolding field drop_field
drop_field-absent k [] h = refl
drop_field-absent k ((i, v) ∷ row) h = ground (arith, eq_iff i k, drop_field-absent k row)

pub field-retain_values :
    (k : String) (row : Fields) → field k row ≡ none → field k (retain_values row) ≡ none
unfolding field retain_values
field-retain_values k [] h = refl
field-retain_values k ((i, v) ∷ row) h = ground (arith, eq_iff i k, field-retain_values k row)

unfoldable pub has_null : Fields → Bool
has_null [] = false
has_null ((i, v) ∷ row) = is_null v || has_null row

pub retain_values-has_null : (row : Fields) → has_null (retain_values row) ≡ false
unfolding has_null retain_values
retain_values-has_null [] = refl
retain_values-has_null ((i, v) ∷ row) = ground (arith, retain_values-has_null row)

pub retain_values-whole : (row : Fields) → has_null row ≡ false → retain_values row ≡ row
unfolding has_null retain_values
retain_values-whole [] h = refl
retain_values-whole ((i, v) ∷ row) h = ground (arith, retain_values-whole row)

drop_field-has_null :
    (k : String) (row : Fields) → has_null row ≡ false → has_null (drop_field k row) ≡ false
unfolding has_null drop_field
drop_field-has_null k [] h = refl
drop_field-has_null k ((i, v) ∷ row) h = ground (arith, drop_field-has_null k row)

-- A row without a field, whatever else is dropped.
pub field-drop_if :
    (b : Bool) (k j : String) (row : Fields) → field j row ≡ none → field j (drop_if b k row) ≡ none
unfolding drop_if
field-drop_if true k j row h = field-drop_field k j row ∙ ground arith
field-drop_if false k j row h = h

pub drop_if-has_null :
    (b : Bool) (k : String) (row : Fields)
    → has_null row ≡ false
    → has_null (drop_if b k row) ≡ false
unfolding drop_if
drop_if-has_null true k row h = drop_field-has_null k row h
drop_if-has_null false k row h = h

-- A field that is not the one dropped is kept.
drop_if-other :
    (b : Bool) (k j : String) (row : Fields)
    → (k == j) ≡ false
    → field j (drop_if b k row) ≡ field j row
unfolding drop_if
drop_if-other true k j row h = field-drop_field k j row ∙ if_false _ _ h
drop_if-other false k j row h = refl

-- Dropping where a test of the field asks for it leaves nothing to drop.
drop_if-settled :
    (b c : Bool) (k : String) (row : Fields)
    → (b ≡ true → field k row ≡ none)
    → (b ≡ false → c ≡ false)
    → drop_if c k row ≡ row
unfolding drop_if
drop_if-settled true true k row h q = drop_field-absent k row (h refl)
drop_if-settled true false k row h q = refl
drop_if-settled false true k row h q = absurd (true≢false (q refl))
drop_if-settled false false k row h q = refl

dropped_here : (b : Bool) (k : String) (row : Fields) → b ≡ true → field k (drop_if b k row) ≡ none
unfolding drop_if
dropped_here true k row e = field-drop_field k k row ∙ if_true _ _ (==_refl k)
dropped_here false k row e = absurd (true≢false (sym e))

kept_here :
    (b : Bool) (k : String) (row : Fields) → b ≡ false → field k (drop_if b k row) ≡ field k row
unfolding drop_if
kept_here true k row e = absurd (true≢false e)
kept_here false k row e = refl

ap₃ :
    {A B C D : Type 0} (f : A → B → C → D) {a a' : A} {b b' : B} {c c' : C}
    → a ≡ a'
    → b ≡ b'
    → c ≡ c'
    → f a b c ≡ f a' b' c'
ap₃ f {a} {a'} {b} {b'} {c} {c'} p q r = ap (λ x. f x b c) p ∙ ap (λ y. f a' y c) q ∙ ap (f a' b') r

abbrev seconds_default : Option Value → Option Value → Bool
seconds_default recency updated = as_i64 recency == some (pos 0) || as_i64 recency == as_i64 updated

abbrev millis_default : Option Value → Option Value → Option Value → Bool
millis_default recency_ms updated_ms updated =
    as_i64 recency_ms == some (pos 0)
    || as_i64 recency_ms == millis (as_i64 updated_ms) (as_i64 updated)

abbrev is_legacy : Option Value → Bool
is_legacy mode = as_str mode == some "legacy"

pub thread_row_view-again :
    (row : Fields) → thread_row_view (thread_row_view row) ≡ thread_row_view row
unfolding thread_row_view
thread_row_view-again row =
    let b1 = seconds_default (field "recency_at" row) (field "updated_at" row) in
    let b2 =
      millis_default (field "recency_at_ms" row) (field "updated_at_ms" row)
        (field "updated_at" row) in
    let row1 = drop_if b1 "recency_at" row in
    let row2 = drop_if b2 "recency_at_ms" row1 in
    let b3 = is_legacy (field "history_mode" row2) in
    let row3 = drop_if b3 "history_mode" row2 in
    let updated : field "updated_at" row3 ≡ field "updated_at" row =
      drop_if-other b3 _ _ row2 refl
      ∙ drop_if-other b2 _ _ row1 refl
      ∙ drop_if-other b1 _ _ row refl in
    let updated_ms : field "updated_at_ms" row3 ≡ field "updated_at_ms" row =
      drop_if-other b3 _ _ row2 refl
      ∙ drop_if-other b2 _ _ row1 refl
      ∙ drop_if-other b1 _ _ row refl in
    let recency : field "recency_at" row3 ≡ field "recency_at" row1 =
      drop_if-other b3 _ _ row2 refl ∙ drop_if-other b2 _ _ row1 refl in
    let recency_ms : field "recency_at_ms" row3 ≡ field "recency_at_ms" row2 =
      drop_if-other b3 _ _ row2 refl in
    let c1 = seconds_default (field "recency_at" row3) (field "updated_at" row3) in
    let c2 =
      millis_default (field "recency_at_ms" row3) (field "updated_at_ms" row3)
        (field "updated_at" row3) in
    let s1 : drop_if c1 "recency_at" row3 ≡ row3 =
      drop_if-settled b1 c1 "recency_at" row3 (λ e. recency ∙ dropped_here b1 "recency_at" row e)
        (λ e. ap₂ seconds_default (recency ∙ kept_here b1 "recency_at" row e) updated ∙ e) in
    let s2 : drop_if c2 "recency_at_ms" row3 ≡ row3 =
      drop_if-settled b2 c2 "recency_at_ms" row3
        (λ e. recency_ms ∙ dropped_here b2 "recency_at_ms" row1 e)
        (λ e.
          ap₃ millis_default
            (recency_ms ∙ kept_here b2 "recency_at_ms" row1 e ∙ drop_if-other b1 _ _ row refl)
            updated_ms updated
          ∙ e) in
    let s3 : drop_if (is_legacy (field "history_mode" row3)) "history_mode" row3 ≡ row3 =
      drop_if-settled b3 (is_legacy (field "history_mode" row3)) "history_mode" row3
        (λ e. dropped_here b3 "history_mode" row2 e)
        (λ e. ap is_legacy (kept_here b3 "history_mode" row2 e) ∙ e) in
    ap (λ r. drop_if (is_legacy (field "history_mode" r)) "history_mode" r)
      (ap (drop_if c2 "recency_at_ms") s1 ∙ s2)
    ∙ s3
