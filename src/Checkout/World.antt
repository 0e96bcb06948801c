-- ===== src/Checkout/World.antt =====
-- The world of a checkout (crates/sync-core/src/checkout.rs): the files, the journal's file, the tracking
-- database and the variable `journal` of the process. Each system call asks `fates` what becomes of it.
use codex_session_sync.Prelude.{
  Bool, List, Option, Result, String, [], err, if◌then◌else◌, is_some, none, ok, some, ◌++◌, ◌==◌,
  ◌∷◌, nat_eq, string_eq, option_eq, list_eq,
}
use codex_session_sync.Tracking.Rows.{TrackingDatabase}
use codex_session_sync.Checkout.Journal.{io_error, CheckoutJournal, CheckoutError, FilePath}

-- A directory that is moved as a whole, a file or a database is one entry, with an opaque content.
abbrev pub Files : Type 0
Files = FilePath → Option String

abbrev pub set_file : FilePath → Option String → Files → Files
set_file p content files q = if p == q then content else files q

-- A call works, fails, or the process ends before it. Every call works once the list is at its end.
pub data Fate : Type 0 where
  works fails stops : Fate

pub record World : Type 0 where
  pub files : Files
  pub saved : Option CheckoutJournal
  pub unsaved : Option CheckoutJournal
  pub held : CheckoutJournal
  pub tracking : TrackingDatabase
  pub fates : List Fate

pub data Run (A : Type 0) : Type 0 where
  done : A → World → Run A
  failed : CheckoutError → World → Run A
  stopped : World → Run A

abbrev pub Action : Type 0 → Type 0
Action A = World → Run A

infixl 5 ◌>>=◌ ◌>>◌
unfoldable pub ◌>>=◌ : {A B : Type 0} → Action A → (A → Action B) → Action B
◌>>=◌ m f w = elim (m w) [ done a v ↦ f a v | failed e v ↦ failed e v | stopped v ↦ stopped v ]

abbrev pub ◌>>◌ : {B : Type 0} → Action (Unit {0}) → Action B → Action B
m >> k = m >>= λ _. k

unfoldable pub give : {A : Type 0} → A → Action A
give a w = done a w

unfoldable pub refuse : {A : Type 0} → CheckoutError → Action A
refuse e w = failed e w

unfoldable pub lift : {A : Type 0} → Result CheckoutError A → Action A
unfolding give refuse
lift (ok a) = give a
lift (err e) = refuse e

-- What a call does to the world when it works, or none where it reports an error of its own.
unfoldable pub call_with : List Fate → (World → Option World) → World → Run (Unit {0})
call_with [] act w = elim (act w) [ none ↦ failed io_error w | some v ↦ done tt v ]
call_with (works ∷ fs) act w = elim (act (record w { fates = fs })) [
  | none ↦ failed io_error (record w { fates = fs })
  | some v ↦ done tt v
]
call_with (fails ∷ fs) act w = failed io_error (record w { fates = fs })
call_with (stops ∷ fs) act w = stopped (record w { fates = fs })

unfoldable pub call : (World → Option World) → Action (Unit {0})
unfolding call_with
call act w = call_with w.fates act w

-- `if let Err(error) = …`: the error is a value here.
unfoldable pub attempt : {A : Type 0} → Action A → Action (Result CheckoutError A)
attempt m w = elim (m w) [
  | done a v ↦ done (ok a) v
  | failed e v ↦ done (err e) v
  | stopped v ↦ stopped v
]

unfoldable pub exists : FilePath → Action Bool
exists p w = done (is_some (w.files p)) w

-- A call that changes the files, or reports an error of its own.
unfoldable pub touched : (Files → Option Files) → World → Option World
touched change w = elim (change w.files) [
  | none ↦ none
  | some files ↦ some (record w { files = files })
]

unfoldable pub touch : (Files → Option Files) → Action (Unit {0})
unfolding call touched
touch change = call (touched change)

-- `fs::rename`. The callers have tested that nothing is at the destination.
unfoldable pub renamed : FilePath → FilePath → Files → Option Files
renamed source destination files = elim (files source) [
  | none ↦ none
  | some content ↦ some (set_file destination (some content) (set_file source none files))
]

unfoldable pub rename : FilePath → FilePath → Action (Unit {0})
unfolding touch renamed
rename source destination = touch (renamed source destination)

-- `fs::remove_file` and `fs::remove_dir_all`
unfoldable pub remove : FilePath → Action (Unit {0})
unfolding touch
remove p = touch (λ files. some (set_file p none files))

-- A call that writes a new content over the old one: `none` is the error of the writer.
unfoldable pub rewritten : FilePath → (String → Option String) → Files → Option Files
rewritten p change files = elim (files p) [
  | none ↦ none
  | some content ↦ elim (change content) [
    | none ↦ none
    | some new ↦ some (set_file p (some new) files)
  ]
]

unfoldable pub rewrite : FilePath → (String → Option String) → Action (Unit {0})
unfolding touch rewritten
rewrite p change = touch (rewritten p change)

unfoldable pub create : FilePath → String → Action (Unit {0})
unfolding touch
create p content = touch (λ files. some (set_file p (some content) files))

-- A database copied over another, by SQLite's backup interface.
unfoldable pub copied : FilePath → FilePath → Files → Option Files
copied source destination files = elim (files source) [
  | none ↦ none
  | some content ↦ some (set_file destination (some content) files)
]

unfoldable pub copy : FilePath → FilePath → Action (Unit {0})
unfolding touch copied
copy source destination = touch (copied source destination)

-- A call without an effect that the model keeps: making a directory, asking for a cancellation.
unfoldable pub pause : Action (Unit {0})
unfolding touch
pause = touch (λ files. some files)

unfoldable pub held_journal : Action CheckoutJournal
held_journal w = done w.held w

unfoldable pub hold : CheckoutJournal → Action (Unit {0})
hold j w = done tt (record w { held = j })

unfoldable pub when : Bool → Action (Unit {0}) → Action (Unit {0})
unfolding give
when test m = if test then m else give tt

-- Reads the files.
unfoldable pub look : {A : Type 0} → (Files → Result CheckoutError A) → Action A
unfolding lift
look read w = lift (read w.files) w

unfoldable pub for_each : {A : Type 0} → (A → Action (Unit {0})) → List A → Action (Unit {0})
for_each body [] = give tt
for_each body (x ∷ xs) = body x >> for_each body xs

-- A loop that collects what its rounds report.
unfoldable pub collect : {A B : Type 0} → (A → Action (List B)) → List A → Action (List B)
collect body [] = give []
collect body (x ∷ xs) = body x >>= λ here. collect body xs >>= λ rest. give (here ++ rest)
