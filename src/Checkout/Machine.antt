-- ===== src/Checkout/Machine.antt =====
-- What a checkout (crates/sync-core/src/checkout.rs) uses and this model takes as given: the digest, the
-- scan of a Codex home, the statements that SQLite runs on a database, and the standard library's tests.
use codex_session_sync.Checkout.World.{Files}
use codex_session_sync.Checkout.Journal.{CheckoutError, FilePath}
use codex_session_sync.Prelude.{
  Bool, List, Option, Result, String, ℕ, nat_eq, string_eq, option_eq, list_eq,
}

pub record ScanReport : Type 0 where
  pub warnings : List String
  pub database_paths : List FilePath
  pub thread_hashes : Result CheckoutError (List (String × String))

pub record Machine : Type 0 where
  pub is_whitespace : ℕ → Bool
  pub sha256 : String → String
  pub home_key : FilePath → Option String
  pub scan : FilePath → Files → Result CheckoutError ScanReport
  pub count_threads : String → Option ℕ
  pub delete_threads : String → Option String
  pub insert_threads : String → Option String
  pub invalidate_catalog : String → Option String
  pub now : String
