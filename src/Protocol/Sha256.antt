-- ===== src/Protocol/Sha256.antt =====
-- `validate_sha256` of crates/sync-core/src/protocol.rs, on the code points of a text.
use codex_session_sync.Prelude.{
  Bool, List, Option, String, [], all, false, if◌then◌else◌, leb, length, none, some, ℕ, ◌&&◌, ◌==◌,
  ◌||◌, ◌∷◌, nat_eq,
}
use Prim.Native.Char.{code}

abbrev pub codes : String → List ℕ
codes String.[] = []
codes (String.◌∷◌ c s) = code c ∷ codes s

-- `value.strip_prefix(prefix)`
unfoldable pub strip_prefix : List ℕ → List ℕ → Option (List ℕ)
strip_prefix [] value = some value
strip_prefix (p ∷ ps) [] = none
strip_prefix (p ∷ ps) (c ∷ cs) = if p == c then strip_prefix ps cs else none

-- `byte.is_ascii_digit() || (b'a'..=b'f').contains(&byte)`
unfoldable pub is_lower_hex : ℕ → Bool
is_lower_hex byte = (leb b'0' byte && leb byte b'9') || (leb b'a' byte && leb byte b'f')

-- A digest of bytes above 127 is refused by its bytes, so its length in code points serves.
unfoldable pub validate_sha256 : String → Bool
unfolding strip_prefix is_lower_hex all
validate_sha256 value = elim (strip_prefix (codes "sha256:") (codes value)) [
  | none ↦ false
  | some digest ↦ length digest == 64 && all is_lower_hex digest
]
