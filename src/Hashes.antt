-- ===== src/Hashes.antt =====
-- graph/hashes.go: the texts of the hashes of a file.
pub mod Hex
use Prim.Native.String.{◌++◌, slice}
use onedriver.Prelude.{ℕ, ◌+◌, ◌*◌, ◌/◌, ◌%◌, String, [], ◌∷◌}
use onedriver.Item.{Bytes}
use onedriver.Host.{Host}

-- The n-th of the digits of a text.
abbrev pub digit : String → ℕ → String
digit digits n = slice digits n (n + 1)

-- fmt.Sprintf with %x: two digits for each byte.
unfoldable pub hex : Bytes → String
hex [] = ""
hex (byte ∷ bytes) =
    digit "0123456789abcdef" (byte / 16) ++ digit "0123456789abcdef" (byte % 16) ++ hex bytes

abbrev pub base64_digit : ℕ → String
base64_digit = digit "ABCDEFGHIJKLMNOPQRSTUVWXYZabcdefghijklmnopqrstuvwxyz0123456789+/"

-- base64.StdEncoding: four digits for each three bytes, with padding at the end.
unfoldable pub base64 : Bytes → String
base64 [] = ""
base64 (a ∷ []) = base64_digit (a / 4) ++ base64_digit (a % 4 * 16) ++ "=="
base64 (a ∷ b ∷ []) =
    base64_digit (a / 4) ++ base64_digit (a % 4 * 16 + b / 16) ++ base64_digit (b % 16 * 4) ++ "="
base64 (a ∷ b ∷ c ∷ bytes) =
    base64_digit (a / 4)
    ++ base64_digit (a % 4 * 16 + b / 16)
    ++ base64_digit (b % 16 * 4 + c / 64)
    ++ base64_digit (c % 64)
    ++ base64 bytes

module _ (host : Host) where
  -- SHA1Hash
  unfoldable pub sha1_hash : Bytes → String
  sha1_hash content = hex (host.sha1_sum content)

  -- QuickXORHash
  unfoldable pub quick_xor_hash : Bytes → String
  quick_xor_hash content = base64 (host.quick_xor_sum content)
