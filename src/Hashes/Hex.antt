-- ===== src/Hashes/Hex.antt =====
-- The hexadecimal text of a hash tells which hash it is.
use Prim.Native.Char.{code}
use Prim.Native.String.{◌++◌}
use text.Mathlib.TextLemmas.{cons-append, nil-append}
use onedriver.Prelude.{
  ℕ, zero, suc, ◌+◌, ◌*◌, ◌-◌, ◌/◌, ◌%◌, ◌<◌, Char, String, [], ◌∷◌, ◌≡◌, refl, ap, ◌∙◌, arith,
  if◌then◌else◌, ltb,
}
use onedriver.Item.{Bytes}
use onedriver.Host.{Host}
use onedriver.Hashes.{digit, hex, sha1_hash}

-- The value of a hexadecimal digit.
abbrev value : Char → ℕ
value c = if ltb (code c) 58 then code c - 48 else code c - 87

-- The bytes of a hexadecimal text.
pub unhex : String → Bytes
unhex String.[] = []
unhex (String.◌∷◌ c String.[]) = []
unhex (String.◌∷◌ c (String.◌∷◌ d s)) = (value c * 16 + value d) ∷ unhex s

hex_digit :
    (n : ℕ) → n < 16 → (c : Char) × (digit "0123456789abcdef" n ≡ String.◌∷◌ c "") × (value c ≡ n)
hex_digit zero h = ("0", refl, refl)
hex_digit (suc zero) h = ("1", refl, refl)
hex_digit (suc (suc zero)) h = ("2", refl, refl)
hex_digit (suc (suc (suc zero))) h = ("3", refl, refl)
hex_digit (suc (suc (suc (suc zero)))) h = ("4", refl, refl)
hex_digit (suc (suc (suc (suc (suc zero))))) h = ("5", refl, refl)
hex_digit (suc (suc (suc (suc (suc (suc zero)))))) h = ("6", refl, refl)
hex_digit (suc (suc (suc (suc (suc (suc (suc zero))))))) h = ("7", refl, refl)
hex_digit (suc (suc (suc (suc (suc (suc (suc (suc zero)))))))) h = ("8", refl, refl)
hex_digit (suc (suc (suc (suc (suc (suc (suc (suc (suc zero))))))))) h = ("9", refl, refl)
hex_digit (suc (suc (suc (suc (suc (suc (suc (suc (suc (suc zero)))))))))) h = ("a", refl, refl)
hex_digit (suc (suc (suc (suc (suc (suc (suc (suc (suc (suc (suc zero))))))))))) h =
    ("b", refl, refl)
hex_digit (suc (suc (suc (suc (suc (suc (suc (suc (suc (suc (suc (suc zero)))))))))))) h =
    ("c", refl, refl)
hex_digit (suc (suc (suc (suc (suc (suc (suc (suc (suc (suc (suc (suc (suc zero))))))))))))) h =
    ("d", refl, refl)
hex_digit (suc (suc (suc (suc (suc (suc (suc (suc (suc (suc (suc (suc (suc (suc zero))))))))))))))
      h =
    ("e", refl, refl)
hex_digit
      (suc (suc (suc (suc (suc (suc (suc (suc (suc (suc (suc (suc (suc (suc (suc zero)))))))))))))))
      h =
    ("f", refl, refl)
hex_digit
      (suc
        (suc (suc (suc (suc (suc (suc (suc (suc (suc (suc (suc (suc (suc (suc (suc n))))))))))))))))
      h =
    absurd (omega arith)

-- The first digit of a text, and its value.
digit-append :
    (n : ℕ) (s : String)
    → n < 16
    → (c : Char) × (digit "0123456789abcdef" n ++ s ≡ String.◌∷◌ c s) × (value c ≡ n)
digit-append n s h =
    let (c, e, worth) = hex_digit n h in
    (c, rw e (cons-append c "" s ∙ ap (String.◌∷◌ c) (nil-append s)), worth)

-- Whether each number of a list is a byte.
abbrev pub AreBytes : Bytes → Type 0
AreBytes [] = Unit
AreBytes (byte ∷ bytes) = (byte < 256) × AreBytes bytes

-- The hexadecimal text of bytes is read back as these bytes.
unhex-hex : (bytes : Bytes) → AreBytes bytes → unhex (hex bytes) ≡ bytes
unfolding hex unhex
unhex-hex [] h = refl
unhex-hex (byte ∷ bytes) (h, hs) =
    let (d, e₁, low) = digit-append (byte % 16) (hex bytes) (omega arith) in
    let (c, e, high) =
      digit-append (byte / 16) (digit "0123456789abcdef" (byte % 16) ++ hex bytes) (omega arith) in
    let whole : value c * 16 + value d ≡ byte = omega arith in
    ap unhex (e ∙ ap (String.◌∷◌ c) e₁)
    ∙ ap (λ (first : ℕ). first ∷ unhex (hex bytes)) whole
    ∙ ap (◌∷◌ byte) (unhex-hex bytes hs)

-- A sum that is made of bytes can be read back from SHA1Hash, so that two contents have the same
-- SHA1Hash only if they have the same sum.
pub unhex-sha1_hash :
    (host : Host) (content : Bytes)
    → AreBytes (host.sha1_sum content)
    → unhex (sha1_hash host content) ≡ host.sha1_sum content
unfolding sha1_hash
unhex-sha1_hash host content h = unhex-hex (host.sha1_sum content) h
