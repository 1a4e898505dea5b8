-- ===== src/Outside.antt =====
-- What Thimble calls and does not implement: the age program (internal/age runs it), SHA-256, the
-- random source, the clock and the identity file. They are parameters of every operation.
use thimble.Base.{ℕ, ◌+◌, ◌/◌, ◌%◌, Bool, ltb, if◌then◌else◌, Option, List, [], ◌∷◌, Bytes, take}
use thimble.Base.Space.{trim_space}
use thimble.Errors.{Result}

pub record Outside : Type 0 where
  -- the n-th run of `age -a -r ...` on a text, for these recipients; age encrypts at random
  pub encrypt : ℕ → List Bytes → Bytes → Result Bytes
  -- `age -d -i identity` on the bytes of a file
  pub decrypt : Bytes → Result Bytes
  -- the 32 bytes of SHA-256
  pub digest : Bytes → Bytes
  -- the n-th read of so many random bytes
  pub random : ℕ → ℕ → Result Bytes
  -- the clock at the n-th effect, in RFC 3339
  pub clock : ℕ → Bytes
  -- the text of the configured identity file, if one is configured and can be read
  pub identity_file : Option Bytes
  -- whether an audit logger is installed
  pub audited : Bool

abbrev hex_digit : ℕ → ℕ
hex_digit d = if ltb d 10 then 48 + d else 87 + d

-- hex.EncodeToString
unfoldable pub hex : Bytes → Bytes
hex [] = []
hex (b ∷ bs) = hex_digit (b / 16) ∷ hex_digit (b % 16) ∷ hex bs

-- bytesSHA256
unfoldable pub sha256_hex : Outside → Bytes → Bytes
unfolding hex
sha256_hex o b = hex (o.digest b)

-- Thumbprint, and quorum.RecipientThumbprint
unfoldable pub thumbprint : Outside → Bytes → Bytes
unfolding sha256_hex
thumbprint o recipient = take 16 (sha256_hex o (trim_space recipient))
