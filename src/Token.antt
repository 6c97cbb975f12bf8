-- ===== src/Token.antt =====
-- internal/auth/token.go: opaque tokens.
use abmcy_core_payment.Base.{String, Option, none, some, List, ℕ}
use abmcy_core_payment.World.{Env, Result, ok, err, message, M, advance}
use abmcy_core_payment.Uuid.{hex}

abbrev token_of : Option (List ℕ) → Result String
token_of none = err (message "rand")
token_of (some b) = ok (hex b)

-- GenerateToken: random bytes in hexadecimal, or the error of the random source.
unfoldable pub generate_token : Env → M (Result String)
generate_token e w = (token_of (e.read_random w.tick 32), advance w)

-- HashToken: SHA-256 in hexadecimal.
abbrev pub hash_token : Env → String → String
hash_token e token = e.sha256_hex token
