-- ===== src/Uuid.antt =====
-- `abmcyUUID` of internal/handler/payment_handler.go: sixteen random bytes as a version 4 UUID.
use Prim.Native.String.{◌++◌}
use abmcy_core_payment.Base.{
  ℕ, zero, suc, ◌+◌, ◌-◌, ◌/◌, ◌%◌, String, Option, none, some, List, [], ◌∷◌, eqb, take, drop,
  replicate, if◌then◌else◌,
}
use abmcy_core_payment.World.{Env, M, advance}

abbrev hex_digit : ℕ → String
hex_digit d =
    if eqb d 0
    then "0"
    else if eqb d 1
    then "1"
    else if eqb d 2
    then "2"
    else if eqb d 3
    then "3"
    else if eqb d 4
    then "4"
    else if eqb d 5
    then "5"
    else if eqb d 6
    then "6"
    else if eqb d 7
    then "7"
    else if eqb d 8
    then "8"
    else if eqb d 9
    then "9"
    else if eqb d 10
    then "a"
    else if eqb d 11
    then "b"
    else if eqb d 12
    then "c"
    else if eqb d 13
    then "d"
    else if eqb d 14
    then "e"
    else "f"

-- `%x` of a byte slice.
unfoldable pub hex : List ℕ → String
hex [] = ""
hex (b ∷ bs) = hex_digit (b / 16) ++ hex_digit (b % 16) ++ hex bs

-- `b[i] = f(b[i])`
unfoldable pub modify_at : ℕ → (ℕ → ℕ) → List ℕ → List ℕ
modify_at i f [] = []
modify_at zero f (b ∷ bs) = f b ∷ bs
modify_at (suc i) f (b ∷ bs) = b ∷ modify_at i f bs

-- `b[6]&0x0f | 0x40` and `b[8]&0x3f | 0x80`
unfoldable pub mark_version : List ℕ → List ℕ
unfolding modify_at
mark_version b = modify_at 8 (λ x. x % 64 + 128) (modify_at 6 (λ x. x % 16 + 64) b)

abbrev slice_bytes : ℕ → ℕ → List ℕ → List ℕ
slice_bytes i j b = take (j - i) (drop i b)

unfoldable pub format_uuid : List ℕ → String
unfolding hex
format_uuid b =
    hex (slice_bytes 0 4 b)
    ++ "-"
    ++ hex (slice_bytes 4 6 b)
    ++ "-"
    ++ hex (slice_bytes 6 8 b)
    ++ "-"
    ++ hex (slice_bytes 8 10 b)
    ++ "-"
    ++ hex (slice_bytes 10 16 b)

-- A failed read is ignored: the bytes stay zero.
abbrev random_bytes : Option (List ℕ) → List ℕ
random_bytes none = replicate 16 0
random_bytes (some b) = b

unfoldable pub abmcy_uuid : Env → M String
unfolding mark_version format_uuid
abmcy_uuid e w = (format_uuid (mark_version (random_bytes (e.read_random w.tick 16))), advance w)
