-- ===== src/Auth/Bearer.antt =====
-- Who passes RequireAdmin, internal/middleware/admin_auth.go.
use Prim.Native.String.len
use Prim.Native.String.{◌++◌, len, [], ◌∷◌}
use text.Mathlib.TextEquality.{starts_with_iff}
use text.Mathlib.TextPositions.{len_utf8-pos, len-append, starts_with-append, slice-append_right}
use text.Mathlib.Text.{starts_with}
use abmcy_core_payment.Base.{
  ◌≤◌, String, Bool, true, false, ◌≡◌, ◌≢◌, refl, sym, ap, ◌∙◌, ◌⊎◌, inl, inr, arith, ◌==◌, leb,
}
use abmcy_core_payment.World.{World, M}
use abmcy_core_payment.Http.{Request, Response}
use abmcy_core_payment.Auth.{is_bearer, supplied_token, require_admin}

len-pos : (s : String) → s ≢ "" → 1 ≤ len s
len-pos [] h = absurd (h refl)
len-pos (c ∷ s) h = let (k, wide) = len_utf8-pos c in let size = len.cons c s in omega arith

abbrev bearer_prefix : String
bearer_prefix = "Bearer "

supplied_token-append : (token : String) → supplied_token (bearer_prefix ++ token) ≡ token
supplied_token-append token =
    let rest = slice-append_right bearer_prefix token in rw (len-append bearer_prefix token) rest

is_bearer-append : (token : String) → token ≢ "" → is_bearer (bearer_prefix ++ token) ≡ true
is_bearer-append token set =
    let room = len-pos token set in
    let size = len-append bearer_prefix token in
    let starts = starts_with-append bearer_prefix token in
    let long : leb (len (bearer_prefix ++ token)) 7 ≡ false = ground arith in rw (long, starts)

bearer_of_test :
    (auth : String) → is_bearer auth ≡ true → auth ≡ bearer_prefix ++ supplied_token auth
bearer_of_test auth h =
    let starts : starts_with auth bearer_prefix ≡ true = ground arith in
    let (token, same) = (starts_with_iff auth bearer_prefix).0 starts in
    let end = ap supplied_token (sym same) ∙ supplied_token-append token in
    sym same ∙ ap (λ t. bearer_prefix ++ t) (sym end)

-- A console request passes exactly where a token is set and the header Authorization is "Bearer "
-- and the token: otherwise it is refused with 401 or 503, and the world stays as it is.
pub require_admin-passes :
    (token : String) (next : Request → M Response) (r : Request) (w : World)
    → ((token ≢ "")
        × (r.header "Authorization" ≡ "Bearer " ++ token)
        × (require_admin token next r w ≡ next r w))
      ⊎ (((token ≢ "") → r.header "Authorization" ≢ "Bearer " ++ token)
          × ((require_admin token next r w).1 ≡ w)
          × (((require_admin token next r w).0.status ≡ 401)
              ⊎ ((require_admin token next r w).0.status ≡ 503)))
unfolding require_admin
require_admin-passes token next r w =
    by_tests (token == "") (is_bearer (r.header "Authorization"))
      (supplied_token (r.header "Authorization") == token) refl refl refl
  where
    by_tests :
        (a b c : Bool)
        → (token == "") ≡ a
        → is_bearer (r.header "Authorization") ≡ b
        → (supplied_token (r.header "Authorization") == token) ≡ c
        → ((token ≢ "")
            × (r.header "Authorization" ≡ "Bearer " ++ token)
            × (require_admin token next r w ≡ next r w))
          ⊎ (((token ≢ "") → r.header "Authorization" ≢ "Bearer " ++ token)
              × ((require_admin token next r w).1 ≡ w)
              × (((require_admin token next r w).0.status ≡ 401)
                  ⊎ ((require_admin token next r w).0.status ≡ 503)))
    by_tests true b c one two three =
        rw one (inr ((λ set given. set (ground arith)), refl, inr refl))
    by_tests false false c one two three =
        rw (one, two)
          (inr (
            (λ set given.
                let bearer = is_bearer-append token set in
                let passes : is_bearer (r.header "Authorization") ≡ true = rw given bearer in cc),
            refl,
            inl refl,
          ))
    by_tests false true false one two three =
        rw (one, two, three)
          (inr (
            (λ set given.
                let rest = supplied_token-append token in
                let same : supplied_token (r.header "Authorization") ≡ token = rw given rest in
                ground arith),
            refl,
            inl refl,
          ))
    by_tests false true true one two three =
        let whole = bearer_of_test (r.header "Authorization") two in
        let same : supplied_token (r.header "Authorization") ≡ token = ground arith in
        inl (ground arith, whole ∙ ap (λ t. "Bearer " ++ t) same, rw (one, two, three))
