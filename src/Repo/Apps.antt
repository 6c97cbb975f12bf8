-- ===== src/Repo/Apps.antt =====
-- internal/repository/app_repo.go, the table `apps`.
use abmcy_core_payment.Base.{
  ℕ, String, Bool, true, not, ◌&&◌, Option, none, some, List, ◌∷◌, ◌==◌, ◌||◌, if◌then◌else◌, any,
  find, update,
}
use abmcy_core_payment.Model.{App, kyc_none, kyc_verified}
use abmcy_core_payment.World.{
  Env, Result, ok, err, app_not_found, unique_violation, check_violation, M, statement,
}

-- scanApp: no row is ErrAppNotFound.
abbrev pub scan_app : Option App → Result App
scan_app none = err app_not_found
scan_app (some a) = ok a

-- `id` is the primary key and `api_key_hash` is UNIQUE.
abbrev pub clashes_app : App → App → Bool
clashes_app a b = a.id == b.id || a.api_key_hash == b.api_key_hash

-- The row of an INSERT, with the defaults of migrations 001 and 004.
abbrev pub new_app : String → ℕ → String → String → String → Option String → App
new_app id now name api_key_hash hmac_secret_hash default_callback_url = record {
  id = id;
  name = name;
  api_key_hash = api_key_hash;
  hmac_secret_hash = hmac_secret_hash;
  default_callback_url = default_callback_url;
  is_active = true;
  kyc_level = kyc_none;
  created_at = now;
  updated_at = now;
}

unfoldable pub insert_app : App → M (Result App)
insert_app a w =
    if any (clashes_app a) w.apps
    then (err unique_violation, w)
    else (ok a, record w { apps = a ∷ w.apps })

-- UPDATE apps SET … WHERE id = $1, where `valid` is the CHECK on the new value.
unfoldable pub set_app_where : Bool → String → (App → App) → M (Result (Unit {0}))
set_app_where valid id f w =
    if any (λ (a : App). a.id == id) w.apps && not valid
    then (err check_violation, w)
    else (ok tt, record w { apps = update (λ a. a.id == id) f w.apps })

module _ (e : Env) where
  -- ORDER BY created_at DESC
  unfoldable pub list_apps : M (Result (List App))
  list_apps w = statement e (λ v. (ok ((e.arrange w.tick).apps_by_age v.apps), v)) w

  unfoldable pub create : String → String → String → Option String → M (Result App)
  unfolding insert_app
  create name api_key_hash hmac_secret_hash default_callback_url w =
      statement e
        (insert_app (
          new_app (e.gen_uuid w.tick) (e.now w.tick) name api_key_hash hmac_secret_hash
            default_callback_url))
        w

  -- Only an active app is found by its key.
  unfoldable pub find_by_key_hash : String → M (Result App)
  find_by_key_hash key_hash =
      statement e λ w. (scan_app (find (λ a. a.api_key_hash == key_hash && a.is_active) w.apps), w)

  -- Does not look at `is_active`. The id is spelt as the database writes it.
  unfoldable pub find_by_id : String → M (Result App)
  find_by_id id = statement e λ w. (scan_app (find (λ a. a.id == id) w.apps), w)

  unfoldable pub set_active : String → Bool → M (Result (Unit {0}))
  unfolding set_app_where
  set_active id active w =
      let now = e.now w.tick in
      statement e (set_app_where true id (λ a. record a { is_active = active; updated_at = now })) w

  -- kyc_level has a CHECK.
  unfoldable pub set_kyc_level : String → String → M (Result (Unit {0}))
  unfolding set_app_where
  set_kyc_level id level w =
      let now = e.now w.tick in
      statement e
        (set_app_where (level == kyc_none || level == kyc_verified) id
          (λ a. record a { kyc_level = level; updated_at = now }))
        w
