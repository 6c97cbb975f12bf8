-- ===== src/Tests/Migrated.antt =====
-- Two files, on a database that logs the SQL that it runs.
use Prim.Native.String.{String}
use text.Mathlib.TextEquality.{eq_iff}
use abmcy_core_payment.Base.{String-discrete, none, some, List, [], ◌∷◌, ◌≡◌, ◌≢◌, refl, arith, any}
use abmcy_core_payment.World.{fine}
use abmcy_core_payment.Orders.Sort.{insert_by, sort_by}
use abmcy_core_payment.Migrate.{
  leb_codes, base, after_slash, Database, Session, finished, Tool, migrate,
}
use abmcy_core_payment.Migrate.Replay.{Progress, ended, applies, in_order, migrate-Progress}
use abmcy_core_payment.Migrate.Again.{migrate-again}
use abmcy_core_payment.Migrate.Finishes.{migrate-finishes}

abbrev database_url : String
database_url = "postgres://db"

abbrev two_files : Tool (List String)
two_files = record {
  getenv = λ _. database_url;
  argument = none;
  open_pool = λ _. none;
  glob = λ _. some ("m/2.sql" ∷ "m/1.sql" ∷ []);
  read_file = some;
  exec = λ sql log. some (sql ∷ log);
  fault = λ _. fine;
}

abbrev fresh_session : Session (List String)
fresh_session = record { db = record { schema = []; applied = [] }; printed = []; tick = 0 }

abbrev migrated : Database (List String)
migrated = record { schema = "m/2.sql" ∷ "m/1.sql" ∷ []; applied = "1.sql" ∷ "2.sql" ∷ [] }

in_name_order : in_order (some ("m/2.sql" ∷ "m/1.sql" ∷ [])) ≡ "m/1.sql" ∷ "m/2.sql" ∷ []
unfolding sort_by insert_by leb_codes
in_name_order = refl

both : Progress two_files ("m/1.sql" ∷ "m/2.sql" ∷ []) fresh_session.db finished migrated
unfolding base after_slash any String-discrete
both =
    applies (record { is_new = refl; sql = "m/1.sql"; is_read = refl; is_run = refl })
      (applies (record { is_new = refl; sql = "m/2.sql"; is_read = refl; is_run = refl }) ended)

migrate-Progress_example :
    Progress two_files
      (in_order (two_files.glob "migrations"))
      fresh_session.db
      (migrate two_files fresh_session).0
      (migrate two_files fresh_session).1.db
migrate-Progress_example = migrate-Progress two_files fresh_session

url_is_set : database_url ≢ ""
url_is_set = ground (arith, eq_iff "postgres://db" "")

migrate-finishes_example :
    ((migrate two_files fresh_session).0 ≡ finished)
    × ((migrate two_files fresh_session).1.db ≡ migrated)
migrate-finishes_example =
    migrate-finishes two_files (λ n. refl) ("m/2.sql" ∷ "m/1.sql" ∷ []) fresh_session url_is_set
      refl refl (rw in_name_order both)

migrate-again_example :
    (migrate two_files (migrate two_files fresh_session).1).1.db
    ≡ (migrate two_files fresh_session).1.db
migrate-again_example =
    migrate-again two_files two_files fresh_session (migrate two_files fresh_session).1
      (migrate-finishes_example.0) refl refl
