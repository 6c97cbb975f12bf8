-- ===== src/Migrate/Replay.antt =====
-- What a run of the tool does to the database, as a relation, and that every run is of it.
use abmcy_core_payment.Base.{
  ◌+◌, String, Bool, true, false, ◌||◌, Option, none, some, List, [], ◌∷◌, ◌++◌, ◌≡◌, refl, ◌==◌,
  any, if◌then◌else◌,
}
use abmcy_core_payment.World.{Fault, fine, refused, reply_lost}
use abmcy_core_payment.Orders.Sort.{sort_by}
use abmcy_core_payment.Migrate.{
  leb_text, base, Database, Session, Exit, fatal, finished, Tool, fails, stop, count, committed,
  commit, record_name, executed, execute, begin, read, checked, apply_file, apply_all, directory,
  with_files, connected, migrate,
}

-- The name of the file is in the table.
abbrev pub is_applied : {S : Type 0} → String → Database S → Bool
is_applied f db = any (λ n. n == base f) db.applied

abbrev pub with_file : {S : Type 0} → String → S → Database S → Database S
with_file f schema db = record { schema = schema; applied = db.applied ++ base f ∷ [] }

-- The files that a run goes through, in the order of their names.
abbrev pub in_order : Option (List String) → List String
in_order none = []
in_order (some files) = sort_by leb_text files

module _ {S : Type 0} (t : Tool S) where
  -- The SQL of `f` runs on the schema of `db`, whose table does not have the name of `f`.
  pub record Runs (f : String) (db : Database S) (schema : S) : Type 0 where
    pub is_new : is_applied f db ≡ false
    pub sql : String
    pub is_read : t.read_file f ≡ some sql
    pub is_run : t.exec sql db.schema ≡ some schema

  -- What becomes of the database with one file.
  pub data FileStep (f : String) (db : Database S) : Exit → Database S → Type 0 where
    unchanged : (m : String) → FileStep f db (fatal m) db
    skipped : is_applied f db ≡ true → FileStep f db finished db
    applied : (x : Exit) {schema : S} → Runs f db schema → FileStep f db x (with_file f schema db)

  -- What becomes of the database with a list of files: they are gone through in order; a file whose
  -- name is in the table is skipped; of another one the schema and the name are changed together; and
  -- only a fatal error stops before the end.
  pub data Progress : List String → Database S → Exit → Database S → Type 0 where
    ended : {db : Database S} → Progress [] db finished db
    stopped : {fs : List String} {db : Database S} (m : String) → Progress fs db (fatal m) db
    skips :
        {f : String} {fs : List String} {db db' : Database S} {x : Exit}
        → is_applied f db ≡ true
        → Progress fs db x db'
        → Progress (f ∷ fs) db x db'
    applies :
        {f : String} {fs : List String} {db db' : Database S} {x : Exit} {schema : S}
        → Runs f db schema
        → Progress fs (with_file f schema db) x db'
        → Progress (f ∷ fs) db x db'

  -- The outcome of an action on one file, from a session with the database `db`.
  record IsFileStep (f : String) (db : Database S) (r : Exit × Session S) : Type 0 where
    step : FileStep f db r.0 r.1.db

  IsFileStep-if :
      {f : String} {db : Database S} (b : Bool) {x y : Exit × Session S}
      → (b ≡ true → IsFileStep f db x)
      → (b ≡ false → IsFileStep f db y)
      → IsFileStep f db (if b then x else y)
  IsFileStep-if true h k = h refl
  IsFileStep-if false h k = k refl

  IsFileStep-stop : (f m : String) (s : Session S) → IsFileStep f s.db (stop t m (count t s))
  IsFileStep-stop f m s = record { step = unchanged m }

  committed-IsFileStep :
      (x : Fault) (f : String) (s : Session S) (schema : S)
      → Runs f s.db schema
      → IsFileStep f s.db (committed t x f (with_file f schema s.db) s)
  committed-IsFileStep fine f s schema r = record { step = applied finished r }
  committed-IsFileStep (refused m) f s schema r = record { step = unchanged _ }
  committed-IsFileStep (reply_lost m) f s schema r = record { step = applied _ r }

  record_name-IsFileStep :
      (f : String) (s : Session S) (schema : S)
      → Runs f s.db schema
      → IsFileStep f s.db (record_name t f schema s)
  unfolding record_name commit
  record_name-IsFileStep f s schema r =
      IsFileStep-if (fails (t.fault s.tick) || is_applied f s.db) (λ _. IsFileStep-stop f _ s)
        λ _. committed-IsFileStep _ f (count t s) schema r

  executed-IsFileStep :
      (f sql : String) (s : Session S)
      → is_applied f s.db ≡ false
      → t.read_file f ≡ some sql
      → (o : Option S) → t.exec sql s.db.schema ≡ o
      → IsFileStep f s.db (executed t f o s)
  executed-IsFileStep f sql s new found none run = record { step = unchanged _ }
  executed-IsFileStep f sql s new found (some schema) run =
      record_name-IsFileStep f s schema
        (record { is_new = new; sql = sql; is_read = found; is_run = run })

  begin-IsFileStep :
      (f sql : String) (s : Session S)
      → is_applied f s.db ≡ false
      → t.read_file f ≡ some sql
      → IsFileStep f s.db (begin t f sql s)
  unfolding begin execute
  begin-IsFileStep f sql s new found =
      IsFileStep-if (fails (t.fault s.tick)) (λ _. IsFileStep-stop f _ s)
        λ _.
          IsFileStep-if (fails (t.fault (s.tick + 1))) (λ _. IsFileStep-stop f _ (count t s))
            λ _.
              executed-IsFileStep f sql (count t (count t s)) new found (t.exec sql s.db.schema)
                refl

  read-IsFileStep :
      (f : String) (s : Session S)
      → is_applied f s.db ≡ false
      → (o : Option String) → t.read_file f ≡ o
      → IsFileStep f s.db (read t f o s)
  read-IsFileStep f s new none found = record { step = unchanged _ }
  read-IsFileStep f s new (some sql) found = begin-IsFileStep f sql s new found

  checked-IsFileStep :
      (f : String) (s : Session S) (b : Bool)
      → is_applied f s.db ≡ b
      → IsFileStep f s.db (checked t f b s)
  checked-IsFileStep f s true there = record { step = skipped there }
  checked-IsFileStep f s false new = read-IsFileStep f s new (t.read_file f) refl

  apply_file-IsFileStep : (f : String) (s : Session S) → IsFileStep f s.db (apply_file t f s)
  unfolding apply_file
  apply_file-IsFileStep f s =
      IsFileStep-if (fails (t.fault s.tick)) (λ _. IsFileStep-stop f _ s)
        λ _. checked-IsFileStep f (count t s) (is_applied f s.db) refl

  after_step :
      (f : String) (fs : List String) {db db' db'' : Database S} {y : Exit}
      → FileStep f db finished db'
      → Progress fs db' y db''
      → Progress (f ∷ fs) db y db''
  after_step f fs (skipped there) p = skips there p
  after_step f fs (applied finished r) p = applies r p

  after_stop :
      (f : String) (fs : List String) {db db' : Database S} (m : String)
      → FileStep f db (fatal m) db'
      → Progress (f ∷ fs) db (fatal m) db'
  after_stop f fs m (unchanged _) = stopped m
  after_stop f fs m (applied x r) = applies r (stopped m)

  pub apply_all-Progress :
      (fs : List String) (s : Session S)
      → Progress fs s.db (apply_all t fs s).0 (apply_all t fs s).1.db
  unfolding apply_all
  apply_all-Progress [] s = ended
  apply_all-Progress (f ∷ fs) s =
      by_exit (apply_file t f s) (apply_file-IsFileStep f s).step (apply_all-Progress fs _)
    where
      by_exit :
          (r : Exit × Session S)
          → FileStep f s.db r.0 r.1.db
          → Progress fs r.1.db (apply_all t fs r.1).0 (apply_all t fs r.1).1.db
          → (let u : Exit × Session S = elim r.0 [
            | fatal message ↦ (fatal message, r.1)
            | finished ↦ apply_all t fs r.1
          ] in
              Progress (f ∷ fs) s.db u.0 u.1.db)
      by_exit (fatal m, v) one rest = after_stop f fs m one
      by_exit (finished, v) one rest = after_step f fs one rest

  with_files-Progress :
      (o : Option (List String)) (s : Session S)
      → Progress (in_order o) s.db (with_files t o s).0 (with_files t o s).1.db
  unfolding with_files
  with_files-Progress none s = stopped _
  with_files-Progress (some files) s = apply_all-Progress (sort_by leb_text files) s

  -- The outcome of the run, or of a part of it, from a session with the database `db`.
  record IsProgress (db : Database S) (r : Exit × Session S) : Type 0 where
    progress : Progress (in_order (t.glob (directory t.argument))) db r.0 r.1.db

  IsProgress-if :
      {db : Database S} (b : Bool) {x y : Exit × Session S}
      → IsProgress db x
      → IsProgress db y
      → IsProgress db (if b then x else y)
  IsProgress-if true h k = h
  IsProgress-if false h k = k

  connected-IsProgress : (o : Option String) (s : Session S) → IsProgress s.db (connected t o s)
  unfolding connected
  connected-IsProgress (some x) s = record { progress = stopped _ }
  connected-IsProgress none s =
      IsProgress-if (fails (t.fault s.tick)) (record { progress = stopped _ })
        (record { progress = with_files-Progress (t.glob (directory t.argument)) (count t s) })

  -- Whatever the database answers, a run goes through the files in the order of their names, skips
  -- those whose names are in the table, and changes the schema by the SQL of a file and the table by
  -- its name together or not at all; it ends without an error only after the last file.
  pub migrate-Progress :
      (s : Session S)
      → Progress (in_order (t.glob (directory t.argument))) s.db (migrate t s).0 (migrate t s).1.db
  unfolding migrate
  migrate-Progress s =
      (IsProgress-if (t.getenv "DATABASE_URL" == "") (record { progress = stopped _ })
        (connected-IsProgress (t.open_pool (t.getenv "DATABASE_URL")) s)).progress
