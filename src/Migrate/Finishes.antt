-- ===== src/Migrate/Finishes.antt =====
-- A run that the database does not disturb gets to its end.
use abmcy_core_payment.Base.{
  ℕ, ◌+◌, String, true, none, some, List, [], ◌∷◌, ◌≡◌, ◌≢◌, refl, sym, ap, ◌∙◌, subst,
  is_not_empty,
}
use abmcy_core_payment.World.{fine}
use abmcy_core_payment.Migrate.{
  Database, Session, Exit, fatal, finished, Tool, directory, commit, record_name, execute, begin,
  apply_file, apply_all, with_files, connected, migrate,
}
use abmcy_core_payment.Migrate.Replay.{
  is_applied, with_file, Runs, Progress, ended, stopped, skips, applies, in_order,
}

-- The action ends without an error, with the database `db`.
record EndsWith {S : Type 0} (r : Exit × Session S) (db : Database S) : Type 0 where
  well : r.0 ≡ finished
  with_db : r.1.db ≡ db

module _ {S : Type 0} (t : Tool S) (calm : (n : ℕ) → t.fault n ≡ fine) where
  apply_file_skipped :
      (f : String) (s : Session S) → is_applied f s.db ≡ true → EndsWith (apply_file t f s) s.db
  unfolding apply_file
  apply_file_skipped f s there = record {
    well = rw (calm s.tick, there);
    with_db = rw (calm s.tick, there);
  }

  apply_file_run :
      (f : String) (s : Session S) (schema : S)
      → Runs t f s.db schema
      → EndsWith (apply_file t f s) (with_file f schema s.db)
  unfolding apply_file begin execute record_name commit
  apply_file_run f s schema r =
      let one = calm s.tick in
      let two = calm (s.tick + 1) in
      let three = calm (s.tick + 1 + 1) in
      let four = calm (s.tick + 1 + 1 + 1) in
      let five = calm (s.tick + 1 + 1 + 1 + 1) in
      let new = r.is_new in
      let found = r.is_read in
      let run = r.is_run in
      record {
        well = rw (one, new, found, two, three, run, four, new, five);
        with_db = rw (one, new, found, two, three, run, four, new, five);
      }

  apply_all_step :
      (f : String) (fs : List String) (s : Session S) (db db' : Database S)
      → EndsWith (apply_file t f s) db
      → ((v : Session S) → v.db ≡ db → EndsWith (apply_all t fs v) db')
      → EndsWith (apply_all t (f ∷ fs) s) db'
  unfolding apply_all
  apply_all_step f fs s db db' h k = by_exit (apply_file t f s) h
    where
      by_exit :
          (r : Exit × Session S)
          → EndsWith r db
          → (let u : Exit × Session S = elim r.0 [
            | fatal message ↦ (fatal message, r.1)
            | finished ↦ apply_all t fs r.1
          ] in
              EndsWith u db')
      by_exit (fatal m, v) h = let ends = h.well in cc
      by_exit (finished, v) h = k v h.with_db

  apply_none : {db : Database S} (s : Session S) → s.db ≡ db → EndsWith (apply_all t [] s) db
  unfolding apply_all
  apply_none s same = record { well = refl; with_db = same }

  apply_all-EndsWith :
      {fs : List String} {db db' : Database S} {x : Exit}
      → Progress t fs db x db'
      → x ≡ finished
      → (s : Session S) → s.db ≡ db
      → EndsWith (apply_all t fs s) db'
  apply_all-EndsWith ended good s same = apply_none s same
  apply_all-EndsWith (stopped m) good s same = cc
  apply_all-EndsWith {db' = db'} (skips {f = f} {fs = fs} there p) good s same =
      apply_all_step f fs s s.db db' (apply_file_skipped f s (rw same there))
        λ v eq. apply_all-EndsWith p good v (eq ∙ same)
  apply_all-EndsWith {db' = db'} (applies {f = f} {fs = fs} {schema = schema} r p) good s same =
      apply_all_step f fs s (with_file f schema s.db) db'
        (apply_file_run f s schema (subst (λ d. Runs t f d schema) (sym same) r))
        λ v eq. apply_all-EndsWith p good v (eq ∙ ap (with_file f schema) same)

  -- Where the database answers every statement, a run that can get through the files gets through
  -- them: it ends without an error and with the database that the files make, in the order of their
  -- names.
  pub migrate-finishes :
      (files : List String) (s : Session S) {db : Database S}
      → t.getenv "DATABASE_URL" ≢ ""
      → t.open_pool (t.getenv "DATABASE_URL") ≡ none
      → t.glob (directory t.argument) ≡ some files
      → Progress t (in_order (some files)) s.db finished db
      → ((migrate t s).0 ≡ finished) × ((migrate t s).1.db ≡ db)
  unfolding migrate connected with_files
  migrate-finishes files s url pool found path =
      let given = is_not_empty (t.getenv "DATABASE_URL") url in
      let ends = apply_all-EndsWith path refl (record s { tick = s.tick + 1 }) refl in
      (
        rw (given, pool, calm s.tick, found) ends.well,
        rw (given, pool, calm s.tick, found) ends.with_db,
      )
