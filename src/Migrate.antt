-- ===== src/Migrate.antt =====
-- cmd/migrate/main.go: the files of migrations/ are applied to the database, each in a transaction
-- with the record of its name. What a file's SQL does is a parameter.
pub mod Replay
pub mod Again
pub mod Finishes
use Prim.Native.Char.{code}
use Prim.Native.String.{◌++◌ as append}
use abmcy_core_payment.Base.{
  ℕ, ◌+◌, String, Bool, true, false, not, ◌||◌, Option, none, some, List, [], ◌∷◌, ◌++◌, ◌==◌, ltb,
  eqb, codes, any, if◌then◌else◌,
}
use abmcy_core_payment.World.{Fault, fine, refused, reply_lost}
use abmcy_core_payment.Orders.Sort.{sort_by}

-- Go's order of strings.
unfoldable pub leb_codes : List ℕ → List ℕ → Bool
leb_codes [] ys = true
leb_codes (x ∷ xs) [] = false
leb_codes (x ∷ xs) (y ∷ ys) =
    let rest = leb_codes xs ys in if ltb x y then true else if ltb y x then false else rest

abbrev pub leb_text : String → String → Bool
leb_text s t = leb_codes (codes s) (codes t)

-- `filepath.Base` of a path that does not end in a slash: what follows the last slash.
unfoldable pub after_slash : String → Option String
after_slash String.[] = none
after_slash (String.◌∷◌ c s) = elim (after_slash s) [
  | none ↦ if eqb (code c) b'/' then some s else none
  | some t ↦ some t
]

unfoldable pub base : String → String
unfolding after_slash
base path = elim (after_slash path) [ none ↦ path | some name ↦ name ]

-- The schema, and the names in schema_migrations, the oldest first.
pub record Database (S : Type 0) : Type 0 where
  pub schema : S
  pub applied : List String

-- `tick` counts the statements.
pub record Session (S : Type 0) : Type 0 where
  pub db : Database S
  pub printed : List String
  pub tick : ℕ

-- `log.Fatalf`, with its message less the text of the error, or the end of `main`; for one file, of
-- the body of the loop.
pub data Exit : Type 0 where
  fatal : String → Exit
  finished : Exit

-- What the tool asks of the process, the files and the database.
pub record Tool (S : Type 0) : Type 0 where
  pub getenv : String → String
  pub argument : Option String
  pub open_pool : String → Option String
  pub glob : String → Option (List String)
  pub read_file : String → Option String
  pub exec : String → S → Option S
  pub fault : ℕ → Fault

abbrev pub fails : Fault → Bool
fails fine = false
fails (refused _) = true
fails (reply_lost _) = true

-- The files of the directory, "migrations" unless another is named.
abbrev pub directory : Option String → String
directory none = "migrations"
directory (some d) = d

module _ {S : Type 0} (t : Tool S) where
  abbrev pub stop : String → Session S → Exit × Session S
  stop message s = (fatal message, s)

  abbrev pub count : Session S → Session S
  count s = record s { tick = s.tick + 1 }

  -- `tx.Commit`: the answer may be lost after the transaction was committed.
  abbrev pub committed : Fault → String → Database S → Session S → Exit × Session S
  committed fine f db s = (
    finished,
    record s { db = db; printed = append "applied " (base f) ∷ s.printed; tick = s.tick + 1 },
  )
  committed (refused _) f db s = stop (append "commit " (base f)) (count s)
  committed (reply_lost _) f db s = stop (append "commit " (base f)) (record (count s) { db = db })

  unfoldable pub commit : String → Database S → Session S → Exit × Session S
  commit f db s = committed (t.fault s.tick) f db s

  -- INSERT INTO schema_migrations, where `name` is the primary key.
  unfoldable pub record_name : String → S → Session S → Exit × Session S
  unfolding commit
  record_name f schema s =
      if fails (t.fault s.tick) || any (λ n. n == base f) s.db.applied
      then stop (append "record " (base f)) (count s)
      else commit f (record { schema = schema; applied = s.db.applied ++ base f ∷ [] }) (count s)

  abbrev pub executed : String → Option S → Session S → Exit × Session S
  executed f none s = stop (append "apply " (base f)) s
  executed f (some schema) s = record_name f schema s

  unfoldable pub execute : String → String → Session S → Exit × Session S
  unfolding record_name
  execute f sql s =
      if fails (t.fault s.tick)
      then stop (append "apply " (base f)) (count s)
      else executed f (t.exec sql s.db.schema) (count s)

  unfoldable pub begin : String → String → Session S → Exit × Session S
  unfolding execute
  begin f sql s =
      if fails (t.fault s.tick)
      then stop (append "begin " (base f)) (count s)
      else execute f sql (count s)

  abbrev pub read : String → Option String → Session S → Exit × Session S
  read f none s = stop (append "read " f) s
  read f (some sql) s = begin f sql s

  -- `exists`
  abbrev pub checked : String → Bool → Session S → Exit × Session S
  checked f true s = (finished, record s { printed = append "skip " (base f) ∷ s.printed })
  checked f false s = read f (t.read_file f) s

  -- The body of the loop.
  unfoldable pub apply_file : String → Session S → Exit × Session S
  unfolding begin
  apply_file f s =
      if fails (t.fault s.tick)
      then stop (append "check " (base f)) (count s)
      else checked f (any (λ n. n == base f) s.db.applied) (count s)

  unfoldable pub apply_all : List String → Session S → Exit × Session S
  unfolding apply_file
  apply_all [] s = (finished, s)
  apply_all (f ∷ fs) s =
      let (x, s') = apply_file f s in
      let rest = apply_all fs s' in elim x [ fatal message ↦ (fatal message, s') | finished ↦ rest ]

  unfoldable pub with_files : Option (List String) → Session S → Exit × Session S
  with_files none s = stop "glob" s
  with_files (some files) s = apply_all (sort_by leb_text files) s

  -- CREATE TABLE IF NOT EXISTS schema_migrations
  unfoldable pub connected : Option String → Session S → Exit × Session S
  unfolding with_files apply_all
  connected (some x) s = stop (append "connect: " x) s
  connected none s =
      if fails (t.fault s.tick)
      then stop "schema_migrations" (count s)
      else with_files (t.glob (directory t.argument)) (count s)

  unfoldable pub migrate : Session S → Exit × Session S
  unfolding connected
  migrate s =
      if t.getenv "DATABASE_URL" == ""
      then stop "DATABASE_URL is required" s
      else connected (t.open_pool (t.getenv "DATABASE_URL")) s
