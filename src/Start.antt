-- ===== src/Start.antt =====
-- internal/db/db.go: opening the database. The logging and the limits of the pool are not modelled.
use sync_bridge.Base.{List, [], ◌∷◌, ◌++◌, none, some}
use sync_bridge.Text.{Bytes, str, strip_prefix}
use sync_bridge.Sql.Engine.{Result, ok, err}

-- The driver of database/sql: it opens a path, and runs a script on a connection.
pub record Driver : Type 1 where
  pub Db : Type 0
  pub open_path : Bytes → Result Db
  pub run : Bytes → Db → Result Db

-- a path with or without the scheme
unfoldable db_path : Bytes → Bytes
db_path url = elim (strip_prefix url (str "sqlite:")) [ none ↦ url | some path ↦ path ]

module _ (driver : Driver) (init_sql : Bytes) where
  open driver use {Db, open_path, run}

  unfoldable or_fail : Bytes → Result Db → Result Db
  or_fail prefix (ok db) = ok db
  or_fail prefix (err text) = err (prefix ++ text)

  -- each script, with what its error starts with
  unfoldable run_all : List (Bytes × Bytes) → Result Db → Result Db
  unfolding or_fail
  run_all [] r = r
  run_all ((prefix, script) ∷ more) (ok db) = run_all more (or_fail prefix (run script db))
  run_all ((prefix, script) ∷ more) (err text) = err text

  unfoldable init_db : Bytes → Result Db
  unfolding db_path run_all
  init_db url =
      run_all
        ((str "failed to enable foreign keys: ", str "PRAGMA foreign_keys = ON;")
          ∷ (str "failed to set busy timeout: ", str "PRAGMA busy_timeout = 5000;")
          ∷ (str "failed to execute migrations: ", init_sql)
          ∷ [])
        (or_fail (str "failed to open database: ") (open_path (db_path url)))
