-- ===== src/Sql/Query.antt =====
-- The queries that the service issues, and what each answers.
use sync_bridge.Base.{
  ℕ, suc, ◌≡◌, Bool, true, false, Option, none, some, List, [], ◌∷◌, length, take, drop, map,
  if◌then◌else◌,
}
use sync_bridge.Base.Int.{ℤ, pos, negsuc, eqb_ℤ, ltb_ℤ, pos_part}
use sync_bridge.Text.{Bytes, eqb}
use sync_bridge.Sql.Table.{Table, find, select}
use sync_bridge.Sql.Schema.{EmployeeRow, HistoryRow, Tables}

pub data Query : Type 0 where
  -- internal/handlers/health.go
  select_one : Query
  -- internal/handlers/history.go; a status `none` is the query without a WHERE clause
  count_by_status : Query
  count_history : Option Bytes → Query
  list_history : Option Bytes → ℤ → ℤ → Query
  get_history : ℤ → Query
  get_status : ℤ → Query
  -- graph/schema.resolvers.go
  get_employee : ℤ → Query
  list_employees : ℤ → ℤ → Query
  search_employees : Bytes → ℤ → ℤ → Query

-- What `rows.Next` and `rows.Scan` go through: the iteration may end before the last row, which
-- only `rows.Err` would tell, and a scan may fail.
pub data Scan (A : Type 0) : Type 0 where
  scanned : A → Scan A
  scan_failed : Bytes → Scan A

pub record Cursor (A : Type 0) : Type 0 where
  pub rows : List (Scan A)
  pub complete : Bool

abbrev pub Answer : Query → Type 0
Answer select_one = Unit {0}
Answer count_by_status = Cursor (Bytes × ℕ)
Answer (count_history _) = ℕ
Answer (list_history _ _ _) = Cursor (ℤ × HistoryRow)
Answer (get_history _) = Option (ℤ × HistoryRow)
Answer (get_status _) = Option Bytes
Answer (get_employee _) = Cursor (ℤ × EmployeeRow)
Answer (list_employees _ _) = Cursor (ℤ × EmployeeRow)
Answer (search_employees _ _ _) = Cursor (ℤ × EmployeeRow)

-- `ORDER BY id` by insertion, upwards and downwards
abbrev before : Bool → ℤ → ℤ → Bool
before true i j = ltb_ℤ i j
before false i j = ltb_ℤ j i

module _ {R : Type 0} where
  place : Bool → ℤ × R → Table R → Table R
  place up x [] = x ∷ []
  place up x (y ∷ t) =
      let later = y ∷ place up x t in if before up x.0 y.0 then x ∷ (y ∷ t) else later

  unfoldable pub order_by_id : Bool → Table R → Table R
  unfolding place
  order_by_id up [] = []
  order_by_id up (x ∷ t) = place up x (order_by_id up t)

  -- `LIMIT ? OFFSET ?`: a negative limit is none, a negative offset is 0
  unfoldable pub page : ℤ → ℤ → Table R → Table R
  page (pos n) offset t = take n (drop (pos_part offset) t)
  page (negsuc n) offset t = drop (pos_part offset) t

-- The rows of `FROM sync_history WHERE status = ?`, or without the WHERE clause.
abbrev pub matches_status : Option Bytes → ℤ → HistoryRow → Bool
matches_status none _ r = true
matches_status (some st) _ r = eqb r.status st

abbrev pub with_id : ℤ → Option HistoryRow → Option (ℤ × HistoryRow)
with_id id none = none
with_id id (some r) = some (id, r)

abbrev pub status_of : Option HistoryRow → Option Bytes
status_of none = none
status_of (some r) = some r.status

-- `SELECT status, COUNT(*) … GROUP BY status`: a group for each status that occurs
unfoldable pub count_in : Bytes → List (Bytes × ℕ) → List (Bytes × ℕ)
count_in st [] = (st, 1) ∷ []
count_in st ((s, n) ∷ groups) =
    if eqb s st then (s, suc n) ∷ groups else (s, n) ∷ count_in st groups

unfoldable pub group_by_status : Table HistoryRow → List (Bytes × ℕ)
unfolding count_in
group_by_status [] = []
group_by_status ((_, r) ∷ t) = count_in r.status (group_by_status t)

unfoldable pub history_page : Option Bytes → ℤ → ℤ → Table HistoryRow → Table HistoryRow
history_page st limit offset t =
    page limit offset (order_by_id false (select (matches_status st) t))

-- All rows were read, and each scan went well.
abbrev AllRead : {A : Type 0} → Cursor A → List A → Type 0
AllRead c xs = c.complete ≡ true → c.rows ≡ map scanned xs

-- What a successful query has answered. The `strftime` of `created_at` and `updated_at` in the queries
-- of the log is taken to give the column as it stands: how times are written is not modelled. Which employees match a pattern is the database's.
abbrev pub Answers : (q : Query) → Tables → Answer q → Type 0
Answers select_one t a = Unit
Answers count_by_status t a = AllRead a (group_by_status t.sync_history)
Answers (count_history st) t a = a ≡ length (select (matches_status st) t.sync_history)
Answers (list_history st limit offset) t a = AllRead a (history_page st limit offset t.sync_history)
Answers (get_history id) t a = a ≡ with_id id (find id t.sync_history)
Answers (get_status id) t a = a ≡ status_of (find id t.sync_history)
Answers (get_employee id) t a = AllRead a (select (λ j _. eqb_ℤ j id) t.employees)
Answers (list_employees limit offset) t a =
    AllRead a (page limit offset (order_by_id true t.employees))
Answers (search_employees pattern limit offset) t a = Unit
