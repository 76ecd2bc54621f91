-- ===== src/Handlers/History/Stats.antt =====
-- The total of the statistics.
use sync_bridge.Base.{ℕ, suc, ◌+◌, ◌≡◌, refl, ap, ◌∙◌, true, List, [], ◌∷◌, arith, length, map}
use sync_bridge.Text.{Bytes}
use sync_bridge.Sql.Table.{Table}
use sync_bridge.Sql.Schema.{HistoryRow}
use sync_bridge.Sql.Query.{scanned, Cursor, count_by_status, count_in, group_by_status}
use sync_bridge.Sql.Engine.{ok, IsSqlite}
use sync_bridge.Handlers.Host.{Host}
use sync_bridge.Handlers.Response.{StatsData, Reply, sent, stats_body}
use sync_bridge.Handlers.History.{no_stats, count_status, count_rows, stats_reply, stats_handler}

unfoldable sum_counts : List (Bytes × ℕ) → ℕ
sum_counts [] = 0
sum_counts ((_, n) ∷ groups) = n + sum_counts groups

sum_counts-count_in :
    (st : Bytes) (groups : List (Bytes × ℕ))
    → sum_counts (count_in st groups) ≡ suc (sum_counts groups)
unfolding sum_counts count_in
sum_counts-count_in st [] = omega arith
sum_counts-count_in st ((s, n) ∷ groups) = ground (arith, sum_counts-count_in st groups)

-- Each entry is in one group.
sum_counts-group_by_status : (t : Table HistoryRow) → sum_counts (group_by_status t) ≡ length t
unfolding sum_counts group_by_status
sum_counts-group_by_status [] = refl
sum_counts-group_by_status ((_, r) ∷ t) =
    sum_counts-count_in r.status (group_by_status t) ∙ ap suc (sum_counts-group_by_status t)

module _ (h : Host) where
  open h use {engine}

  total-count_status :
      (d : StatsData) (st : Bytes) (n : ℕ) → (count_status h d (st, n)).total ≡ d.total + n
  unfolding count_status
  total-count_status d st n = ground arith

  -- The answer is 200 with a total.
  abbrev pub HasTotal : ℕ → Reply → Type 0
  HasTotal n reply =
      (d : StatsData) × (reply ≡ sent (record { status = 200; body = stats_body d }))
      × (d.total ≡ n)

  count_rows-HasTotal :
      (d : StatsData) (groups : List (Bytes × ℕ))
      → HasTotal (d.total + sum_counts groups) (count_rows h d (map scanned groups))
  unfolding count_rows sum_counts
  count_rows-HasTotal d [] = (d, refl, omega arith)
  count_rows-HasTotal d ((st, n) ∷ groups) =
      let (e, reply, total) = count_rows-HasTotal (count_status h d (st, n)) groups in
      (e, reply, omega (arith, total, total-count_status d st n))

module _ (h : Host) (sql : IsSqlite h.engine) where
  open h use {engine}

  -- If the query of `StatsHandler` succeeds and all its groups are read, the answer is 200 and its
  -- total is the number of entries in the log, whatever their statuses are.
  pub stats_handler-total :
      (s s' : engine.State) (c : Cursor (Bytes × ℕ))
      → engine.query count_by_status s ≡ (ok c, s')
      → c.complete ≡ true
      → HasTotal h (length (engine.tables s).sync_history) (stats_handler h s).0
  unfolding stats_handler stats_reply
  stats_handler-total s s' c e complete =
      let log = (engine.tables s).sync_history in
      let (d, reply, total) = count_rows-HasTotal h no_stats (group_by_status log) in
      let rows = sql.query_ok count_by_status s s' c e complete in
      (
        d,
        ap (λ out. stats_reply h out.0) e ∙ ap (count_rows h no_stats) rows ∙ reply,
        omega (arith, total, sum_counts-group_by_status log),
      )
