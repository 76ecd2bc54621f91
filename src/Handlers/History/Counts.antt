-- ===== src/Handlers/History/Counts.antt =====
-- The counts of the statistics are those of the log, where its statuses are the service's.
use sync_bridge.Base.{
  ℕ, suc, ◌+◌, ◌≡◌, refl, sym, ap, ◌∙◌, Bool, true, false, ◌||◌, List, [], ◌∷◌, arith, map,
  if◌then◌else◌, Bool-cases, inl, inr,
}
use sync_bridge.Text.{Bytes, str, eqb, to_upper, is_ascii}
use sync_bridge.Text.Laws.{eqb_iff}
use sync_bridge.Sql.Table.{Table}
use sync_bridge.Sql.Schema.{HistoryRow}
use sync_bridge.Sql.Query.{scanned, Cursor, count_by_status, count_in, group_by_status}
use sync_bridge.Sql.Engine.{ok, IsSqlite}
use sync_bridge.Handlers.Host.{Host}
use sync_bridge.Handlers.Log.Invariant.{IsStatus, IsKnown}
use sync_bridge.Handlers.Response.{StatsData, Reply, sent, stats_body}
use sync_bridge.Handlers.History.{no_stats, count_status, count_rows, stats_reply, stats_handler}

-- How many entries have a status.
unfoldable pub count_of : Bytes → Table HistoryRow → ℕ
count_of st [] = 0
count_of st ((_, r) ∷ t) = let rest = count_of st t in if eqb r.status st then suc rest else rest

abbrev Groups : Type 0
Groups = List (Bytes × ℕ)

-- The count of a group, or `x` where there is none.
unfoldable count_or : ℕ → Bytes → Groups → ℕ
count_or x st [] = x
count_or x st ((s, n) ∷ g) = let rest = count_or x st g in if eqb s st then n else rest

unfoldable has_group : Bytes → Groups → Bool
has_group st [] = false
has_group st ((s, n) ∷ g) = eqb s st || has_group st g

-- No two groups have the same status.
unfoldable AreDistinct : Groups → Type 0
AreDistinct [] = Unit
AreDistinct ((s, n) ∷ g) = (has_group s g ≡ false) × AreDistinct g

unfoldable AreKnown : Groups → Type 0
AreKnown [] = Unit
AreKnown ((s, n) ∷ g) = IsStatus s × AreKnown g

has_group-count_in :
    (s st : Bytes) (g : Groups) → has_group s (count_in st g) ≡ (eqb st s || has_group s g)
unfolding has_group count_in
has_group-count_in s st [] = refl
has_group-count_in s st ((q, n) ∷ g) =
    ground (arith, has_group-count_in s st g, eqb_iff q st, eqb_iff q s, eqb_iff st s)

count_in-AreDistinct : (st : Bytes) (g : Groups) → AreDistinct g → AreDistinct (count_in st g)
unfolding AreDistinct count_in
count_in-AreDistinct st [] d = (unfold has_group in refl, tt)
count_in-AreDistinct st ((s, n) ∷ g) (new, d) = elim (Bool-cases (eqb s st)) [
  | inl same ↦ rw same (new, d)
  | inr other ↦ rw other (
    has_group-count_in s st g ∙ ground (arith, new, other, eqb_iff s st, eqb_iff st s),
    count_in-AreDistinct st g d,
  )
]

count_in-AreKnown : (st : Bytes) (g : Groups) → IsStatus st → AreKnown g → AreKnown (count_in st g)
unfolding AreKnown count_in
count_in-AreKnown st [] is k = (is, tt)
count_in-AreKnown st ((s, n) ∷ g) is (known, k) = elim (Bool-cases (eqb s st)) [
  | inl same ↦ rw same (known, k)
  | inr other ↦ rw other (known, count_in-AreKnown st g is k)
]

count_or-count_in :
    (st' st : Bytes) (g : Groups)
    → count_or 0 st' (count_in st g)
      ≡ (if eqb st st' then suc (count_or 0 st' g) else count_or 0 st' g)
unfolding count_or count_in
count_or-count_in st' st [] = refl
count_or-count_in st' st ((s, n) ∷ g) =
    ground (arith, count_or-count_in st' st g, eqb_iff s st, eqb_iff s st', eqb_iff st st')

count_or-group_by_status :
    (st : Bytes) (t : Table HistoryRow) → count_or 0 st (group_by_status t) ≡ count_of st t
unfolding count_or group_by_status count_of
count_or-group_by_status st [] = refl
count_or-group_by_status st ((_, r) ∷ t) =
    count_or-count_in st r.status (group_by_status t)
    ∙ ap (λ n. if eqb r.status st then suc n else n) (count_or-group_by_status st t)

group_by_status-AreDistinct : (t : Table HistoryRow) → AreDistinct (group_by_status t)
unfolding AreDistinct group_by_status
group_by_status-AreDistinct [] = tt
group_by_status-AreDistinct ((_, r) ∷ t) =
    count_in-AreDistinct r.status (group_by_status t) (group_by_status-AreDistinct t)

-- Each entry of the table has a status of the service.
abbrev AllRowsKnown : Table HistoryRow → Type 0
AllRowsKnown [] = Unit
AllRowsKnown ((_, r) ∷ t) = IsKnown r × AllRowsKnown t

group_by_status-AreKnown : (t : Table HistoryRow) → AllRowsKnown t → AreKnown (group_by_status t)
unfolding AreKnown group_by_status
group_by_status-AreKnown [] k = tt
group_by_status-AreKnown ((_, r) ∷ t) (known, k) =
    count_in-AreKnown r.status (group_by_status t) known (group_by_status-AreKnown t k)

count_or-absent : (x : ℕ) (st : Bytes) (g : Groups) → has_group st g ≡ false → count_or x st g ≡ x
unfolding has_group count_or
count_or-absent x st [] h = refl
count_or-absent x st ((s, n) ∷ g) h = ground (arith, count_or-absent x st g)

count_or-first :
    (s st : Bytes) (n x : ℕ) (g : Groups)
    → has_group s g ≡ false
    → count_or (if eqb s st then n else x) st g ≡ (if eqb s st then n else count_or x st g)
count_or-first s st n x g new = elim (Bool-cases (eqb s st)) [
  | inl same ↦
      rw same (count_or-absent n st g (ap (λ b. has_group b g) (sym ((eqb_iff s st).0 same)) ∙ new))
  | inr other ↦ rw other refl
]

module _ (h : Host) where
  open h use {engine}

  abbrev counted_group : StatsData → Bytes → ℕ → StatsData
  counted_group d st n = record {
    successful = if eqb st (str "SUCCESSFUL") then n else d.successful;
    failed = if eqb st (str "FAILED") then n else d.failed;
    pending_retry = if eqb st (str "PENDING_RETRY") then n else d.pending_retry;
    invalid = d.invalid;
    total = d.total + n;
  }

  count_status-known :
      (d : StatsData) (st : Bytes) (n : ℕ)
      → IsStatus st
      → count_status h d (st, n) ≡ counted_group d st n
  unfolding count_status to_upper is_ascii str eqb
  count_status-known d st n (inl e) = rw e refl
  count_status-known d st n (inr (inl e)) = rw e refl
  count_status-known d st n (inr (inr e)) = rw e refl

  -- The answer is 200 with the given counts, none of them of invalid entries.
  abbrev HasData : ℕ → ℕ → ℕ → Reply → Type 0
  HasData successful failed pending_retry reply =
      (d : StatsData) × (reply ≡ sent (record { status = 200; body = stats_body d }))
      × (d.successful ≡ successful)
      × (d.failed ≡ failed)
      × (d.pending_retry ≡ pending_retry)
      × (d.invalid ≡ 0)

  count_rows-HasData :
      (d : StatsData) (g : Groups)
      → d.invalid ≡ 0
      → AreDistinct g
      → AreKnown g
      → HasData
          (count_or d.successful (str "SUCCESSFUL") g)
          (count_or d.failed (str "FAILED") g)
          (count_or d.pending_retry (str "PENDING_RETRY") g)
          (count_rows h d (map scanned g))
  unfolding count_rows count_or AreDistinct AreKnown
  count_rows-HasData d [] e dis k = (d, refl, refl, refl, refl, e)
  count_rows-HasData d ((s, n) ∷ g) e (new, dis) (known, k) =
      let (d', reply, a, b, c, i) = count_rows-HasData (counted_group d s n) g e dis k in
      (
        d',
        ap (λ x. count_rows h x (map scanned g)) (count_status-known d s n known) ∙ reply,
        a ∙ count_or-first s (str "SUCCESSFUL") n d.successful g new,
        b ∙ count_or-first s (str "FAILED") n d.failed g new,
        c ∙ count_or-first s (str "PENDING_RETRY") n d.pending_retry g new,
        i,
      )

  -- The answer is 200 with how many entries of the log have each status.
  abbrev pub HasCounts : Table HistoryRow → Reply → Type 0
  HasCounts t =
      HasData (count_of (str "SUCCESSFUL") t) (count_of (str "FAILED") t)
        (count_of (str "PENDING_RETRY") t)

module _ (h : Host) (sql : IsSqlite h.engine) where
  open h use {engine}

  -- If each entry of the log has a status that the service gives it, the query of `StatsHandler`
  -- succeeds and all its groups are read, the answer is 200, its three counts are how many entries
  -- have that status, and it counts no invalid entry.
  pub stats_handler-HasCounts :
      (s s' : engine.State) (c : Cursor (Bytes × ℕ))
      → AllRowsKnown (engine.tables s).sync_history
      → engine.query count_by_status s ≡ (ok c, s')
      → c.complete ≡ true
      → HasCounts h (engine.tables s).sync_history (stats_handler h s).0
  unfolding stats_handler stats_reply
  stats_handler-HasCounts s s' c k e complete =
      let log = (engine.tables s).sync_history in
      let (d, reply, a, b, p, i) =
        count_rows-HasData h no_stats (group_by_status log) refl (group_by_status-AreDistinct log)
          (group_by_status-AreKnown log k) in
      (
        d,
        ap (λ out. stats_reply h out.0) e
            ∙ ap (count_rows h no_stats) (sql.query_ok count_by_status s s' c e complete)
            ∙ reply,
        a ∙ count_or-group_by_status (str "SUCCESSFUL") log,
        b ∙ count_or-group_by_status (str "FAILED") log,
        p ∙ count_or-group_by_status (str "PENDING_RETRY") log,
        i,
      )
