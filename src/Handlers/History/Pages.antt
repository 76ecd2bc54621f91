-- ===== src/Handlers/History/Pages.antt =====
-- A page of the listing is one of the chunks into which the matching entries are cut.
use sync_bridge.Base.{
  ℕ, suc, zero, ◌+◌, ◌*◌, ◌≤◌, ◌≡◌, refl, sym, ap, subst, ◌∙◌, true, false, Option, List, [], ◌∷◌,
  arith, length, map, take, drop,
}
use sync_bridge.Base.Int.{ℤ, pos, wrap64, max_int64, ◌-ℤ◌, ◌*ℤ◌, wrap64-eq_of_InInt64}
use sync_bridge.Text.{Bytes}
use sync_bridge.Sql.Table.{Table, select}
use sync_bridge.Sql.Schema.{HistoryRow, Tables}
use sync_bridge.Sql.Query.{
  scanned, Cursor, count_history, list_history, matches_status, order_by_id, page, history_page,
}
use sync_bridge.Sql.Engine.{Result, ok, IsSqlite}
use sync_bridge.Handlers.Host.{Host}
use sync_bridge.Handlers.Response.{ListHistoryData, Reply, sent, page_body}
use sync_bridge.Handlers.History.{
  Float64, query_number, status_filter, read_rows, page_data, page_reply, list_counted, cursor_rows,
  list_history_handler,
}
use sync_bridge.Handlers.History.Retry.{query-Same-at}

-- The chunk of number `p` of a list that is cut into chunks of `k`.
unfoldable pub chunk : {A : Type 0} → ℕ → ℕ → List A → List A
chunk k zero xs = take k xs
chunk k (suc p) xs = chunk k p (drop k xs)

suc-add : (m n : ℕ) → suc m + n ≡ suc (m + n)
suc-add m n = omega arith

zero-mul : (k : ℕ) → 0 * k ≡ 0
zero-mul k = omega arith

drop-nil : {A : Type 0} (n : ℕ) → drop {A = A} n [] ≡ []
drop-nil zero = refl
drop-nil (suc n) = refl

drop-add : {A : Type 0} (m n : ℕ) (xs : List A) → drop (m + n) xs ≡ drop n (drop m xs)
drop-add zero n xs = ap (λ i. drop i xs) (omega arith)
drop-add (suc m) n [] = drop-nil (suc m + n) ∙ sym (drop-nil n)
drop-add (suc m) n (x ∷ xs) = ap (λ i. drop i (x ∷ xs)) (suc-add m n) ∙ drop-add m n xs

suc-mul : (p k : ℕ) → suc p * k ≡ k + p * k
suc-mul p k = omega arith

take-drop : {A : Type 0} (k p : ℕ) (xs : List A) → take k (drop (p * k) xs) ≡ chunk k p xs
unfolding chunk
take-drop k zero xs = ap (λ n. take k (drop n xs)) (zero-mul k)
take-drop k (suc p) xs =
    ap (λ n. take k (drop n xs)) (suc-mul p k)
    ∙ ap (take k) (drop-add k (p * k) xs)
    ∙ take-drop k p (drop k xs)

-- The entries that the listing shows, the newest first.
abbrev pub entries : Option Bytes → Table HistoryRow → Table HistoryRow
entries st t = order_by_id false (select (matches_status st) t)

mul-bound : (p k : ℕ) → p ≤ p * suc k
mul-bound p k = omega arith

minus_one : (p : ℕ) → pos (suc p) -ℤ pos 1 ≡ pos p
unfolding ◌-ℤ◌
minus_one p = ground arith

times : (p k : ℕ) → pos p *ℤ pos k ≡ pos (p * k)
unfolding ◌*ℤ◌
times p k = ground arith

wrap64-minus_one : (p k : ℕ) → p * suc k ≤ max_int64 → wrap64 (pos (suc p) -ℤ pos 1) ≡ pos p
wrap64-minus_one p k fits =
    ap wrap64 (minus_one p) ∙ wrap64-eq_of_InInt64 (pos p) (omega (arith, fits, mul-bound p k))

wrap64-times : (p k : ℕ) → p * suc k ≤ max_int64 → wrap64 (pos p *ℤ pos (suc k)) ≡ pos (p * suc k)
wrap64-times p k fits = ap wrap64 (times p (suc k)) ∙ wrap64-eq_of_InInt64 (pos (p * suc k)) fits

module _ (h : Host) where
  open h use {engine}

  read_rows-scanned : (xs : Table HistoryRow) → read_rows h (map scanned xs) ≡ ok xs
  unfolding read_rows
  read_rows-scanned [] = refl
  read_rows-scanned (x ∷ xs) = rw (read_rows-scanned xs) refl

  -- The answer is 200 with that chunk, its place, and how many entries there are in all.
  abbrev pub ShowsChunk : ℕ → ℕ → ℕ → Table HistoryRow → Reply → Type 0
  ShowsChunk size p total all reply =
      (d : ListHistoryData) × (reply ≡ sent (record { status = 200; body = page_body d }))
      × (d.content ≡ chunk size p all)
      × (d.number_of_elements ≡ length (chunk size p all))
      × (d.offset ≡ pos (p * size))
      × (d.page_number ≡ pos p)
      × (d.page_size ≡ pos size)
      × (d.total_elements ≡ total)

module _ (h : Host) (sql : IsSqlite h.engine) (float : Float64) where
  open h use {engine}

  page_reply-ShowsChunk :
      (size p total : ℕ) (rows all : Table HistoryRow)
      → rows ≡ chunk size p all
      → ShowsChunk h size p total all
          (page_reply h float (pos p) (pos size) (pos (p * size)) total (ok rows))
  unfolding page_reply page_data
  page_reply-ShowsChunk size p total rows all e = (
    page_data h float (pos p) (pos size) (pos (p * size)) total rows,
    refl,
    e,
    ap length e,
    refl,
    refl,
    refl,
    refl,
  )

  list_counted-ShowsChunk :
      (st : Option Bytes) (size p total : ℕ) (s s' : engine.State) (c : Cursor (ℤ × HistoryRow))
      → engine.query (list_history st (pos size) (pos (p * size))) s ≡ (ok c, s')
      → c.complete ≡ true
      → ShowsChunk h size p total
          (entries st (engine.tables s).sync_history)
          (list_counted h float st (pos p) (pos size) (pos (p * size)) (ok total, s)).0
  unfolding list_counted history_page page
  list_counted-ShowsChunk st size p total s s' c e complete =
      let all = entries st (engine.tables s).sync_history in
      let rows = sql.query_ok (list_history st (pos size) (pos (p * size))) s s' c e complete in
      let read = ap (read_rows h) rows ∙ read_rows-scanned h (take size (drop (p * size) all)) in
      let here = λ (r : Result (Table HistoryRow)).
        ShowsChunk h size p total all
          (page_reply h float (pos p) (pos size) (pos (p * size)) total r) in
      subst
        (λ (out : Result (Cursor (ℤ × HistoryRow)) × engine.State).
          here (cursor_rows h float out.0))
        (sym e)
        (subst here (sym read) (
          page_reply-ShowsChunk size p total (take size (drop (p * size) all)) all
            (take-drop size p all)))

  -- If the page asked for is `suc p` and the size is not 0, and their product `p * size` fits into an
  -- int64, if the entries are counted, and the listing's query succeeds and is read to its end, then
  -- the answer is 200 and its content is the chunk of number `p` (from 0) of the entries with the
  -- status asked for, if any, the newest first, cut into chunks of that size; its total is how many
  -- entries have that status. The database behaves as `IsSqlite` says.
  pub list_history_handler-ShowsChunk :
      (page_str size_str status_str : Option Bytes) (p k total : ℕ) (s s1 s2 : engine.State)
      (c : Cursor (ℤ × HistoryRow))
      → query_number h page_str "1" (pos 1) ≡ pos (suc p)
      → query_number h size_str "15" (pos 15) ≡ pos (suc k)
      → p * suc k ≤ max_int64
      → let st = status_filter h status_str in
        engine.query (count_history st) s ≡ (ok total, s1)
        → engine.query (list_history st (pos (suc k)) (pos (p * suc k))) s1 ≡ (ok c, s2)
        → c.complete ≡ true
        → ShowsChunk h
            (suc k)
            p
            (length (select (matches_status st) (engine.tables s).sync_history))
            (entries st (engine.tables s).sync_history)
            (list_history_handler h float page_str size_str status_str s).0
  unfolding list_history_handler
  list_history_handler-ShowsChunk page_str size_str status_str p k total s s1 s2 c is_page is_size
        fits counted e complete =
      let st = status_filter h status_str in
      let place = λ (n m : ℤ) (q : Result ℕ × engine.State).
        list_counted h float st (wrap64 (n -ℤ pos 1)) m (wrap64 (wrap64 (n -ℤ pos 1) *ℤ m)) q in
      let same = query-Same-at h sql (count_history st) s (ok total) s1 counted in
      let shown = λ (out : Reply × engine.State).
        ShowsChunk h (suc k) p (length (select (matches_status st) (engine.tables s).sync_history))
          (entries st (engine.tables s).sync_history) out.0 in
      let run =
        ap
          (λ n. place n (query_number h size_str "15" (pos 15)) (engine.query (count_history st) s))
          is_page
        ∙ ap (λ m. place (pos (suc p)) m (engine.query (count_history st) s)) is_size
        ∙ ap (place (pos (suc p)) (pos (suc k))) counted
        ∙ ap
            (λ x.
              list_counted h float st x (pos (suc k)) (wrap64 (x *ℤ pos (suc k))) (ok total, s1))
            (wrap64-minus_one p k fits)
        ∙ ap (λ x. list_counted h float st (pos p) (pos (suc k)) x (ok total, s1))
            (wrap64-times p k fits) in
      let number = sql.query_ok (count_history st) s s1 total counted in
      subst shown (sym run) (
        subst
          (λ (t : Tables).
            ShowsChunk h (suc k) p
              (length (select (matches_status st) (engine.tables s).sync_history))
              (entries st t.sync_history)
              (list_counted h float st (pos p) (pos (suc k)) (pos (p * suc k)) (ok total, s1)).0)
          same.tables_eq
          (subst
            (λ n.
              ShowsChunk h (suc k) p n (entries st (engine.tables s1).sync_history)
                (list_counted h float st (pos p) (pos (suc k)) (pos (p * suc k)) (ok total, s1)).0)
            number (list_counted-ShowsChunk st (suc k) p total s1 s2 c e complete)))
