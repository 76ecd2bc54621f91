-- ===== src/Handlers/History/Delete.antt =====
-- A deletion takes the entry that is asked for out of the log, and nothing else.
use sync_bridge.Base.{
  ◌≡◌, refl, sym, ap, subst, ◌∙◌, ◌≢◌, ◌⊎◌, inl, inr, none, some, [], ◌∷◌, arith, if◌then◌else◌,
  Bool-cases, Option-cases, length, ◌==◌,
}
use sync_bridge.Base.Int.{ℤ, eqb_ℤ}
use sync_bridge.Text.{Bytes, str, contains}
use sync_bridge.Text.Number.{parse_int}
use sync_bridge.Errors.{GoError, error_text, other}
use sync_bridge.Errors.Unique.{handle_db_error-Classified}
use sync_bridge.Sql.Table.{Table, find, remove, select, find-remove}
use sync_bridge.Sql.Schema.{HistoryRow, Tables}
use sync_bridge.Sql.Statement.{delete_history, effect, has_id}
use sync_bridge.Sql.Engine.{Result, ok, err, Done, IsSqlite, Executed}
use sync_bridge.Handlers.Host.{Host}
use sync_bridge.Handlers.Response.{Reply, status}
use sync_bridge.Handlers.History.{send_db_error, deleted_reply, delete_by, delete_history_handler}

module _ {R : Type 0} where
  remove-absent :
      (id : ℤ) (t : Table R) → length (select (has_id id) t) ≡ 0 → remove (has_id id) t ≡ t
  unfolding select remove
  remove-absent id [] h = refl
  remove-absent id ((j, r) ∷ t) h = ground (arith, remove-absent id t)

  find-present :
      (id : ℤ) (t : Table R) → length (select (has_id id) t) ≢ 0 → (r : R) × (find id t ≡ some r)
  unfolding select find
  find-present id [] h = absurd (h refl)
  find-present id ((j, r) ∷ t) h = elim (Bool-cases (eqb_ℤ j id)) [
    | inl same ↦ (r, rw same)
    | inr different ↦
        let (q, e) = find-present id t (λ k. h (rw different k)) in (q, rw different e)
  ]

module _ (h : Host) where
  open h use {engine}

  -- The entry `id` was in the log and is not any more; the others are what they were.
  pub record Removed (id : ℤ) (s s' : engine.State) : Type 0 where
    pub row : HistoryRow
    pub found : find id (engine.tables s).sync_history ≡ some row
    pub entries :
        (i : ℤ)
        → find i (engine.tables s').sync_history
          ≡ (if eqb_ℤ id i then none else find i (engine.tables s).sync_history)
    pub targets_eq : (engine.tables s').targets ≡ (engine.tables s).targets

  abbrev pub Deleted : ℤ → engine.State → Reply × engine.State → Type 0
  Deleted id s (reply, s') =
      ((engine.tables s' ≡ engine.tables s) × (status reply ≢ 204)) ⊎ Removed id s s'

  send_db_error-ne-204 : (e : GoError) → status (send_db_error h e) ≢ 204
  send_db_error-ne-204 e =
      let (conflict, internal, _) = handle_db_error-Classified h.unicode e in
      elim (Bool-cases (contains (error_text e) (str "UNIQUE constraint failed"))) [
        | inl u ↦ omega (arith, conflict u)
        | inr n ↦ let (code, _) = internal n in omega (arith, code)
      ]

  -- Where no row was deleted, the answer is not 204.
  deleted_reply-none : (d : Done) → d.affected ≡ 0 → status (deleted_reply h (ok d)) ≢ 204
  unfolding deleted_reply
  deleted_reply-none d none_deleted = elim (Option-cases d.affected_error) [
    | inl counted ↦ rw (counted, deleted_reply, none_deleted) (omega arith)
    | inr (text, e) ↦ rw (e, deleted_reply) (send_db_error-ne-204 (other text))
  ]

module _ (h : Host) (sql : IsSqlite h.engine) where
  open h use {engine}

  Executed-Deleted :
      (id : ℤ) (d : Done) (s s' : engine.State)
      → Executed engine (delete_history id) d s s'
      → Deleted h id s (deleted_reply h (ok d), s')
  unfolding effect
  Executed-Deleted id d s s' x =
      let log = (engine.tables s).sync_history in
      elim (Bool-cases (length (select (has_id id) log) == 0)) [
        | inl nothing ↦
            let gone = remove-absent id log (ground arith) in
            let kept = ap (λ l. record (engine.tables s) { sync_history = l }) gone in
            inl (x.tables_eq ∙ kept, deleted_reply-none h d (ground (arith, x.count)))
        | inr something ↦
            let (row, found) = find-present id log (ground arith) in
            inr (record {
              row = row;
              found = found;
              entries = λ i.
                  ap (λ (t : Tables). find i t.sync_history) x.tables_eq ∙ find-remove i id log;
              targets_eq = ap (λ (t : Tables). t.targets) x.tables_eq;
            })
      ]

  delete_result-Deleted :
      (id : ℤ) (r : Result Done) (s s' : engine.State)
      → engine.saved s ≡ none
      → engine.exec (delete_history id) s ≡ (r, s')
      → Deleted h id s (deleted_reply h r, s')
  unfolding deleted_reply
  delete_result-Deleted id (ok d) s s' idle e =
      Executed-Deleted id d s s' (sql.exec_ok (delete_history id) s s' d e)
  delete_result-Deleted id (err text) s s' idle e =
      elim (sql.exec_err (delete_history id) s s' text e) [
        | inl same ↦ inl (same.tables_eq, send_db_error-ne-204 h (other text))
        | inr back ↦ absurd (cc (back.pending, idle))
      ]

  -- `DeleteHistoryHandler` with an `id` that parses, outside a transaction: it answers other than
  -- 204 and changes nothing, or the entry `id` was in the log and is removed. No other entry and no
  -- target table changes.
  pub delete_history_handler-Deleted :
      (id_str : Bytes) (id : ℤ) (s : engine.State)
      → parse_int id_str ≡ some id
      → engine.saved s ≡ none
      → Deleted h id s (delete_history_handler h id_str s)
  unfolding delete_history_handler delete_by
  delete_history_handler-Deleted id_str id s e idle =
      let r = engine.exec (delete_history id) s in
      subst (λ o. Deleted h id s (delete_by h o s)) (sym e)
        (delete_result-Deleted id r.0 s r.1 idle refl)
