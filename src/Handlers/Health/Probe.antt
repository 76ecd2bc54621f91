-- ===== src/Handlers/Health/Probe.antt =====
-- What the probe of the health endpoint leaves in the database.
use sync_bridge.Base.{◌≡◌, refl, ap, ◌∙◌, ◌⊎◌, inl, inr, false, none, [], ◌∷◌}
use sync_bridge.Base.Int.{ℤ}
use sync_bridge.Text.{Bytes, eqb}
use sync_bridge.Text.Laws.{eqb_refl}
use sync_bridge.Sql.Table.{Table, add, remove}
use sync_bridge.Sql.Schema.{CustomerRow, Tables}
use sync_bridge.Sql.Statement.{
  insert_probe, delete_probe, probe_row, has_email, effect, target_effect,
}
use sync_bridge.Sql.Query.{select_one}
use sync_bridge.Sql.Engine.{Result, ok, err, Done, IsSqlite}
use sync_bridge.Handlers.Host.{Host}
use sync_bridge.Handlers.Health.{is_ok, probe_email, clean_up, health_handler}

-- No customer has the email.
unfoldable pub IsUnused : Bytes → Table CustomerRow → Type 0
IsUnused email [] = Unit
IsUnused email ((_, r) ∷ t) = (eqb r.email email ≡ false) × IsUnused email t

remove-unused :
    (email : Bytes) (t : Table CustomerRow) → IsUnused email t → remove (has_email email) t ≡ t
unfolding IsUnused remove
remove-unused email [] u = refl
remove-unused email ((j, r) ∷ t) (other, u) =
    rw other (ap (λ t. (j, r) ∷ t) (remove-unused email t u))

remove-add :
    (id : ℤ) (email now : Bytes) (t : Table CustomerRow)
    → IsUnused email t
    → remove (has_email email) (add id (probe_row email now) t) ≡ t
unfolding IsUnused remove add
remove-add id email now [] u = rw eqb_refl refl
remove-add id email now ((j, r) ∷ t) (other, u) =
    rw other (ap (λ t. (j, r) ∷ t) (remove-add id email now t u))

module _ (h : Host) (sql : IsSqlite h.engine) where
  open h use {engine}

  abbrev with_customers : Tables → Table CustomerRow → Tables
  with_customers t c = record t { targets = record t.targets { customers = c } }

  -- The tables with one customer more.
  abbrev with_probe : Bytes → ℤ → Bytes → Tables → Tables
  with_probe email id now t = record t {
    targets = record t.targets { customers = add id (probe_row email now) t.customers };
  }

  -- The tables are what they were, or the probe stays since its DELETE has failed.
  abbrev pub LeavesProbe : Bytes → engine.State → engine.State → Type 0
  LeavesProbe email s s' =
      (engine.tables s' ≡ engine.tables s)
      ⊎ ((id : ℤ) × (now : Bytes) × (text : Bytes) × (s2 : engine.State) × (engine.tables s'
            ≡ with_probe email id now (engine.tables s))
          × (engine.exec (delete_probe email) s2 ≡ (err text, s')))

  deleted-LeavesProbe :
      (email now : Bytes) (id : ℤ) (r : Result Done) (s s2 s3 : engine.State)
      → IsUnused email (engine.tables s).customers
      → engine.saved s2 ≡ none
      → engine.tables s2 ≡ with_probe email id now (engine.tables s)
      → engine.exec (delete_probe email) s2 ≡ (r, s3)
      → LeavesProbe email s s3
  unfolding effect target_effect
  deleted-LeavesProbe email now id (ok d) s s2 s3 unused idle here e =
      let x = sql.exec_ok (delete_probe email) s2 s3 d e in
      inl (
        x.tables_eq
        ∙ ap (effect d.row_id (engine.clock s2) (delete_probe email)) here
        ∙ ap (with_customers (engine.tables s))
            (remove-add id email now (engine.tables s).customers unused))
  deleted-LeavesProbe email now id (err text) s s2 s3 unused idle here e =
      elim (sql.exec_err (delete_probe email) s2 s3 text e) [
        | inl same ↦ inr (id, now, text, s2, same.tables_eq ∙ here, e)
        | inr back ↦ absurd (cc (back.pending, idle))
      ]

  written-LeavesProbe :
      (u : Bytes) (r : Result Done) (s s1 s2 : engine.State)
      → IsUnused (probe_email h u) (engine.tables s).customers
      → engine.tables s1 ≡ engine.tables s
      → engine.saved s1 ≡ none
      → engine.exec (insert_probe (probe_email h u)) s1 ≡ (r, s2)
      → LeavesProbe (probe_email h u) s (clean_up h u (is_ok r) s2)
  unfolding clean_up effect target_effect
  written-LeavesProbe u (ok d) s s1 s2 unused same idle e =
      let email = probe_email h u in
      let x = sql.exec_ok (insert_probe email) s1 s2 d e in
      deleted-LeavesProbe email (engine.clock s1) d.row_id _ s s2 _ unused (x.saved_eq ∙ idle)
        (x.tables_eq ∙ ap (with_probe email d.row_id (engine.clock s1)) same) refl
  written-LeavesProbe u (err text) s s1 s2 unused same idle e =
      elim (sql.exec_err (insert_probe (probe_email h u)) s1 s2 text e) [
        | inl kept ↦ inl (kept.tables_eq ∙ same)
        | inr back ↦ absurd (cc (back.pending, idle))
      ]

  -- If no customer has the email of the probe, and no transaction is open, a health check leaves
  -- every table as it was, unless the DELETE of the probe has failed: then there is one customer
  -- more, the probe. The database behaves as `IsSqlite` says.
  pub health_handler-LeavesProbe :
      (uuid_text : Bytes) (s : engine.State)
      → IsUnused (probe_email h uuid_text) (engine.tables s).customers
      → engine.saved s ≡ none
      → LeavesProbe (probe_email h uuid_text) s (health_handler h uuid_text s).1
  unfolding health_handler
  health_handler-LeavesProbe u s unused idle =
      let same = sql.query_same select_one s in
      written-LeavesProbe u _ s (engine.query select_one s).1 _ unused same.tables_eq
        (same.saved_eq ∙ idle) refl
