-- ===== src/Handlers/Log/Invariant.antt =====
-- What the steps of the log keep.
use sync_bridge.Base.{
  ◌≡◌, refl, sym, ap, subst, ◌∙◌, ◌≢◌, ◌⊎◌, inl, inr, Option, none, some, true, false, Bool-cases,
  if◌then◌else◌,
}
use mathlib.Core.Option.{some_inj}
use sync_bridge.Base.Int.{ℤ, eqb_ℤ, eqb_ℤ_iff}
use sync_bridge.Text.{Bytes, str, Unicode, to_upper, is_ascii}
use sync_bridge.Sql.Schema.{HistoryRow}
use sync_bridge.Sql.Statement.{pending_row}
use sync_bridge.Handlers.Log.{
  Log, put, ◌≗◌, failed_row, successful_row, retried_row, LogStep, enters, fails, succeeds, resets,
  deletes, LogSteps, stay, step,
}

-- The statuses that entries have.
abbrev pub IsStatus : Bytes → Type 0
IsStatus st = (st ≡ str "PENDING_RETRY") ⊎ ((st ≡ str "FAILED") ⊎ (st ≡ str "SUCCESSFUL"))

abbrev pub IsKnown : HistoryRow → Type 0
IsKnown r = IsStatus r.status

abbrev pub AllKnown : Log → Type 0
AllKnown l = (i : ℤ) (r : HistoryRow) → l i ≡ some r → IsKnown r

pub at_id :
    (id i : ℤ) (entry : Option HistoryRow) (l : Log) → eqb_ℤ id i ≡ true → put id entry l i ≡ entry
at_id id i entry l same = ap (λ b. if b then entry else l i) same

pub elsewhere :
    (id i : ℤ) (entry : Option HistoryRow) (l : Log) → eqb_ℤ id i ≡ false → put id entry l i ≡ l i
elsewhere id i entry l other = ap (λ b. if b then entry else l i) other

put-AllKnown :
    (id : ℤ) (row : HistoryRow) (l l' : Log)
    → IsKnown row
    → l' ≗ put id (some row) l
    → AllKnown l
    → AllKnown l'
put-AllKnown id row l l' known e all i r found = elim (Bool-cases (eqb_ℤ id i)) [
  | inl same ↦
      subst IsKnown (some_inj.0 (sym (at_id id i (some row) l same) ∙ sym (e i) ∙ found)) known
  | inr other ↦ all i r (sym (e i ∙ elsewhere id i (some row) l other) ∙ found)
]

LogStep-AllKnown :
    {u : Unicode} {D : ℤ → Type 0} {l l' : Log} → LogStep u D l l' → AllKnown l → AllKnown l'
LogStep-AllKnown {l = l} {l' = l'} (enters id payload now new e) all =
    put-AllKnown id (pending_row payload now) l l' (inl refl) e all
LogStep-AllKnown {l = l} {l' = l'} (fails id r reason now found p le e) all =
    put-AllKnown id (failed_row reason now r) l l' (inr (inl refl)) e all
LogStep-AllKnown {l = l} {l' = l'} (succeeds id r now found p e) all =
    put-AllKnown id (successful_row now r) l l' (inr (inr refl)) e all
LogStep-AllKnown {l = l} {l' = l'} (resets id r now found p e) all =
    put-AllKnown id (retried_row now r) l l' (inl refl) e all
LogStep-AllKnown {l = l} {l' = l'} (deletes id r may found e) all = λ i q at.
    elim (Bool-cases (eqb_ℤ id i)) [
      | inl same ↦ absurd (cc (e i, at_id id i none l same, at))
      | inr other ↦ all i q (sym (e i ∙ elsewhere id i none l other) ∙ at)
    ]

pub LogSteps-AllKnown :
    {u : Unicode} {D : ℤ → Type 0} {l l' : Log} → LogSteps u D l l' → AllKnown l → AllKnown l'
LogSteps-AllKnown (stay e) all = λ i r found. all i r (sym (e i) ∙ found)
LogSteps-AllKnown (step st more) all = LogSteps-AllKnown more (LogStep-AllKnown st all)

put-final :
    (id i : ℤ) (entry : Option HistoryRow) (r : HistoryRow) (l l' : Log)
    → l' ≗ put id entry l
    → l i ≡ some r
    → (eqb_ℤ id i ≡ true → ⊥)
    → l' i ≡ some r
put-final id i entry r l l' e found other = elim (Bool-cases (eqb_ℤ id i)) [
  | inl same ↦ absurd (other same)
  | inr differs ↦ e i ∙ elsewhere id i entry l differs ∙ found
]

-- An entry that a step changes is the one of its id, where that id has an entry.
same_entry :
    (id i : ℤ) (r q : HistoryRow) (l : Log)
    → l id ≡ some q
    → l i ≡ some r
    → eqb_ℤ id i ≡ true
    → q ≡ r
same_entry id i r q l there found same =
    some_inj.0 (sym there ∙ ap l ((eqb_ℤ_iff id i).0 same) ∙ found)

successful-ne-failed : (u : Unicode) → to_upper u (str "SUCCESSFUL") ≢ str "FAILED"
unfolding to_upper str is_ascii
successful-ne-failed u e = cc e

pending-ne-done :
    (r q : HistoryRow) → q ≡ r → q.status ≡ str "PENDING_RETRY" → r.status ≡ str "SUCCESSFUL" → ⊥
unfolding str
pending-ne-done r q same p done = cc (sym p ∙ ap (λ (x : HistoryRow). x.status) same ∙ done)

-- A successful entry is never changed: a step leaves it as it is, unless it may delete it.
pub LogStep-final :
    {u : Unicode} {D : ℤ → Type 0} {l l' : Log} (i : ℤ) (r : HistoryRow)
    → LogStep u D l l'
    → l i ≡ some r
    → r.status ≡ str "SUCCESSFUL"
    → (l' i ≡ some r) ⊎ D i
unfolding str
LogStep-final {u = u} {l = l} {l' = l'} i r (enters id payload now new e) found done = inl (
    put-final id i _ r l l' e found
      λ same. absurd (cc (sym new ∙ ap l ((eqb_ℤ_iff id i).0 same) ∙ found)))
LogStep-final {u = u} {l = l} {l' = l'} i r (fails id q reason now there p le e) found done = inl (
    put-final id i _ r l l' e found
      λ same. pending-ne-done r q (same_entry id i r q l there found same) p done)
LogStep-final {u = u} {l = l} {l' = l'} i r (succeeds id q now there p e) found done = inl (
    put-final id i _ r l l' e found
      λ same. pending-ne-done r q (same_entry id i r q l there found same) p done)
LogStep-final {u = u} {l = l} {l' = l'} i r (resets id q now there p e) found done = inl (
    put-final id i _ r l l' e found λ same. successful-ne-failed u (
      ap (to_upper u) (
        sym done ∙ ap (λ (x : HistoryRow). x.status) (sym (same_entry id i r q l there found same)))
      ∙ p))
LogStep-final {D = D} {l = l} {l' = l'} i r (deletes id q may there e) found done =
    elim (Bool-cases (eqb_ℤ id i)) [
      | inl same ↦ inr (subst D ((eqb_ℤ_iff id i).0 same) may)
      | inr other ↦ inl (e i ∙ elsewhere id i none l other ∙ found)
    ]
