-- ===== src/Sql/Memory.antt =====
-- A database in memory that behaves as the interface asks, for examples. It refuses a customer
-- whose email another customer has and an employee whose id another has, and fails in no other
-- way; a search finds nothing.
use sync_bridge.Base.{
  ℕ, suc, ◌≡◌, refl, ap, sym, ◌∙◌, is_some, Option-cases, inl, inr, subst, ◌≤◌, Bool, true, false,
  ◌||◌, Option, none, some, [], ◌∷◌, map, arith, length, if◌then◌else◌, ltb,
}
use mathlib.Core.Path.{subst₂}
use mathlib.Core.Option.{some_inj}
use sync_bridge.Base.Int.{ℤ, pos, pos_part, eqb_ℤ}
use sync_bridge.Text.{Bytes, str, eqb}
use sync_bridge.Sql.Table.{Table, find, select}
use sync_bridge.Sql.Schema.{CustomerRow, Tables}
use sync_bridge.Sql.Statement.{
  Statement, insert_history, insert_customer, insert_employee, create_employee, insert_product,
  insert_order, insert_order_item, insert_probe, delete_history, delete_employee, effect, has_id,
  IsCount, IsFresh,
}
use sync_bridge.Sql.Query.{
  Query, select_one, count_by_status, count_history, list_history, get_history, get_status,
  get_employee, list_employees, search_employees, Answer, Answers, scanned, order_by_id, page,
  matches_status, with_id, status_of, group_by_status, history_page,
}
use sync_bridge.Sql.Engine.{Result, ok, err, Done, Engine, IsSqlite, Executed, Same}

pub record Memory : Type 0 where
  pub contents : Tables
  pub before : Option Tables

-- One more than the largest id that was given so far.
next : {R : Type 0} → Table R → ℕ
next [] = 1
next ((j, _) ∷ t) = let n = next t in if ltb (pos_part j) n then n else suc (pos_part j)

next_id : {R : Type 0} → Table R → ℤ
unfolding next
next_id t = pos (next t)

find-above : {R : Type 0} (n : ℕ) (t : Table R) → next t ≤ n → find (pos n) t ≡ none
unfolding find next eqb_ℤ
find-above n [] h = refl
find-above n ((j, r) ∷ t) h = ground (arith, find-above n t)

find-next_id : {R : Type 0} (t : Table R) → find (next_id t) t ≡ none
unfolding next_id
find-next_id t = find-above (next t) t (omega arith)

new_id : Statement → Tables → ℤ
unfolding next_id
new_id (insert_history _) t = next_id t.sync_history
new_id (insert_customer _) t = next_id t.customers
new_id (insert_product _) t = next_id t.products
new_id (insert_order _) t = next_id t.orders
new_id (insert_order_item _) t = next_id t.order_items
new_id (insert_probe _) t = next_id t.customers
new_id _ t = pos 0

taken : Bytes → Table CustomerRow → Bool
taken email [] = false
taken email ((_, r) ∷ t) = eqb r.email email || taken email t

unfoldable pub refuse : Statement → Tables → Bool
unfolding taken find
refuse (insert_customer v) t = taken v.email t.customers
refuse (insert_employee id _) t = is_some (find id t.employees)
refuse (create_employee id _) t = is_some (find id t.employees)
refuse _ t = false

refusal : Statement → Bytes
refusal (insert_customer _) =
    str "constraint failed: UNIQUE constraint failed: customers.email (2067)"
refusal _ = str "constraint failed: UNIQUE constraint failed: employees.id (1555)"

absent-find : {R : Type 0} (id : ℤ) (t : Table R) → is_some (find id t) ≡ false → find id t ≡ none
absent-find id t free = elim (Option-cases (find id t)) [
  | inl e ↦ e
  | inr (r, e) ↦ absurd (cc (sym (ap is_some e) ∙ free))
]

new_id-IsFresh : (st : Statement) (t : Tables) → refuse st t ≡ false → IsFresh st (new_id st t) t
unfolding new_id refuse
new_id-IsFresh (insert_history _) t free = find-next_id t.sync_history
new_id-IsFresh (insert_customer _) t free = find-next_id t.customers
new_id-IsFresh (insert_product _) t free = find-next_id t.products
new_id-IsFresh (insert_order _) t free = find-next_id t.orders
new_id-IsFresh (insert_order_item _) t free = find-next_id t.order_items
new_id-IsFresh (insert_probe _) t free = find-next_id t.customers
new_id-IsFresh (insert_employee id _) t free = absent-find id t.employees free
new_id-IsFresh (create_employee id _) t free = absent-find id t.employees free
new_id-IsFresh _ t free = tt

-- the rows that a deletion takes, where the service reads their number
unfoldable pub deleted : Statement → Tables → ℕ
deleted (delete_history id) t = length (select (has_id id) t.sync_history)
deleted (delete_employee id) t = length (select (has_id id) t.employees)
deleted _ t = 1

deleted-IsCount : (st : Statement) (t : Tables) → IsCount st (deleted st t) t
unfolding deleted
deleted-IsCount (delete_history id) t = refl
deleted-IsCount (delete_employee id) t = refl
deleted-IsCount _ t = tt

abbrev done : Statement → Tables → Done
done st t = record {
  row_id = new_id st t;
  row_id_error = none;
  affected = deleted st t;
  affected_error = none;
}

abbrev noon : Bytes
noon = str "2026-06-03 12:00:00"

unfoldable pub exec_if : Bool → Statement → Memory → Result Done × Memory
unfolding new_id effect deleted refusal
exec_if true st m = (err (refusal st), m)
exec_if false st m = (
  ok (done st m.contents),
  record m { contents = effect (new_id st m.contents) noon st m.contents },
)

unfoldable pub answer : (q : Query) → Tables → Answer q
unfolding group_by_status select history_page order_by_id page find
answer select_one t = tt
answer count_by_status t = record {
  rows = map scanned (group_by_status t.sync_history);
  complete = true;
}
answer (count_history st) t = length (select (matches_status st) t.sync_history)
answer (list_history st limit offset) t = record {
  rows = map scanned (history_page st limit offset t.sync_history);
  complete = true;
}
answer (get_history id) t = with_id id (find id t.sync_history)
answer (get_status id) t = status_of (find id t.sync_history)
answer (get_employee id) t = record {
  rows = map scanned (select (λ j _. eqb_ℤ j id) t.employees);
  complete = true;
}
answer (list_employees limit offset) t = record {
  rows = map scanned (page limit offset (order_by_id true t.employees));
  complete = true;
}
answer (search_employees pattern limit offset) t = record { rows = []; complete = true }

unfoldable pub rolled_back : Option Tables → Memory → Memory
rolled_back none m = m
rolled_back (some t) m = record { contents = t; before = none }

abbrev pub memory : Engine
memory = record {
  State = Memory;
  tables = λ m. m.contents;
  saved = λ m. m.before;
  clock = λ m. noon;
  exec = λ st m. exec_if (refuse st m.contents) st m;
  query = λ q m. (ok (answer q m.contents), m);
  begin = λ m. (ok tt, record m { before = some m.contents });
  commit = λ m. (ok tt, record m { before = none });
  rollback = λ m. rolled_back m.before m;
}

abbrev pub value_or : {A : Type 0} → A → Result A → A
value_or a (ok x) = x
value_or a (err _) = a

module _ (st : Statement) (m m' : Memory) where
  exec_if-Executed :
      (b : Bool) (d : Done)
      → refuse st m.contents ≡ b
      → exec_if b st m ≡ (ok d, m')
      → Executed memory st d m m'
  unfolding exec_if
  exec_if-Executed true d free e = cc e
  exec_if-Executed false d free e =
      subst₂ (λ d m'. Executed memory st d m m') (ap (λ p. value_or d p.0) e) (ap (λ p. p.1) e)
        (record {
          tables_eq = refl;
          saved_eq = refl;
          fresh = new_id-IsFresh st m.contents free;
          count = deleted-IsCount st m.contents;
        })

  exec_if-Same : (b : Bool) (text : Bytes) → exec_if b st m ≡ (err text, m') → Same memory m m'
  unfolding exec_if
  exec_if-Same true text e =
      subst (λ m'. Same memory m m') (ap (λ p. p.1) e)
        (record { tables_eq = refl; saved_eq = refl })
  exec_if-Same false text e = cc e

answer-Answers : (q : Query) (t : Tables) → Answers q t (answer q t)
unfolding answer
answer-Answers select_one t = tt
answer-Answers count_by_status t = λ _. refl
answer-Answers (count_history st) t = refl
answer-Answers (list_history st limit offset) t = λ _. refl
answer-Answers (get_history id) t = refl
answer-Answers (get_status id) t = refl
answer-Answers (get_employee id) t = λ _. refl
answer-Answers (list_employees limit offset) t = λ _. refl
answer-Answers (search_employees pattern limit offset) t = tt

rolled_back-pending :
    (o : Option Tables) (m : Memory) {t : Tables}
    → o ≡ some t
    → ((rolled_back o m).contents ≡ t) × ((rolled_back o m).before ≡ none)
unfolding rolled_back
rolled_back-pending none m h = cc h
rolled_back-pending (some t) m h = (some_inj.0 h, refl)

rolled_back-ended : (o : Option Tables) (m : Memory) → o ≡ none → rolled_back o m ≡ m
unfolding rolled_back
rolled_back-ended none m h = refl
rolled_back-ended (some t) m h = cc h

pub memory-IsSqlite : IsSqlite memory
memory-IsSqlite = record {
  exec_ok = λ st s s' d e. exec_if-Executed st s s' (refuse st s.contents) d refl e;
  exec_err = λ st s s' text e. inl (exec_if-Same st s s' (refuse st s.contents) text e);
  query_same = λ q s. record { tables_eq = refl; saved_eq = refl };
  query_ok = λ q s s' a e.
      subst (Answers q s.contents) (ap (λ p. value_or a p.0) e) (answer-Answers q s.contents);
  begin_ok = λ s s' idle e. (ap (λ p. p.1.contents) (sym e), ap (λ p. p.1.before) (sym e));
  begin_err = λ s s' text e. cc e;
  commit_ok = λ s s' e. (ap (λ p. p.1.contents) (sym e), ap (λ p. p.1.before) (sym e));
  rollback_pending = λ s p. rolled_back-pending s.before s p;
  rollback_ended = λ s p.
      subst (Same memory s) (sym (rolled_back-ended s.before s p))
        (record { tables_eq = refl; saved_eq = refl });
}
