-- ===== src/Sql/Table.antt =====
-- A table: its rows by their `id`, which is the primary key of every table of the service.
use sync_bridge.Base.{◌≡◌, Bool, Option, none, some, List, [], ◌∷◌, ◌++◌, arith, if◌then◌else◌}
use sync_bridge.Base.Int.{ℤ, eqb_ℤ, eqb_ℤ_iff, eqb_ℤ_refl}

abbrev pub Table : Type 0 → Type 0
Table R = List (ℤ × R)

module _ {R : Type 0} where
  -- `SELECT … WHERE id = ?`
  unfoldable pub find : ℤ → Table R → Option R
  find id [] = none
  find id ((j, r) ∷ t) = if eqb_ℤ j id then some r else find id t

  -- `INSERT`
  unfoldable pub add : ℤ → R → Table R → Table R
  add id r t = t ++ (id, r) ∷ []

  -- `UPDATE … WHERE id = ?`
  unfoldable pub modify : ℤ → (R → R) → Table R → Table R
  modify id f [] = []
  modify id f ((j, r) ∷ t) = (if eqb_ℤ j id then (j, f r) else (j, r)) ∷ modify id f t

  -- `DELETE … WHERE …`
  unfoldable pub remove : (ℤ → R → Bool) → Table R → Table R
  remove p [] = []
  remove p ((j, r) ∷ t) = let rest = remove p t in if p j r then rest else (j, r) ∷ rest

  -- `SELECT … WHERE …`
  unfoldable pub select : (ℤ → R → Bool) → Table R → Table R
  select p [] = []
  select p ((j, r) ∷ t) = let rest = select p t in if p j r then (j, r) ∷ rest else rest

  -- `INSERT … ON CONFLICT(id) DO UPDATE SET …`
  unfoldable pub upsert : ℤ → R → (R → R) → Table R → Table R
  unfolding find modify add
  upsert id r f t = elim (find id t) [ none ↦ add id r t | some old ↦ modify id f t ]

  pub find-add_self :
      (id : ℤ) (r : R) (t : Table R) → find id t ≡ none → find id (add id r t) ≡ some r
  unfolding find add
  find-add_self id r [] h = rw eqb_ℤ_refl
  find-add_self id r ((j, q) ∷ t) h = ground (arith, find-add_self id r t)

  pub find-add :
      (i id : ℤ) (r : R) (t : Table R)
      → find id t ≡ none
      → find i (add id r t) ≡ (if eqb_ℤ id i then some r else find i t)
  unfolding find add
  find-add i id r [] new = ground arith
  find-add i id r ((j, q) ∷ t) new =
      ground (arith, find-add i id r t, eqb_ℤ_iff j id, eqb_ℤ_iff j i, eqb_ℤ_iff id i)

  abbrev pub apply_to : (R → R) → Option R → Option R
  apply_to f none = none
  apply_to f (some r) = some (f r)

  pub find-modify :
      (i id : ℤ) (f : R → R) (t : Table R)
      → find i (modify id f t) ≡ (if eqb_ℤ id i then apply_to f (find i t) else find i t)
  unfolding find modify
  find-modify i id f [] = ground arith
  find-modify i id f ((j, q) ∷ t) =
      ground (arith, find-modify i id f t, eqb_ℤ_iff j id, eqb_ℤ_iff j i, eqb_ℤ_iff id i)

  pub find-modify_self :
      (id : ℤ) (f : R → R) (t : Table R) → find id (modify id f t) ≡ apply_to f (find id t)
  find-modify_self id f t = rw (find-modify, eqb_ℤ_refl)

  pub find-upsert_new :
      (id : ℤ) (r : R) (f : R → R) (t : Table R)
      → find id t ≡ none
      → find id (upsert id r f t) ≡ some r
  unfolding upsert
  find-upsert_new id r f t h = rw (h, upsert) (find-add_self id r t h)

  pub find-upsert_old :
      (id : ℤ) (r old : R) (f : R → R) (t : Table R)
      → find id t ≡ some old
      → find id (upsert id r f t) ≡ some (f old)
  unfolding upsert
  find-upsert_old id r old f t h = rw (h, upsert) (rw (find-modify_self, h))

  pub find-remove :
      (i id : ℤ) (t : Table R)
      → find i (remove (λ j _. eqb_ℤ j id) t) ≡ (if eqb_ℤ id i then none else find i t)
  unfolding find remove
  find-remove i id [] = ground arith
  find-remove i id ((j, q) ∷ t) =
      ground (arith, find-remove i id t, eqb_ℤ_iff j id, eqb_ℤ_iff j i, eqb_ℤ_iff id i)
