-- ===== src/Errors/Unique.antt =====
-- What `HandleDBError` answers.
use sync_bridge.Base.{
  ℕ, ◌≡◌, refl, ◌∙◌, ◌≢◌, true, false, none, some, [], ◌∷◌, ◌++◌, arith, all, All,
}
use sync_bridge.Text.{Bytes, str, strip_prefix, contains, Unicode, to_upper, is_word}
use sync_bridge.Text.Laws.{
  strip_prefix-append, has_prefix-append, contains-prefix, contains-append, EndsWord,
  take_word-append,
}
use sync_bridge.Errors.{
  AppError, GoError, other, error_text, new_conflict_error, duplicate_entry, match_here,
  match_group, match_table, find_submatch, unique_error, handle_db_error,
}

-- What the answer to a database error with text `msg` looks like.
abbrev pub Classified : Bytes → AppError → Type 0
Classified msg e =
    (contains msg (str "UNIQUE constraint failed") ≡ true → e.status_code ≡ 409)
    × (contains msg (str "UNIQUE constraint failed") ≡ false
        → (e.status_code ≡ 500) × (e.message ≡ msg))
    × (e.errors ≡ [])

unique_error-status :
    (u : Unicode) (msg : Bytes)
    → ((unique_error u msg).status_code ≡ 409) × ((unique_error u msg).errors ≡ [])
unfolding unique_error
unique_error-status u msg = ground arith

-- A database error is answered with 409 if its text contains "UNIQUE constraint failed" and with
-- 500 and its own text if not; no field errors are listed.
pub handle_db_error-Classified :
    (u : Unicode) (err : GoError) → Classified (error_text err) (handle_db_error u (some err))
unfolding handle_db_error
handle_db_error-Classified u err = ground (arith, unique_error-status u (error_text err))

abbrev IsWord : Bytes → Type 0
IsWord w = (w ≢ []) × (all is_word w ≡ true)

abbrev pub unique_text : Bytes → Bytes → Bytes → Bytes
unique_text table column rest =
    str "UNIQUE constraint failed: " ++ (table ++ (b'.' ∷ (column ++ rest)))

match_group-word :
    (c : ℕ) (column rest : Bytes)
    → all is_word (c ∷ column) ≡ true
    → EndsWord rest
    → match_group ((c ∷ column) ++ rest) ≡ some (c ∷ column)
unfolding match_group
match_group-word c column rest hc hr = rw (take_word-append (c ∷ column) rest hc hr, match_group)

match_table-word :
    (c : ℕ) (table rest : Bytes)
    → all is_word (c ∷ table) ≡ true
    → match_table ((c ∷ table) ++ (b'.' ∷ rest)) ≡ match_group rest
unfolding match_table
match_table-word c table rest hc =
    ground (arith, take_word-append (c ∷ table) (b'.' ∷ rest) hc refl)

match_here_unique :
    (table column rest : Bytes)
    → IsWord table
    → IsWord column
    → EndsWord rest
    → match_here (unique_text table column rest) ≡ some column
unfolding match_here
match_here_unique [] column rest ht hc hr = absurd (ht.0 refl)
match_here_unique (t ∷ table) [] rest ht hc hr = absurd (hc.0 refl)
match_here_unique (t ∷ table) (c ∷ column) rest ht hc hr =
    rw
      (
        strip_prefix-append (str "UNIQUE constraint failed: ")
            ((t ∷ table) ++ (b'.' ∷ ((c ∷ column) ++ rest))),
        match_here,
      )
      (match_table-word t table ((c ∷ column) ++ rest) ht.1
        ∙ match_group-word c column rest hc.1 hr)

match_here-skip : (c : ℕ) (s : Bytes) → c ≢ b'U' → match_here (c ∷ s) ≡ none
unfolding match_here strip_prefix str
match_here-skip c s h = ground arith

-- Text before the message in which no match begins is skipped.
find_submatch_unique :
    (pre s group : Bytes)
    → All (λ c. c ≢ b'U') pre
    → match_here s ≡ some group
    → find_submatch (pre ++ s) ≡ some group
unfolding find_submatch
find_submatch_unique [] [] group h e = e
find_submatch_unique [] (c ∷ s) group h e = rw (e, find_submatch)
find_submatch_unique (c ∷ pre) s group h e =
    rw (match_here-skip c (pre ++ s) h.0, find_submatch) (find_submatch_unique pre s group h.1 e)

unique_text-contains :
    (table column rest : Bytes)
    → contains (unique_text table column rest) (str "UNIQUE constraint failed") ≡ true
unfolding str
unique_text-contains table column rest =
    contains-prefix (unique_text table column rest) (str "UNIQUE constraint failed") (
      has_prefix-append (str "UNIQUE constraint failed")
        (str ": " ++ (table ++ (b'.' ∷ (column ++ rest)))))

-- SQLite's message for a violated UNIQUE constraint, after any text without a capital U (the
-- driver's own prefix), is answered with 409, and the answer names the column, in upper case.
pub handle_db_error_unique :
    (u : Unicode) (pre table column rest : Bytes)
    → All (λ c. c ≢ b'U') pre
    → IsWord table
    → IsWord column
    → EndsWord rest
    → handle_db_error u (some (other (pre ++ unique_text table column rest)))
      ≡ new_conflict_error (duplicate_entry (to_upper u column))
unfolding handle_db_error
handle_db_error_unique u pre table column rest hp ht hc hr = rw (
  contains-append pre (unique_text table column rest) (str "UNIQUE constraint failed")
      (unique_text-contains table column rest),
  unique_error,
  find_submatch_unique pre (unique_text table column rest) column hp
      (match_here_unique table column rest ht hc hr),
)
