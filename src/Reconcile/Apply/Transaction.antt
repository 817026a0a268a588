-- ===== src/Reconcile/Apply/Transaction.antt =====
-- internal/reconcile/applytx.go: the transaction of an apply keeps all of its statements or none.
use pg_noty.Base.{
  ◌≡◌, refl, ap, ◌⊎◌, inl, inr, Bool, true, false, ◌&&◌, if◌then◌else◌, Option, none, some, List,
  [], ◌∷◌, ◌++◌, ◌+◌, length, arith, Text, ℤ, ok, err, Result-cases,
}
use pg_noty.Schema.Identifier.{Quoter}
use pg_noty.Reconcile.DdlText.{ApplyError, server_error}
use pg_noty.Reconcile.Apply.{
  ApplyObject, ApplyTx, Outcome, Reply, done, and_then, ended, local, apply,
  apply_lock_timeout_statement, catalog_search_path_pin, apply_in_transaction_with_timeout,
}
use pg_noty.Reconcile.Apply.Statements.{
  apply_statements, settings, with_statements, atomic_apply, Reply-cases, play, play-append_none,
}
use pg_noty.Reconcile.Apply.Refinement.{played, and_then_err}
use pg_noty.Reconcile.Apply.Run.{apply-Refines}

module _ {D : Type 0} (q : Quoter) (execute : Text → D → Reply D) where
  abbrev pub fresh : D → ApplyTx D
  fresh before = record { database = before; recorded = []; changes = 0 }

  local-cases :
      (statement : Text) (run : ApplyTx D)
      → ((d : D) × (execute statement run.database ≡ done d)
          × (local q execute statement run
              ≡ (record run { database = d; recorded = run.recorded ++ (statement ∷ []) }, ok tt)))
        ⊎ ((local q execute statement run).1 ≡ err server_error)
          × (play execute (statement ∷ []) run.database ≡ none)
  unfolding local play
  local-cases statement run = elim (Reply-cases (execute statement run.database)) [
    | inl (d, e) ↦ inl (d, e, rw (local, e) refl)
    | inr (inl e) ↦ inr (rw (local, e) refl, rw e refl)
    | inr (inr (b, e)) ↦ inr (rw (local, e) refl, rw e refl)
  ]

  -- The work of the transaction, before its end.
  abbrev worked : ℤ → List ApplyObject → D → Outcome D
  worked bound objects before =
      and_then (local q execute catalog_search_path_pin (fresh before)) λ pinned.
        and_then (local q execute (apply_lock_timeout_statement bound) pinned)
          λ limited. apply q execute objects limited

  -- Nothing is left of the database but what was there, or there is what was promised.
  abbrev pub Implements : ℤ → Option (D × List Text) → D → Outcome D → Type 0
  Implements bound (some (d, statements)) before o = o ≡ (
    record { database = d; recorded = settings bound ++ statements; changes = length statements },
    ok tt,
  )
  Implements bound none before o = (e : ApplyError) × (o.1 ≡ err e) × (o.0.database ≡ before)

  -- The run at the start of the transaction, behind some statements.
  abbrev started : List Text → D → ApplyTx D
  started statements d = record { database = d; recorded = statements; changes = 0 }

  played-started :
      (bound : ℤ) (statements : List Text) (d d' : D)
      → played execute (started (settings bound) d) statements d' ≡ record {
        database = d';
        recorded = settings bound ++ statements;
        changes = length statements;
      }
  played-started bound statements d d' =
      let counted : 0 + length statements ≡ length statements = omega arith in
      λ i. record { database = d'; recorded = settings bound ++ statements; changes = counted i }

  play_refused :
      (bound : ℤ) (st : List Text) (before d : D)
      → execute catalog_search_path_pin before ≡ done d
      → play execute (apply_lock_timeout_statement bound ∷ []) d ≡ none
      → play execute (settings bound ++ st) before ≡ none
  unfolding play
  play_refused bound st before d e p =
      rw (play, e) (play-append_none execute (apply_lock_timeout_statement bound ∷ []) st d p)

  worked-cases :
      (bound : ℤ) (objects : List ApplyObject) (before : D)
      → ((statements : List Text) × (d : D) × (apply_statements q objects ≡ ok statements)
          × (play execute (settings bound ++ statements) before ≡ some d)
          × Implements bound (some (d, statements)) before (worked bound objects before))
        ⊎ ((e : ApplyError) × ((worked bound objects before).1 ≡ err e)
            × ((statements : List Text)
                → apply_statements q objects ≡ ok statements
                → play execute (settings bound ++ statements) before ≡ none))
  unfolding play
  worked-cases bound objects before = elim (local-cases catalog_search_path_pin (fresh before)) [
    | inr (f, p) ↦ inr (
      server_error,
      and_then_err execute (local q execute catalog_search_path_pin (fresh before)) _ f,
      λ st h.
          play-append_none execute (catalog_search_path_pin ∷ [])
            (apply_lock_timeout_statement bound ∷ st) before p,
    )
    | inl (d1, e1, f1) ↦
        elim (local-cases (apply_lock_timeout_statement bound)
          (started (catalog_search_path_pin ∷ []) d1)) [
            | inr (f, p) ↦ inr (
              server_error,
              rw f1 (
                  and_then_err execute
                    (local q execute (apply_lock_timeout_statement bound)
                      (started (catalog_search_path_pin ∷ []) d1))
                    _ f),
              λ st h. play_refused bound st before d1 e1 p,
            )
            | inl (d2, e2, f2) ↦
                elim (apply-Refines execute q objects (started (settings bound) d2)) [
                  | inl (st, d, r, p, o) ↦ inl (
                    st,
                    d,
                    r,
                    rw (play, e1, e2) p,
                    rw (f1, f2, o) (ap (λ run. (run, ok tt)) (played-started bound st d2 d)),
                  )
                  | inr (e, f, stuck) ↦
                      inr (e, rw (f1, f2) f, λ st h. rw (play, e1, e2) (stuck st h))
                ]
          ]
  ]

  -- Where the promise is none, an error that left the database as it was keeps it.
  kept :
      (bound : ℤ) (begins commits : Bool) (objects : List ApplyObject) (before : D)
      → ((st : List Text)
          → apply_statements q objects ≡ ok st
          → play execute (settings bound ++ st) before ≡ none)
      → atomic_apply execute q bound begins commits objects before ≡ none
  unfolding atomic_apply
  kept bound begins commits objects before stuck =
      elim (Result-cases (apply_statements q objects)) [
        | inl (st, e) ↦ rw (atomic_apply, e) (either st (begins && commits) (stuck st e))
        | inr (f, e) ↦ rw (atomic_apply, e) refl
      ]
    where
      either :
          (st : List Text) (b : Bool)
          → play execute (settings bound ++ st) before ≡ none
          → (if b then with_statements st (play execute (settings bound ++ st) before) else none)
            ≡ none
      either st true h = rw h refl
      either st false h = refl

  unpromised :
      (bound : ℤ) (begins commits : Bool) (objects : List ApplyObject) (before : D)
      → (begins && commits) ≡ false
      → atomic_apply execute q bound begins commits objects before ≡ none
  unfolding atomic_apply
  unpromised bound begins commits objects before h =
      elim (Result-cases (apply_statements q objects)) [
        | inl (st, e) ↦ rw (atomic_apply, e, h) refl
        | inr (f, e) ↦ rw (atomic_apply, e) refl
      ]

  ended_err :
      (commits : Bool) (before : D) (o : Outcome D) {e : ApplyError}
      → o.1 ≡ err e
      → ((ended q execute commits before o).1 ≡ err e)
        × ((ended q execute commits before o).0.database ≡ before)
  unfolding ended
  ended_err commits before (run, ok _) h = absurd (cc)
  ended_err commits before (run, err e) h = (h, refl)

  promised :
      (bound : ℤ) (objects : List ApplyObject) (before : D) {st : List Text} {d : D}
      → apply_statements q objects ≡ ok st
      → play execute (settings bound ++ st) before ≡ some d
      → atomic_apply execute q bound true true objects before ≡ some (d, st)
  unfolding atomic_apply
  promised bound objects before r p = rw (atomic_apply, r, p) refl

  -- The transaction of an apply implements the atomic one. If the settings and then the statements of the
  -- objects, in the order of the groups, can be written and done, and the transaction begins and ends,
  -- it has given and done exactly these, has counted the statements, and what others see is the database
  -- after them. Otherwise it returns an error and others see the database as it was.
  pub apply_in_transaction_lem :
      (bound : ℤ) (begins commits : Bool) (objects : List ApplyObject) (before : D)
      → Implements bound (atomic_apply execute q bound begins commits objects before) before (
          apply_in_transaction_with_timeout q execute bound begins commits
            (apply q execute objects)
            before)
  unfolding apply_in_transaction_with_timeout ended
  apply_in_transaction_lem bound false commits objects before =
      rw (unpromised bound false commits objects before refl) (server_error, refl, refl)
  apply_in_transaction_lem bound true true objects before =
      elim (worked-cases bound objects before) [
        | inr (e, f, stuck) ↦
            let (fails, same) = ended_err true before (worked bound objects before) f in
            rw (kept bound true true objects before stuck) (e, fails, same)
        | inl (st, d, r, p, o) ↦
            rw (promised bound objects before r p) (ap (ended q execute true before) o)
      ]
  apply_in_transaction_lem bound true false objects before =
      rw (unpromised bound true false objects before refl)
        (elim (worked-cases bound objects before) [
          | inr (e, f, stuck) ↦
              let (fails, same) = ended_err false before (worked bound objects before) f in
              (e, fails, same)
          | inl (st, d, r, p, o) ↦
              let back = ap (ended q execute false before) o in
              (server_error, ap (λ e. e.1) back, ap (λ e. e.0.database) back)
        ])
