-- ===== src/Reconcile/Apply/Refinement.antt =====
-- internal/reconcile/applytx.go: steps of a run that refine lists of statements, and how they compose.
use pg_noty.Base.{
  ◌≡◌, refl, sym, ap, ◌∙◌, subst, ◌⊎◌, inl, inr, none, some, List, [], ◌∷◌, ◌++◌, append-nil,
  append_assoc, ◌+◌, length, length-append, arith, Text, Result, ok, err, ◌>>=◌,
}
use pg_noty.Reconcile.DdlText.{ApplyError}
use pg_noty.Reconcile.Apply.{ApplyTx, Outcome, Reply, and_then, with_text}
use pg_noty.Reconcile.Apply.Statements.{Statements, joined, play, play-append, play-append_none}

module _ {D : Type 0} (execute : Text → D → Reply D) where
  -- The run after some statements, all of which the server did.
  abbrev pub played : ApplyTx D → List Text → D → ApplyTx D
  played run statements d = record {
    database = d;
    recorded = run.recorded ++ statements;
    changes = run.changes + length statements;
  }

  -- The statements are all given and done, and the outcome is that of the play; or there is an error, and
  -- the play does not succeed either.
  abbrev pub Refines : ApplyTx D → Statements → Outcome D → Type 0
  Refines run r o =
      ((statements : List Text) × (d : D) × (r ≡ ok statements)
        × (play execute statements run.database ≡ some d)
        × (o ≡ (played run statements d, ok tt)))
      ⊎ ((e : ApplyError) × (o.1 ≡ err e)
          × ((statements : List Text)
              → r ≡ ok statements
              → play execute statements run.database ≡ none))

  played_nothing : (run : ApplyTx D) → played run [] run.database ≡ run
  played_nothing run =
      let counted : run.changes + 0 ≡ run.changes = omega arith in
      λ i. record {
        database = run.database;
        recorded = append-nil run.recorded i;
        changes = counted i;
      }

  pub nothing-Refines : (run : ApplyTx D) → Refines run (ok []) (run, ok tt)
  unfolding play
  nothing-Refines run =
      inl ([], run.database, refl, refl, ap (λ r. (r, ok tt)) (sym (played_nothing run)))

  played_twice :
      (run : ApplyTx D) (a b : List Text) (d d' : D)
      → played (played run a d) b d' ≡ played run (a ++ b) d'
  played_twice run a b d d' =
      let counted : run.changes + length a + length b ≡ run.changes + length (a ++ b) =
        omega (arith, length-append a b) in
      λ i. record { database = d'; recorded = append_assoc run.recorded a b i; changes = counted i }

  pub and_then_err :
      (o : Outcome D) (k : ApplyTx D → Outcome D) {e : ApplyError}
      → o.1 ≡ err e
      → (and_then o k).1 ≡ err e
  and_then_err (run, ok _) k h = absurd (cc)
  and_then_err (run, err e) k h = h

  joined_inv :
      (r s : Statements) {statements : List Text}
      → joined r s ≡ ok statements
      → (a : List Text) × (b : List Text) × (r ≡ ok a) × (s ≡ ok b) × (a ++ b ≡ statements)
  joined_inv (ok a) (ok b) h = (a, b, refl, refl, cc)
  joined_inv (ok a) (err e) h = absurd (cc)
  joined_inv (err e) s h = absurd (cc)

  pub and_then-Refines :
      (run : ApplyTx D) (r s : Statements) (o : Outcome D) (k : ApplyTx D → Outcome D)
      → Refines run r o
      → ((after : ApplyTx D) → Refines after s (k after))
      → Refines run (joined r s) (and_then o k)
  and_then-Refines run r s o k (inr (e, f, stuck)) next = inr (
    e,
    and_then_err o k f,
    λ st h.
        let (a, b, ra, sb, is) = joined_inv r s h in
        subst (λ st'. play execute st' run.database ≡ none) is
          (play-append_none execute a b run.database (stuck a ra)),
  )
  and_then-Refines run r s o k (inl (a, d, ra, pa, oa)) next = elim (next (played run a d)) [
    | inl (b, d', sb, pb, kb) ↦ inl (
      a ++ b,
      d',
      rw (ra, sb) refl,
      play-append execute a b run.database pa ∙ pb,
      rw (oa, kb, played_twice run a b d d') refl,
    )
    | inr (e, f, stuck) ↦ inr (
      e,
      rw oa f,
      λ st h.
          let (a', b, ra', sb, is) = joined_inv r s h in
          let same : a ≡ a' = cc in
          subst (λ st'. play execute st' run.database ≡ none) is
            (subst (λ x. play execute (x ++ b) run.database ≡ none) same
              (play-append execute a b run.database pa ∙ stuck b sb)),
    )
  ]

  pub with_text-Refines :
      (run : ApplyTx D) (r : Result ApplyError Text) (s : Text → Statements)
      (next : Text → Outcome D)
      → ((text : Text) → Refines run (s text) (next text))
      → Refines run (r >>= s) (with_text r run next)
  with_text-Refines run (ok text) s next h = h text
  with_text-Refines run (err e) s next h = inr (e, refl, λ st k. absurd (cc))

  pub refused :
      (statement : Text) (run : ApplyTx D)
      → play execute (statement ∷ []) run.database ≡ none
      → (st : List Text) → ◌≡◌ {A = Statements} (ok (statement ∷ [])) (ok st)
      → play execute st run.database ≡ none
  refused statement run h st k =
      let same : statement ∷ [] ≡ st = cc in
      subst (λ st'. play execute st' run.database ≡ none) same h
