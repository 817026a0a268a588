-- ===== src/Reconcile/Apply/Statements.antt =====
-- What internal/reconcile/applytx.go promises of an apply, without the state of a run: the list of its
-- statements, and their play on the server.
use pg_noty.Base.{
  ◌≡◌, refl, ap, ◌⊎◌, inl, inr, Option, none, some, some_inv, Bool, ◌&&◌, ℤ, if◌then◌else◌, List,
  [], ◌∷◌, ◌++◌, Text, Result, ok, err, ◌>>=◌,
}
use pg_noty.Schema.Identifier.{Quoter}
use pg_noty.Reconcile.DdlText.{ApplyError, drop_trigger_text, drop_function_text}
use pg_noty.Reconcile.Apply.{
  ApplyObject, ApplyGroup, Reply, done, lock_timed_out, failed, grouped_apply_objects,
  catalog_search_path_pin, apply_lock_timeout_statement,
}

abbrev pub Statements : Type 0
Statements = Result ApplyError (List Text)

-- The ones and then the others.
abbrev pub joined : Statements → Statements → Statements
joined r s = r >>= λ a. s >>= λ b. ok (a ++ b)

abbrev pub all_creates : List ApplyObject → List Text
all_creates [] = []
all_creates (object ∷ objects) = object.creates ++ all_creates objects

module _ (q : Quoter) where
  -- A trigger goes before its function, which it depends on.
  abbrev pub drop_statements : ApplyObject → Statements
  drop_statements object = drop_trigger_text q object.target object.trigger_name >>= λ trigger.
      joined (ok (trigger ∷ [])) (
        drop_function_text q object.service_schema object.function_name >>= λ function.
        ok (function ∷ []))

  abbrev pub all_drops : List ApplyObject → Statements
  all_drops [] = ok []
  all_drops (object ∷ objects) =
      joined (if object.drop then drop_statements object else ok []) (all_drops objects)

  -- All drops on a target, and then all that is created on it.
  abbrev pub group_statements : ApplyGroup → Statements
  group_statements g = joined (all_drops g.objects) (ok (all_creates g.objects))

  abbrev pub groups_statements : List ApplyGroup → Statements
  groups_statements [] = ok []
  groups_statements (g ∷ gs) = joined (group_statements g) (groups_statements gs)

  unfoldable pub apply_statements : List ApplyObject → Statements
  apply_statements objects = grouped_apply_objects q objects >>= groups_statements

-- The two statements that come before the work, with the bound on lock waits.
abbrev pub settings : ℤ → List Text
settings bound = catalog_search_path_pin ∷ apply_lock_timeout_statement bound ∷ []

module _ {D : Type 0} where
  pub Reply-cases :
      (r : Reply D)
      → ((d : D) × (r ≡ done d)) ⊎ ((r ≡ failed) ⊎ ((b : Text) × (r ≡ lock_timed_out b)))
  Reply-cases (done d) = inl (d, refl)
  Reply-cases failed = inr (inl refl)
  Reply-cases (lock_timed_out b) = inr (inr (b, refl))

  abbrev pub done_or_none : Reply D → (D → Option D) → Option D
  done_or_none (done d) next = next d
  done_or_none (lock_timed_out _) next = none
  done_or_none failed next = none

  abbrev pub with_statements : List Text → Option D → Option (D × List Text)
  with_statements statements none = none
  with_statements statements (some d) = some (d, statements)

  -- `execute` is the server. One statement that it refuses refuses the whole list.
  module _ (execute : Text → D → Reply D) where
    unfoldable pub play : List Text → D → Option D
    play [] d = some d
    play (statement ∷ statements) d = done_or_none (execute statement d) (play statements)

    pub play-append :
        (a b : List Text) (d : D) {mid : D} → play a d ≡ some mid → play (a ++ b) d ≡ play b mid
    unfolding play
    play-append [] b d h = ap (play b) (some_inv h)
    play-append (statement ∷ a) b d h = elim (Reply-cases (execute statement d)) [
      | inl (d', e) ↦ rw e (play-append a b d' (rw e at h))
      | inr (inl e) ↦ absurd (cc (rw e at h))
      | inr (inr (_, e)) ↦ absurd (cc (rw e at h))
    ]

    pub play-append_none : (a b : List Text) (d : D) → play a d ≡ none → play (a ++ b) d ≡ none
    unfolding play
    play-append_none [] b d h = absurd (cc)
    play-append_none (statement ∷ a) b d h = elim (Reply-cases (execute statement d)) [
      | inl (d', e) ↦ rw e (play-append_none a b d' (rw e at h))
      | inr (inl e) ↦ rw e refl
      | inr (inr (_, e)) ↦ rw e refl
    ]

    -- A transaction that is all or nothing: the database after the settings and the statements of the
    -- objects, and those statements; `none` if one of them cannot be written or done, or if the
    -- transaction does not begin or end.
    unfoldable pub atomic_apply :
        Quoter → ℤ → Bool → Bool → List ApplyObject → D → Option (D × List Text)
    unfolding apply_statements play
    atomic_apply q bound begins commits objects before = elim (apply_statements q objects) [
      | ok statements ↦
          if begins && commits
          then with_statements statements (play (settings bound ++ statements) before)
          else none
      | err _ ↦ none
    ]
