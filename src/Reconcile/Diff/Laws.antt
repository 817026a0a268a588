-- ===== src/Reconcile/Diff/Laws.antt =====
-- internal/reconcile/diff.go: what a plan has in it, and what its verdict says.
use pg_noty.Base.{
  ◌≡◌, refl, ◌∙◌, sym, ap, ◌⊎◌, inl, inr, ◌≢◌, none, some, List, [], ◌∷◌, ◌++◌, append_assoc,
  append-nil, arith, IsSorted, length, length-sort_by, Option-cases, List-cases, subst, Text,
}
use mathlib.Core.List.{Perm}
use pg_noty.Reconcile.Plan.{
  Action, Refusal, PlanResult, clean, changes_pending, error, action_le, ordered_actions,
  ordered_actions-IsSorted, ordered_actions-perm,
}
use pg_noty.Reconcile.Classify.{PairClassification}
use pg_noty.Reconcile.Diff.{
  DiffInput, option_list, append_classification, append_all, finalise_diff, no_plan,
  classifications, diff, collect_pair_sources, ordered_pairs,
}

-- The refusals of the pairs, and the actions of those that are not refused.
abbrev pub refusals_in : List PairClassification → List Refusal
refusals_in [] = []
refusals_in (c ∷ cs) = option_list c.refusal ++ refusals_in cs

abbrev pub allowed_action : PairClassification → List Action
allowed_action c = elim c.refusal [ none ↦ option_list c.action | some r ↦ [] ]

abbrev pub actions_in : List PairClassification → List Action
actions_in [] = []
actions_in (c ∷ cs) = allowed_action c ++ actions_in cs

one-refusals :
    (c : PairClassification) (p : PlanResult)
    → (append_classification c p).refusals ≡ p.refusals ++ option_list c.refusal
unfolding append_classification
one-refusals c p = elim (Option-cases c.refusal) [
  | inl e ↦ rw (append_classification, e) (sym (append-nil p.refusals))
  | inr (r, e) ↦ rw (append_classification, e) refl
]

one-actions :
    (c : PairClassification) (p : PlanResult)
    → (append_classification c p).actions ≡ p.actions ++ allowed_action c
unfolding append_classification
one-actions c p = elim (Option-cases c.refusal) [
  | inl e ↦ rw (append_classification, e) refl
  | inr (r, e) ↦ rw (append_classification, e) (sym (append-nil p.actions))
]

append_all-refusals :
    (cs : List PairClassification) (p : PlanResult)
    → (append_all cs p).refusals ≡ p.refusals ++ refusals_in cs
append_all-refusals [] p = sym (append-nil p.refusals)
append_all-refusals (c ∷ cs) p =
    append_all-refusals cs (append_classification c p)
    ∙ (ap (λ rs. rs ++ refusals_in cs) (one-refusals c p)
        ∙ append_assoc p.refusals (option_list c.refusal) (refusals_in cs))

append_all-actions :
    (cs : List PairClassification) (p : PlanResult)
    → (append_all cs p).actions ≡ p.actions ++ actions_in cs
append_all-actions [] p = sym (append-nil p.actions)
append_all-actions (c ∷ cs) p =
    append_all-actions cs (append_classification c p)
    ∙ (ap (λ xs. xs ++ actions_in cs) (one-actions c p)
        ∙ append_assoc p.actions (allowed_action c) (actions_in cs))

-- What a plan says of its refusals and actions.
abbrev pub Says : List Refusal → List Action → PlanResult → Type 0
Says rs xs p =
    (p.refusals ≡ rs)
    × (((rs ≡ [])
          × Perm p.actions xs
          × IsSorted action_le p.actions
          × (((xs ≡ []) × (p.verdict ≡ clean)) ⊎ ((xs ≢ []) × (p.verdict ≡ changes_pending))))
        ⊎ ((rs ≢ []) × (p.actions ≡ []) × (p.verdict ≡ error)))

ordered-empty : (xs : List Action) → ordered_actions xs ≡ [] → xs ≡ []
unfolding ordered_actions
ordered-empty [] h = refl
ordered-empty (x ∷ xs) h = absurd (omega (arith, length-sort_by action_le (x ∷ xs), ap length h))

finalise_diff-Says : (p : PlanResult) → Says p.refusals p.actions (finalise_diff p)
unfolding finalise_diff
finalise_diff-Says p = elim (List-cases p.refusals) [
  | inr (r, rs, e) ↦ rw (finalise_diff, e) (e, inr ((λ h. absurd (cc)), refl, refl))
  | inl e ↦
      let perm : Perm (ordered_actions p.actions) p.actions = ordered_actions-perm p.actions in
      let sorted = ordered_actions-IsSorted p.actions in
      elim (List-cases (ordered_actions p.actions)) [
        | inl f ↦
            rw (finalise_diff, e, f)
              (e, inl (refl, rw f at perm, tt, inl (ordered-empty p.actions f, refl)))
        | inr (a, xs, f) ↦
            rw (finalise_diff, e, f)
              (
                e,
                inl (
                  refl,
                  rw f at perm,
                  rw f at sorted,
                  inr ((λ h. absurd (cc (rw h at f))), refl),
                ),
              )
      ]
]

-- The plan for any input. If a pair is refused, the plan has all refusals, no action and the verdict
-- error. If none is, its actions are those of the pairs, in order by listener, operation and kind, and
-- its verdict says whether there are any.
pub diff_lem :
    (fingerprint : Text → Text → Text) (i : DiffInput)
    → Says
        (refusals_in (classifications fingerprint i))
        (actions_in (classifications fingerprint i))
        (diff fingerprint i)
unfolding diff
diff_lem fingerprint i =
    let cs = classifications fingerprint i in
    let p = append_all cs (no_plan (length (ordered_pairs (collect_pair_sources i)))) in
    let r : p.refusals ≡ refusals_in cs = append_all-refusals cs _ in
    let a : p.actions ≡ actions_in cs = append_all-actions cs _ in
    subst (λ xs. Says (refusals_in cs) xs (finalise_diff p)) a
      (subst (λ rs. Says rs p.actions (finalise_diff p)) r (finalise_diff-Says p))
