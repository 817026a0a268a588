-- ===== src/Reconcile/Classify/Matrix.antt =====
-- internal/reconcile/classify.go: what the classification promises about changes, refusals and rest.
use pg_noty.Base.{
  ◌≡◌, refl, ◌∙◌, sym, ap, inl, inr, Bool, true, false, not, ◌&&◌, ◌||◌, Option, none, some,
  if◌then◌else◌, arith, Text, Bool-cases, Option-cases,
}
use pg_noty.Reconcile.Ownership.{CatalogObject}
use pg_noty.Reconcile.Plan.{Action, is_destructive}
use pg_noty.Reconcile.Classify.{
  PairSources, observed_complete, trigger_object, function_object, foreign, refusal_of,
  observed_ownership_refusal, nothing_there, classify_removed_listener, classify_removed_operation,
  classify_disabled, classify_managed_pair, classify_pair, drifted, is_recreated, is_renamed,
}

abbrev pub is_some {ℓ} : {A : Type ℓ} → Option A → Bool
is_some none = false
is_some (some a) = true

abbrev pub destructive_action : Option Action → Bool
destructive_action none = false
destructive_action (some a) = is_destructive a.kind

-- The pair is wanted: its listener is configured and enabled, with the operation.
abbrev pub wanted : PairSources → Bool
wanted s = s.desired.listener_present && s.desired.operation_present && s.desired.enabled

-- An object that is there and is not this instance's.
abbrev pub trespass : PairSources → Bool
trespass s =
    (s.observed.trigger_present && foreign s (trigger_object s))
    || (s.observed.function_present && foreign s (function_object s))

-- Nothing is left of a pair that is not wanted; a listener that is gone has left the registry as well.
abbrev pub at_rest_unwanted : PairSources → Bool
at_rest_unwanted s =
    nothing_there s && (s.desired.listener_present || not s.recorded.listener_present)

trespass-cases :
    (t f : Bool) (o p : CatalogObject)
    → is_some (if t then refusal_of o else if f then refusal_of p else none) ≡ (t || f)
trespass-cases true f o p = refl
trespass-cases false true o p = refl
trespass-cases false false o p = refl

trespass-refused : (s : PairSources) → is_some (observed_ownership_refusal s) ≡ trespass s
unfolding observed_ownership_refusal
trespass-refused s =
    trespass-cases (s.observed.trigger_present && foreign s (trigger_object s))
      (s.observed.function_present && foreign s (function_object s)) (trigger_object s)
      (function_object s)

module _ (fingerprint : Text → Text → Text) where
  -- A pair that is wanted is recorded and there, on the target it was made for, as it was written, and
  -- its specification is the one it was made from.
  abbrev pub at_rest_wanted : PairSources → Bool
  at_rest_wanted s =
      s.recorded.trigger_present
      && observed_complete s
      && not (is_recreated s.target.outcome)
      && not (is_renamed s.target.outcome)
      && not s.desired.specification_changed
      && not (drifted fingerprint s)

  removed_listener_lem :
      (s : PairSources)
      → (is_some (classify_removed_listener s).action
          ≡ not (nothing_there s && not s.recorded.listener_present))
        × (is_some (classify_removed_listener s).refusal ≡ false)
        × (destructive_action (classify_removed_listener s).action
            ≡ is_some (classify_removed_listener s).action)
  unfolding classify_removed_listener is_destructive
  removed_listener_lem s = elim (Bool-cases (nothing_there s)) [
    | inl e ↦ rw e (elim (Bool-cases s.recorded.listener_present) [
      | inl f ↦ rw f (refl, refl, refl)
      | inr f ↦ rw f (refl, refl, refl)
    ])
    | inr e ↦ rw e (refl, refl, refl)
  ]

  removed_operation_lem :
      (s : PairSources)
      → (is_some (classify_removed_operation s).action ≡ not (nothing_there s))
        × (is_some (classify_removed_operation s).refusal ≡ false)
        × (destructive_action (classify_removed_operation s).action
            ≡ is_some (classify_removed_operation s).action)
  unfolding classify_removed_operation is_destructive
  removed_operation_lem s = elim (Bool-cases (nothing_there s)) [
    | inl e ↦ rw e (refl, refl, refl)
    | inr e ↦ rw e (refl, refl, refl)
  ]

  disabled_lem :
      (s : PairSources)
      → (is_some (classify_disabled s).action ≡ not (nothing_there s))
        × (is_some (classify_disabled s).refusal ≡ false)
        × (destructive_action (classify_disabled s).action ≡ is_some (classify_disabled s).action)
  unfolding classify_disabled is_destructive
  disabled_lem s = elim (Bool-cases (nothing_there s)) [
    | inl e ↦ rw e (refl, refl, refl)
    | inr e ↦ rw e (refl, refl, refl)
  ]

  managed_lem :
      (s : PairSources)
      → (is_some (classify_managed_pair fingerprint s).action ≡ not (at_rest_wanted s))
        × (is_some (classify_managed_pair fingerprint s).refusal ≡ false)
        × (destructive_action (classify_managed_pair fingerprint s).action ≡ false)
  unfolding classify_managed_pair is_destructive
  managed_lem s = elim (Bool-cases (is_recreated s.target.outcome)) [
    | inl a ↦ rw a (ground arith)
    | inr a ↦ elim (Bool-cases (not s.recorded.trigger_present || not (observed_complete s))) [
      | inl b ↦ ground arith
      | inr b ↦ elim (Bool-cases (is_renamed s.target.outcome)) [
        | inl c ↦ ground arith
        | inr c ↦ ground arith
      ]
    ]
  ]

  -- Whether a pair is refused, changed, changed destructively, or left alone is decided as follows. It
  -- is refused exactly if its target is refused, or an object of it is there and not owned. If it is not
  -- refused, it is changed exactly if it is not at rest, and the change is destructive exactly if the
  -- pair is not wanted. A refused pair is not changed.
  pub classify_pair_lem :
      (s : PairSources)
      → (is_some (classify_pair fingerprint s).refusal ≡ (is_some s.target.refusal || trespass s))
        × (is_some (classify_pair fingerprint s).action ≡ (
            not (is_some s.target.refusal || trespass s)
            && not (if wanted s then at_rest_wanted s else at_rest_unwanted s)))
        × (destructive_action (classify_pair fingerprint s).action
            ≡ (is_some (classify_pair fingerprint s).action && not (wanted s)))
  unfolding classify_pair
  classify_pair_lem s = elim (Option-cases s.target.refusal) [
    | inr (r, e) ↦ rw (classify_pair, e) (refl, refl, refl)
    | inl e ↦ elim (Option-cases (observed_ownership_refusal s)) [
      | inr (r, f) ↦
          let t : trespass s ≡ true = sym (trespass-refused s) ∙ ap is_some f in
          rw (classify_pair, e, f, t) (refl, refl, refl)
      | inl f ↦
          let t : trespass s ≡ false = sym (trespass-refused s) ∙ ap is_some f in
          elim (Bool-cases s.desired.listener_present) [
            | inr g ↦ rw (classify_pair, e, f, t, g) (ground (arith, removed_listener_lem s))
            | inl g ↦ elim (Bool-cases s.desired.operation_present) [
              | inr h ↦ rw (classify_pair, e, f, t, g, h) (ground (arith, removed_operation_lem s))
              | inl h ↦ elim (Bool-cases s.desired.enabled) [
                | inr k ↦ rw (classify_pair, e, f, t, g, h, k) (ground (arith, disabled_lem s))
                | inl k ↦ rw (classify_pair, e, f, t, g, h, k) (ground (arith, managed_lem s))
              ]
            ]
          ]
    ]
  ]
