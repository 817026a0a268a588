-- ===== src/Reconcile/Plan.antt =====
-- internal/reconcile/action.go, decision.go, verdict.go and plan.go: what a plan is made of, and when
-- one may be applied.
use pg_noty.Base.{
  ℕ, ◌≡◌, refl, Bool, true, false, not, ◌&&◌, ◌||◌, Option, none, some, List, if◌then◌else◌, any,
  Text, codes, text_le, text_le_total, text_le_trans, lex_le, lex_le_total, lex_le_trans, sort_by,
  sort_by-IsSorted, sort_by-perm, IsSorted,
}
use mathlib.Core.List.{Perm}

pub data ActionKind : Type 0 where
  create replace drop rename disable : ActionKind

unfoldable pub is_destructive : ActionKind → Bool
is_destructive create = false
is_destructive replace = false
is_destructive rename = false
is_destructive drop = true
is_destructive disable = true

unfoldable pub symbol : ActionKind → Text
symbol create = codes "+"
symbol replace = codes "-/+"
symbol drop = codes "-"
symbol disable = codes "-"
symbol rename = codes "~"

-- The strings of the kinds, by which actions are ordered.
abbrev pub kind_name : ActionKind → Text
kind_name create = codes "create"
kind_name replace = codes "replace"
kind_name drop = codes "drop"
kind_name rename = codes "rename"
kind_name disable = codes "disable"

pub data Verdict : Type 0 where
  clean changes_pending error : Verdict

unfoldable pub exit_code : Verdict → ℕ
exit_code clean = 0
exit_code changes_pending = 2
exit_code error = 1

pub data StopReason : Type 0 where
  ownership permission approval validation run_lock_wait_expired target_dropped : StopReason

pub record Decision : Type 0 where
  pub proceed : Bool
  pub stopped : Option StopReason

unfoldable pub decide_run : Bool → Bool → Bool → Bool → Decision
decide_run destructive permitted approved interactive =
    if destructive && not permitted
    then record { proceed = false; stopped = some permission }
    else if not approved && not interactive
    then record { proceed = false; stopped = some approval }
    else record { proceed = true; stopped = none }

pub record Pair : Type 0 where
  pub listener : Text
  pub operation : Text

pub record Action : Type 0 where
  pub pair : Pair
  pub kind : ActionKind

-- What a refusal tells: the object and the marker found on it, or the trouble with a target.
pub data Refusal : Type 0 where
  ownership_refusal : Text → Option Text → Refusal
  target_refusal : Text → Refusal

pub record PlanResult : Type 0 where
  pub actions : List Action
  pub examined : ℕ
  pub refusals : List Refusal
  pub verdict : Verdict

unfoldable pub plan_destructive : PlanResult → Bool
unfolding is_destructive
plan_destructive p = any (λ a. is_destructive a.kind) p.actions

-- The comparison of `orderedPairs`, by listener and then by operation.
abbrev pub pair_le : Pair → Pair → Bool
pair_le = lex_le (λ p. p.listener) (λ a b. text_le a.operation b.operation)

-- `compareActions`: by listener, then by operation, then by kind.
abbrev by_kind : Action → Action → Bool
by_kind a b = text_le (kind_name a.kind) (kind_name b.kind)

abbrev by_operation : Action → Action → Bool
by_operation = lex_le (λ a. a.pair.operation) by_kind

abbrev pub action_le : Action → Action → Bool
action_le = lex_le (λ a. a.pair.listener) by_operation

unfoldable pub ordered_actions : List Action → List Action
ordered_actions = sort_by action_le

action_le_total : (a b : Action) → action_le a b ≡ false → action_le b a ≡ true
action_le_total =
    lex_le_total (λ a. a.pair.listener) by_operation
      (lex_le_total (λ a. a.pair.operation) by_kind
        (λ a b. text_le_total (kind_name a.kind) (kind_name b.kind)))

action_le_trans :
    (a b c : Action) → action_le a b ≡ true → action_le b c ≡ true → action_le a c ≡ true
action_le_trans =
    lex_le_trans (λ a. a.pair.listener) by_operation
      (lex_le_trans (λ a. a.pair.operation) by_kind
        (λ a b c. text_le_trans (kind_name a.kind) (kind_name b.kind) (kind_name c.kind)))

-- Actions are in order, and no action is lost or made up.
pub ordered_actions-IsSorted : (xs : List Action) → IsSorted action_le (ordered_actions xs)
unfolding ordered_actions
ordered_actions-IsSorted = sort_by-IsSorted action_le action_le_trans action_le_total

pub ordered_actions-perm : (xs : List Action) → Perm (ordered_actions xs) xs
unfolding ordered_actions
ordered_actions-perm = sort_by-perm action_le

-- A run goes on exactly if whatever is destructive is permitted, and it is approved or somebody is
-- there to ask; if it stops, it is for want of the permission before want of the approval.
pub decide_run_lem :
    (destructive permitted approved interactive : Bool)
    → ((decide_run destructive permitted approved interactive).proceed
        ≡ ((not destructive || permitted) && (approved || interactive)))
      × ((decide_run destructive permitted approved interactive).stopped ≡ (
          if (decide_run destructive permitted approved interactive).proceed
          then none
          else if destructive && not permitted
          then some permission
          else some approval))
unfolding decide_run
decide_run_lem true true true i = (refl, refl)
decide_run_lem true true false true = (refl, refl)
decide_run_lem true true false false = (refl, refl)
decide_run_lem true false a i = (refl, refl)
decide_run_lem false p true i = (refl, refl)
decide_run_lem false p false true = (refl, refl)
decide_run_lem false p false false = (refl, refl)
