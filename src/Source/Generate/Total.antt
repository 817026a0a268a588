-- ===== src/Source/Generate/Total.antt =====
-- internal/source/generate.go: a request that passes the validation is never refused later.
use pg_noty.Base.{
  ◌≡◌, refl, ap, ◌∙◌, inl, inr, Bool, true, false, List, [], ◌∷◌, ◌++◌, map, if◌then◌else◌, keep,
  arith, All, All-append, IsSorted, sym, subst, Text, codes, text_eq, ok, err, Bool-cases,
}
use mathlib.Core.List.{Perm}
use mathlib.Core.List.Perm
use pg_noty.Schema.Identifier.{Quoter, why_unusable, holds_nul}
use pg_noty.Schema.ObjectName.Fits.{object_name_lem, holds_nul-append}
use pg_noty.Source.Generate.{
  Operation, Request, unknown_operation, operation_abbreviation_for, validate_generation_input,
  ordered_operations,
}
use pg_noty.Source.Generate.Sets.{
  ObjectSet, abbreviation_or_empty, set_name, object_set, object_sets, generate,
}
use pg_noty.Source.Generate.Valid.{Usable, Known, Valid, validate-Valid}
use pg_noty.Source.Generate.Ordered.{
  is_before, ordered_operations-perm, ordered_operations-IsSorted,
}
use pg_noty.Source.Generate.Fills.{statements-Done}

abbreviation-clean :
    (kind : Text) → holds_nul (abbreviation_or_empty (operation_abbreviation_for kind)) ≡ false
unfolding operation_abbreviation_for
abbreviation-clean kind =
    among (text_eq (codes "insert") kind) (text_eq (codes "update") kind)
      (text_eq (codes "delete") kind)
  where
    among :
        (a b c : Bool)
        → holds_nul (
            abbreviation_or_empty (
              if a
              then ok (codes "ins")
              else if b
              then ok (codes "upd")
              else if c
              then ok (codes "del")
              else err (unknown_operation kind)))
          ≡ false
    among true b c = refl
    among false true c = refl
    among false false true = refl
    among false false false = refl

Usable-clean : (name : Text) → Usable name → holds_nul name ≡ false
unfolding why_unusable
Usable-clean name h = ground (arith, h)

set_name-Usable :
    (request : Request) (operation : Operation)
    → Valid request
    → Usable (set_name request operation)
unfolding set_name
set_name-Usable request operation v =
    (object_name_lem (codes "pg_noty_" ++ request.listener.name) _
      (holds_nul-append (codes "pg_noty_") request.listener.name
        ∙ Usable-clean request.listener.name v.name)
      (abbreviation-clean operation.kind)).0

All-keep :
    (P : Operation → Type 0) (p : Operation → Bool) (xs : List Operation)
    → All P xs
    → All P (keep p xs)
All-keep P p [] h = tt
All-keep P p (x ∷ xs) h = elim (Bool-cases (p x)) [
  | inl e ↦ rw e (h.0, All-keep P p xs h.1)
  | inr e ↦ rw e (All-keep P p xs h.1)
]

ordered-Known :
    (operations : List Operation) → All Known operations → All Known (ordered_operations operations)
unfolding ordered_operations
ordered-Known operations h =
    All-append Known _ _ (All-keep Known _ operations h)
      (All-append Known _ _ (All-keep Known _ operations h) (All-keep Known _ operations h))

module _ (q : Quoter) where
  object_sets-Done :
      (request : Request) (operations : List Operation)
      → Valid request
      → All Known operations
      → (sets : List ObjectSet) × (object_sets q request operations ≡ ok sets)
        × (map (λ s. s.operation) sets ≡ map (λ o. o.kind) operations)
        × All (λ s. Usable s.function_name) sets
  unfolding object_sets
  object_sets-Done request [] v h = ([], refl, refl, tt)
  object_sets-Done request (operation ∷ operations) v h =
      let usable = set_name-Usable request operation v in
      let (statements, made) =
        statements-Done q request operation (set_name request operation) v h.0 usable in
      let (sets, rest, kinds, names) = object_sets-Done request operations v h.1 in
      (
        object_set request operation statements ∷ sets,
        rw (made, rest) refl,
        ap (λ ks. operation.kind ∷ ks) kinds,
        (usable, names),
      )

  -- A request that the validation passes is never refused later: `Generate` gives one set of objects for
  -- each operation of the request, none left out and none twice, the inserts first, then the updates and
  -- the deletes, and every name of a function is usable as an identifier.
  pub generate_lem :
      (request : Request)
      → validate_generation_input request ≡ ok tt
      → (sets : List ObjectSet) × (generate q request ≡ ok sets)
        × Perm (map (λ s. s.operation) sets) (map (λ o. o.kind) request.listener.operations)
        × IsSorted is_before (map (λ s. s.operation) sets)
        × All (λ s. Usable s.function_name) sets
  unfolding generate
  generate_lem request h =
      let v = validate-Valid request h in
      let operations = request.listener.operations in
      let (sets, made, kinds, names) =
        object_sets-Done request (ordered_operations operations) v
          (ordered-Known operations v.operations) in
      (
        sets,
        rw (h, made) refl,
        subst (λ ks. Perm ks (map (λ o. o.kind) operations)) (sym kinds)
            (Perm.map (λ o. o.kind) (ordered_operations-perm operations v.operations)),
        subst (IsSorted is_before) (sym kinds) (ordered_operations-IsSorted operations),
        names,
      )
