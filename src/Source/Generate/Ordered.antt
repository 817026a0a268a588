-- ===== src/Source/Generate/Ordered.antt =====
-- internal/source/generate.go: `orderedOperations` against its two promises, the order and the operations.
use pg_noty.Base.{
  ℕ, ◌≡◌, refl, inl, inr, Bool, true, false, List, [], ◌∷◌, ◌++◌, map, if◌then◌else◌, leb, keep,
  All, All-append, Text, codes, text_eq, text_eq_iff, Bool-cases, keep-All, IsSorted, subst,
  append-nil,
}
use mathlib.Core.List.{Perm, perm_middle}
use mathlib.Core.List.Perm
use pg_noty.Source.Generate.{Operation, operation_abbreviation_for, of_kind, ordered_operations}
use pg_noty.Source.Generate.Valid.{Known}

-- Where a kind stands.
abbrev pub rank : Text → ℕ
rank kind =
    if text_eq kind (codes "insert")
    then 0
    else if text_eq kind (codes "update")
    then 1
    else if text_eq kind (codes "delete")
    then 2
    else 3

abbrev pub is_before : Text → Text → Bool
is_before k l = leb (rank k) (rank l)

abbrev kinds_of : List Operation → List Text
kinds_of = map (λ o. o.kind)

-- The kinds there are, by the three tests of the loop.
abbrev Tests : Bool → Bool → Bool → Text → Type 0
Tests inserts updates deletes kind =
    (text_eq kind (codes "insert") ≡ inserts)
    × (text_eq kind (codes "update") ≡ updates)
    × (text_eq kind (codes "delete") ≡ deletes)

data IsKind (kind : Text) : Type 0 where
  is_insert : Tests true false false kind → IsKind kind
  is_update : Tests false true false kind → IsKind kind
  is_delete : Tests false false true kind → IsKind kind

equal-IsKind : (known kind : Text) → text_eq known kind ≡ true → IsKind known → IsKind kind
equal-IsKind known kind h k = subst IsKind ((text_eq_iff known kind).0 h) k

Known-IsKind : (o : Operation) → Known o → IsKind o.kind
unfolding operation_abbreviation_for
Known-IsKind o known = elim (Bool-cases (text_eq (codes "insert") o.kind)) [
  | inl e ↦ equal-IsKind (codes "insert") o.kind e (is_insert (refl, refl, refl))
  | inr not_insert ↦ elim (Bool-cases (text_eq (codes "update") o.kind)) [
    | inl e ↦ equal-IsKind (codes "update") o.kind e (is_update (refl, refl, refl))
    | inr not_update ↦ elim (Bool-cases (text_eq (codes "delete") o.kind)) [
      | inl e ↦ equal-IsKind (codes "delete") o.kind e (is_delete (refl, refl, refl))
      | inr not_delete ↦
          let done = rw (not_insert, not_update, not_delete) at known.abbreviated in
          absurd (cc done.1)
    ]
  ]
]

-- Each operation stands once in the ordered list.
pub ordered_operations-perm :
    (operations : List Operation)
    → All Known operations
    → Perm (ordered_operations operations) operations
unfolding ordered_operations of_kind
ordered_operations-perm [] h = Perm.refl []
ordered_operations-perm (o ∷ os) h =
    let rest = Perm.cons o (ordered_operations-perm os h.1) in
    elim (Known-IsKind o h.0) [
      | is_insert (i, u, d) ↦ rw (keep, i, u, d) rest
      | is_update (i, u, d) ↦
          rw (keep, i, u, d)
            (Perm.trans
              (perm_middle (of_kind (codes "insert") os)
                (of_kind (codes "update") os ++ of_kind (codes "delete") os))
              rest)
      | is_delete (i, u, d) ↦
          rw (keep, i, u, d)
            (Perm.trans
              (Perm.append_left (of_kind (codes "insert") os)
                (perm_middle (of_kind (codes "update") os) (of_kind (codes "delete") os)))
              (Perm.trans
                (perm_middle (of_kind (codes "insert") os)
                  (of_kind (codes "update") os ++ of_kind (codes "delete") os))
                rest))
    ]

-- Operations of one kind, before operations that stand no earlier.
Ranked-before :
    (kind : Text) (xs ys : List Operation)
    → All (λ o. text_eq o.kind kind ≡ true) xs
    → All (λ o. leb (rank kind) (rank o.kind) ≡ true) ys
    → leb (rank kind) (rank kind) ≡ true
    → IsSorted is_before (kinds_of ys)
    → IsSorted is_before (kinds_of (xs ++ ys))
Ranked-before kind [] ys same later self sorted = sorted
Ranked-before kind (x ∷ xs) ys same later self sorted =
    let e = (text_eq_iff x.kind kind).0 same.0 in
    (
      rw e (All-append-kinds xs ys (alike xs same.1) later),
      Ranked-before kind xs ys same.1 later self sorted,
    )
  where
    alike :
        (zs : List Operation)
        → All (λ o. text_eq o.kind kind ≡ true) zs
        → All (λ o. leb (rank kind) (rank o.kind) ≡ true) zs
    alike [] h = tt
    alike (z ∷ zs) h = (rw ((text_eq_iff z.kind kind).0 h.0) self, alike zs h.1)

    All-append-kinds :
        (ys zs : List Operation)
        → All (λ o. leb (rank kind) (rank o.kind) ≡ true) ys
        → All (λ o. leb (rank kind) (rank o.kind) ≡ true) zs
        → All (λ k. leb (rank kind) (rank k) ≡ true) (kinds_of (ys ++ zs))
    All-append-kinds [] [] ha hb = tt
    All-append-kinds [] (b ∷ zs) ha hb = (hb.0, All-append-kinds [] zs tt hb.1)
    All-append-kinds (a ∷ ys) zs ha hb = (ha.0, All-append-kinds ys zs ha.1 hb)

-- The kind `l` stands no earlier than the kind `k`, for all operations of the kind `l`.
of_kind-later :
    (k l : Text) (os : List Operation)
    → leb (rank k) (rank l) ≡ true
    → All (λ o. text_eq o.kind l ≡ true) os
    → All (λ o. leb (rank k) (rank o.kind) ≡ true) os
of_kind-later k l [] h same = tt
of_kind-later k l (o ∷ os) h same =
    (rw ((text_eq_iff o.kind l).0 same.0) h, of_kind-later k l os h same.1)

-- The inserts first, then the updates, then the deletes.
pub ordered_operations-IsSorted :
    (operations : List Operation)
    → IsSorted is_before (map (λ o. o.kind) (ordered_operations operations))
unfolding ordered_operations of_kind
ordered_operations-IsSorted operations =
    let kept : (kind : Text) → All (λ o. text_eq o.kind kind ≡ true) (of_kind kind operations) =
      λ kind. keep-All (λ o. text_eq o.kind kind) operations in
    let inserts = kept (codes "insert") in
    let updates = kept (codes "update") in
    let deletes = kept (codes "delete") in
    let last =
      Ranked-before (codes "delete") (of_kind (codes "delete") operations) [] deletes tt refl tt in
    let middle =
      Ranked-before (codes "update") _ _ updates
        (of_kind-later (codes "update") (codes "delete") _ refl deletes) refl (tail _ last) in
    Ranked-before (codes "insert") _ _ inserts
      (All-append _ _ _ (of_kind-later (codes "insert") (codes "update") _ refl updates)
        (of_kind-later (codes "insert") (codes "delete") _ refl deletes))
      refl middle
  where
    tail :
        (xs : List Operation)
        → IsSorted is_before (kinds_of (xs ++ []))
        → IsSorted is_before (kinds_of xs)
    tail xs h = subst (λ ys. IsSorted is_before (kinds_of ys)) (append-nil xs) h
