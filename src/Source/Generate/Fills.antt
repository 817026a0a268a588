-- ===== src/Source/Generate/Fills.antt =====
-- internal/source/generate.go: no expression and no statement is refused on a request that the validation passes.
use pg_noty.Base.{
  ◌≡◌, refl, inl, inr, Bool, true, false, not, ◌||◌, List, [], ◌∷◌, All, Text, codes, text_eq, ok,
  err, ◌>>=◌, Bool-cases,
}
use pg_noty.Schema.Identifier.{Quoter, quoted, qualified}
use pg_noty.Source.Literal.{tag_at, dollar_quote_tag}
use pg_noty.Source.Literal.Tag.{dollar_quote_tag_lem}
use pg_noty.Source.Generate.{
  Operation, Target, Request, Refusable, missing_primary_key, operation_abbreviation_for,
  payload_mode_known, or_unusable,
}
use pg_noty.Source.Generate.Images.{
  payload_key, without_columns, full_payload_expression, object_parts, null_expression,
  object_payload_expression, keys_payload_expression, row_payload_expression,
  old_payload_expression, payload_expressions_for,
}
use pg_noty.Source.Generate.Statements.{
  tag_or_refusal, quoted_columns, distinct_condition, when_clause, update_columns, service_table,
  trigger_body, statements_for,
}
use pg_noty.Source.Generate.Valid.{
  Done, Done-bind, Usable, Usable-refusal, Known, keyless, Valid, unknown_mode, events_usable,
  queue_usable, one_of,
}

module _ (q : Quoter) where
  pub quoted-Done :
      (field value name : Text) → Usable name → Done (or_unusable field value (quoted q name))
  unfolding quoted or_unusable
  quoted-Done field value name h = (q.sanitize (name ∷ []), rw (h, quoted) refl)

  qualified-Done :
      (field value schema name : Text)
      → Usable schema
      → Usable name
      → Done (or_unusable field value (qualified q schema name))
  unfolding qualified or_unusable
  qualified-Done field value schema name h k =
      (q.sanitize (schema ∷ name ∷ []), rw (h, qualified, k) refl)

  pub without_columns-Done :
      (columns : List Text) (expression : Text)
      → All Usable columns
      → Done (without_columns columns expression)
  unfolding without_columns payload_key
  without_columns-Done [] expression h = (expression, refl)
  without_columns-Done (column ∷ columns) expression h =
      rw (Usable-refusal (codes "payload column") column h.0) (without_columns-Done columns _ h.1)

  object_parts-Done :
      (columns : List Text) (row : Text) → All Usable columns → Done (object_parts q columns row)
  unfolding object_parts
  object_parts-Done [] row h = ([], refl)
  object_parts-Done (column ∷ columns) row h =
      Done-bind _ _ (quoted-Done (codes "payload column") column column h.0)
        (λ name. Done-bind _ _ (object_parts-Done columns row h.1) (λ parts. (_, refl)))

  object_payload-Done :
      (columns : List Text) (row : Text)
      → All Usable columns
      → Done (object_payload_expression q columns row)
  unfolding object_payload_expression
  object_payload-Done columns row h =
      Done-bind _ _ (object_parts-Done columns row h) (λ parts. (_, refl))

  full_payload-Done :
      (columns : List Text) (row : Text)
      → All Usable columns
      → Done (full_payload_expression columns row)
  unfolding full_payload_expression
  full_payload-Done columns row h = without_columns-Done columns _ h

  keys_payload-Done :
      (target : Target) (listener row : Text)
      → All Usable target.primary_key_columns
      → keyless target ≡ false
      → Done (keys_payload_expression q target listener row)
  unfolding keys_payload_expression
  keys_payload-Done target listener row h k = by_keys target.primary_key_columns h k
    where
      by_keys :
          (keys : List Text)
          → All Usable keys
          → (elim keys as (λ _. Bool) [ [] ↦ true | _ ∷ _ ↦ false ]) ≡ false
          → Done (elim keys as (λ _. Refusable Text) [
            | [] ↦ err (missing_primary_key listener)
            | key ∷ rest ↦ object_payload_expression q (key ∷ rest) row
          ])
      by_keys [] h k = absurd (cc)
      by_keys (key ∷ rest) h k = object_payload-Done (key ∷ rest) row h

  pub row_payload-Done :
      (request : Request) (row : Text)
      → Valid request
      → Done (
          row_payload_expression q request.listener.payload request.target request.listener.name
            row)
  unfolding row_payload_expression payload_mode_known
  row_payload-Done request row v =
      let mode = request.listener.payload.mode in
      elim (Bool-cases (text_eq mode (codes "full"))) [
        | inl e ↦ rw e (full_payload-Done request.listener.payload.exclude row v.exclude)
        | inr e ↦ elim (Bool-cases (text_eq mode (codes "columns"))) [
          | inl d ↦ rw (e, d) (object_payload-Done request.listener.payload.columns row v.columns)
          | inr d ↦ elim (Bool-cases (text_eq mode (codes "keys_only"))) [
            | inl k ↦
                rw (e, d, k)
                  (keys_payload-Done request.target request.listener.name row v.keys
                    (rw k at v.keyed))
            | inr k ↦ absurd (cc (unknown_mode mode e d k, v.mode))
          ]
        ]
      ]

  pub old_payload-Done :
      (request : Request) (kind : Text)
      → Valid request
      → Done (
          old_payload_expression q kind request.listener.payload request.target
            request.listener.name)
  unfolding old_payload_expression
  old_payload-Done request kind v =
      let image = row_payload-Done request (codes "OLD") v in
      let null : Done (ok null_expression) = (codes "NULL::jsonb", refl) in
      one_of (text_eq kind (codes "insert")) null (
        one_of (text_eq kind (codes "delete")) image (
          one_of (text_eq kind (codes "update"))
            (one_of request.listener.payload.include_old image null) null))

  pub payload-Done :
      (request : Request) (kind : Text)
      → Valid request
      → Done (operation_abbreviation_for kind)
      → Done (payload_expressions_for q kind request.listener request.target)
  unfolding payload_expressions_for
  payload-Done request kind v known = Done-bind _ _ known (λ abbreviation.
      Done-bind _ _ (tt, v.mode)
        (λ _.
          Done-bind _ _ (row_payload-Done request (codes "NEW") v)
            (λ image. Done-bind _ _ (old_payload-Done request kind v) (λ old. (_, refl)))))

  quoted_columns-Done : (columns : List Text) → All Usable columns → Done (quoted_columns q columns)
  unfolding quoted_columns
  quoted_columns-Done [] h = ([], refl)
  quoted_columns-Done (column ∷ columns) h =
      Done-bind _ _ (quoted-Done (codes "update column") column column h.0)
        (λ name. Done-bind _ _ (quoted_columns-Done columns h.1) (λ names. (_, refl)))

  -- What is done with the quoted columns, where there are any.
  of_columns-Done :
      (columns : List Text) (none_given : Text) (use_names : List Text → Text)
      → All Usable columns
      → Done (elim columns as (λ _. Refusable Text) [
        | [] ↦ ok none_given
        | column ∷ rest ↦ quoted_columns q (column ∷ rest) >>= λ names. ok (use_names names)
      ])
  of_columns-Done [] none_given use_names h = (none_given, refl)
  of_columns-Done (column ∷ rest) none_given use_names h =
      Done-bind _ _ (quoted_columns-Done (column ∷ rest) h) (λ names. (_, refl))

  update_columns-Done :
      (operation : Operation) → Known operation → Done (update_columns q operation)
  unfolding update_columns
  update_columns-Done operation k =
      one_of (not (text_eq operation.kind (codes "update")) || operation.is_distinct) ([], refl)
        (of_columns-Done operation.columns [] _ k.columns)

  when_clause-Done : (operation : Operation) → Known operation → Done (when_clause q operation)
  unfolding when_clause distinct_condition
  when_clause-Done operation k =
      Done-bind _ _
        (one_of (not (text_eq operation.kind (codes "update")) || not operation.is_distinct)
          ([], refl) (of_columns-Done operation.columns _ _ k.columns))
        (λ distinct. (_, refl))

  trigger_body-Done :
      (request : Request) (operation : Operation)
      → Valid request
      → Known operation
      → Done (trigger_body q request operation)
  unfolding trigger_body service_table
  trigger_body-Done request operation v k =
      let t = request.target in
      Done-bind _ _
        (qualified-Done (codes "service schema") _ _ (codes "events") v.service (events_usable))
        (λ events.
          Done-bind _ _
            (qualified-Done (codes "service schema") _ _ (codes "event_queue") v.service
              (queue_usable))
            (λ queue.
              Done-bind _ _
                (qualified-Done (codes "target") t.table t.schema t.table v.schema v.table)
                (λ table.
                  Done-bind _ _ (payload-Done request operation.kind v k.abbreviated)
                    (λ payload. (_, refl)))))

  tag-Done : (body : Text) → Done (tag_or_refusal (dollar_quote_tag body))
  tag-Done body = let (m, found, _, _, _) = dollar_quote_tag_lem body in rw found (tag_at m, refl)

  pub statements-Done :
      (request : Request) (operation : Operation) (name : Text)
      → Valid request
      → Known operation
      → Usable name
      → Done (statements_for q request operation name)
  unfolding statements_for
  statements-Done request operation name v k n =
      let t = request.target in
      Done-bind _ _ (tt, v.checked)
        (λ _. Done-bind _ _ k.abbreviated (λ abbreviation.
          Done-bind _ _ (tt, Usable-refusal (codes "function") name n)
            (λ _.
              Done-bind _ _
                (qualified-Done (codes "function") name request.service_schema name v.service n)
                (λ function.
                  Done-bind _ _
                    (qualified-Done (codes "target") t.table t.schema t.table v.schema v.table)
                    (λ table. Done-bind _ _ (trigger_body-Done request operation v k) (λ body.
                      Done-bind _ _ (tag-Done body) (λ tag.
                        Done-bind _ _ (quoted-Done (codes "trigger") name name n) (λ trigger.
                          Done-bind _ _ (update_columns-Done operation k) (λ columns.
                            Done-bind _ _ (when_clause-Done operation k)
                              (λ condition. (_, refl)))))))))))
