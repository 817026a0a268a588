-- ===== src/Source/Generate/Statements.antt =====
-- internal/source/whenclause.go, body.go and statements.go: the SQL of one operation's objects.
use pg_noty.Base.{
  ◌-◌, not, ◌&&◌, ◌||◌, Option, none, some, List, [], ◌∷◌, ◌++◌, map, if◌then◌else◌, leb, Text,
  codes, text_eq, is_empty, ok, err, ◌>>=◌, ◌>>◌,
}
use pg_noty.Schema.Identifier.{Quoter, quoted, qualified}
use pg_noty.Reconcile.Marker.{marker}
use pg_noty.Source.Literal.{quote_literal, dollar_quote_tag}
use pg_noty.Source.Literal.Body.{dollar_quoted}
use pg_noty.Source.Generate.{
  Operation, Request, Refusable, no_tag, or_unusable, identifier_refusal,
  operation_abbreviation_for, validate_request_identifiers,
}
use pg_noty.Source.Generate.Images.{PayloadExpressions, joined, payload_expressions_for}

pub record TriggerStatements : Type 0 where
  pub create_function : Text
  pub revoke_execute : Text
  pub comment_function : Text
  pub create_trigger : Text
  pub comment_trigger : Text

-- `strings.ToUpper` of ASCII.
abbrev pub to_upper : Text → Text
to_upper = map (λ c. if leb 97 c && leb c 122 then c - 32 else c)

-- The lines of a body, `strings.Join` with a line feed.
abbrev pub joined_lines : List Text → Text
joined_lines [] = []
joined_lines (l ∷ []) = l
joined_lines (l ∷ m ∷ ls) = l ++ 10 ∷ joined_lines (m ∷ ls)

abbrev pub tag_or_refusal : Option Text → Refusable Text
tag_or_refusal none = err no_tag
tag_or_refusal (some tag) = ok tag

module _ (q : Quoter) where
  -- The loops over the columns of an update.
  unfoldable pub quoted_columns : List Text → Refusable (List Text)
  unfolding or_unusable
  quoted_columns [] = ok []
  quoted_columns (column ∷ columns) =
      or_unusable (codes "update column") column (quoted q column) >>= λ name.
      quoted_columns columns >>= λ names. ok (name ∷ names)

  abbrev pub rows_differ : List Text → Text
  rows_differ names =
      codes "pg_catalog.to_jsonb(ROW("
      ++ joined (map (λ n. codes "OLD." ++ n) names)
      ++ codes ")) IS DISTINCT FROM pg_catalog.to_jsonb(ROW("
      ++ joined (map (λ n. codes "NEW." ++ n) names)
      ++ codes "))"

  unfoldable pub distinct_condition : Operation → Refusable Text
  unfolding quoted_columns
  distinct_condition operation =
      if not (text_eq operation.kind (codes "update")) || not operation.is_distinct
      then ok []
      else elim operation.columns [
        | [] ↦ ok (codes "pg_catalog.to_jsonb(OLD) IS DISTINCT FROM pg_catalog.to_jsonb(NEW)")
        | column ∷ columns ↦ quoted_columns (column ∷ columns) >>= λ names. ok (rows_differ names)
      ]

  abbrev pub with_condition : Text → Text → Text
  with_condition distinct condition =
      if not (is_empty distinct) && not (is_empty condition)
      then codes " WHEN ((" ++ distinct ++ codes ") AND (" ++ condition ++ codes "))"
      else if not (is_empty distinct)
      then codes " WHEN (" ++ distinct ++ codes ")"
      else if is_empty condition
      then []
      else codes " WHEN (" ++ condition ++ codes ")"

  unfoldable pub when_clause : Operation → Refusable Text
  unfolding distinct_condition
  when_clause operation =
      distinct_condition operation >>= λ distinct. ok (with_condition distinct operation.condition)

  unfoldable pub update_columns : Operation → Refusable Text
  unfolding quoted_columns
  update_columns operation =
      if not (text_eq operation.kind (codes "update")) || operation.is_distinct
      then ok []
      else elim operation.columns [
        | [] ↦ ok []
        | column ∷ columns ↦
            quoted_columns (column ∷ columns) >>= λ names. ok (codes " OF " ++ joined names)
      ]

  unfoldable pub service_table : Text → Text → Refusable Text
  unfolding or_unusable
  service_table schema table =
      or_unusable (codes "service schema") schema (qualified q schema table)

  -- The lines of the body, with what is quoted in it.
  abbrev pub body_lines : Text → Text → Text → Text → Text → Text → PayloadExpressions → List Text
  body_lines events queue listener table operation channel payload =
      codes "BEGIN"
      ∷ codes "  WITH e AS ("
      ∷ (codes "    INSERT INTO "
          ++ events
          ++ codes " (listener, table_name, operation, payload, txid, occurred_at)")
      ∷ (codes "    VALUES ("
          ++ listener
          ++ codes ", "
          ++ table
          ++ codes ", "
          ++ operation
          ++ codes ",")
      ∷ (codes "            jsonb_build_object("
          ++ quote_literal (codes "old")
          ++ codes ", "
          ++ payload.old
          ++ codes ", "
          ++ quote_literal (codes "new")
          ++ codes ", "
          ++ payload.fresh
          ++ codes "),")
      ∷ codes "            pg_current_xact_id(), clock_timestamp())"
      ∷ codes "    RETURNING id, occurred_at"
      ∷ codes "  )"
      ∷ (codes "  INSERT INTO " ++ queue)
      ∷ codes "         (event_id, occurred_at, listener, status, attempts, next_attempt_at)"
      ∷ (codes "  SELECT e.id, e.occurred_at, "
          ++ listener
          ++ codes ", "
          ++ quote_literal (codes "pending")
          ++ codes ", 0, e.occurred_at FROM e;")
      ∷ []
      ∷ (codes "  IF coalesce(current_setting("
          ++ quote_literal (codes "pg_noty.n")
          ++ codes ", true), "
          ++ quote_literal []
          ++ codes ") = "
          ++ quote_literal []
          ++ codes " THEN")
      ∷ (codes "    PERFORM pg_notify(" ++ channel ++ codes ", " ++ quote_literal [] ++ codes ");")
      ∷ (codes "    PERFORM set_config("
          ++ quote_literal (codes "pg_noty.n")
          ++ codes ", "
          ++ quote_literal (codes "1")
          ++ codes ", true);")
      ∷ codes "  END IF;"
      ∷ codes "  RETURN NULL;"
      ∷ codes "END"
      ∷ []

  unfoldable pub trigger_body : Request → Operation → Refusable Text
  unfolding service_table payload_expressions_for
  trigger_body request operation = do
    let target = request.target
    events ← service_table request.service_schema (codes "events")
    queue ← service_table request.service_schema (codes "event_queue")
    table ← or_unusable (codes "target") target.table (qualified q target.schema target.table)
    payload ← payload_expressions_for q operation.kind request.listener target
    ok (
        joined_lines (
          body_lines events queue (quote_literal request.listener.name) (quote_literal table)
            (quote_literal operation.kind)
            (quote_literal (codes "pg_noty_events_" ++ request.instance_id)) payload))

  abbrev pub create_function_text : Text → Text → Text → Text
  create_function_text function tag body =
      codes "CREATE OR REPLACE FUNCTION "
      ++ function
      ++ codes "() RETURNS trigger\n"
      ++ codes "  LANGUAGE plpgsql\n  SECURITY DEFINER\n"
      ++ codes "  SET search_path = pg_catalog, pg_temp\nAS "
      ++ dollar_quoted tag body
      ++ codes ";"

  unfoldable pub statements_for : Request → Operation → Text → Refusable TriggerStatements
  unfolding validate_request_identifiers trigger_body update_columns when_clause
  statements_for request operation name = do
    let target = request.target
    validate_request_identifiers request
    abbreviation ← operation_abbreviation_for operation.kind
    identifier_refusal (codes "function") name
    function ← or_unusable (codes "function") name (qualified q request.service_schema name)
    table ← or_unusable (codes "target") target.table (qualified q target.schema target.table)
    body ← trigger_body request operation
    tag ← tag_or_refusal (dollar_quote_tag body)
    trigger ← or_unusable (codes "trigger") name (quoted q name)
    columns ← update_columns operation
    condition ← when_clause operation
    let mark = quote_literal (marker request.instance_id request.listener.name operation.kind)
    ok (record {
      create_function = create_function_text function tag body;
      revoke_execute = codes "REVOKE EXECUTE ON FUNCTION " ++ function ++ codes "() FROM PUBLIC;";
      comment_function =
          codes "COMMENT ON FUNCTION " ++ function ++ codes "() IS " ++ mark ++ codes ";";
      create_trigger =
          codes "CREATE TRIGGER "
          ++ trigger
          ++ codes " AFTER "
          ++ to_upper operation.kind
          ++ columns
          ++ codes " ON "
          ++ table
          ++ codes " FOR EACH ROW"
          ++ condition
          ++ codes " EXECUTE FUNCTION "
          ++ function
          ++ codes "();";
      comment_trigger =
          codes "COMMENT ON TRIGGER "
          ++ trigger
          ++ codes " ON "
          ++ table
          ++ codes " IS "
          ++ mark
          ++ codes ";";
    })
