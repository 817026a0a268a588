-- ===== src/Tests/Generation.antt =====
-- internal/source/generate.go at the request of a golden file, literals and their scanning.
use pg_noty.Base.{
  ℕ, ◌≡◌, ◌≤◌, ◌<◌, ◌⊎◌, refl, true, false, some, List, [], ◌∷◌, ◌++◌, map, All, IsSorted, Text,
  codes, ok, length,
}
use mathlib.Core.List.{Perm}
use pg_noty.Source.Generate.Ordered.{is_before}
use pg_noty.Schema.Identifier.{model_quoter, why_unusable, qualified, quoted}
use pg_noty.Reconcile.Marker.{marker}
use pg_noty.Source.Literal.{quote_literal, dollar_quote_tag, contains, tag_at}
use pg_noty.Source.Literal.Opaque.{quote_literal-token}
use pg_noty.Source.Literal.Tag.{dollar_quote_tag_lem}
use pg_noty.Config.WhenLexer.{next_token, continuation_quote, delimiter}
use pg_noty.Schema.ObjectName.{object_name, fnv_32a}
use pg_noty.Schema.ObjectName.Fits.{IsCutName, object_name_lem}
use pg_noty.Source.Generate.Quoting.{Quoted, statements_for_quotes}
use pg_noty.Source.Generate.Total.{generate_lem}
use pg_noty.Source.Generate.{Operation, Request, validate_generation_input}
use pg_noty.Source.Generate.Sets.{ObjectSet, generate}
use pg_noty.Source.Generate.Statements.{
  joined_lines, statements_for, trigger_body, TriggerStatements,
}

abbrev deletion : Operation
deletion = record { kind = codes "delete"; columns = []; is_distinct = false; condition = [] }

abbrev insertion : Operation
insertion = record deletion { kind = codes "insert" }

abbrev request : Request
request = record {
  instance_id = codes "prod";
  service_schema = codes "noty";
  listener = record {
    name = codes "order_paid";
    operations = deletion ∷ insertion ∷ [];
    payload = record {
      mode = codes "columns";
      columns = codes "id" ∷ codes "status" ∷ [];
      exclude = [];
      include_old = false;
    };
  };
  target = record {
    schema = codes "public";
    table = codes "orders";
    primary_key_columns = codes "id" ∷ [];
  };
}

-- The golden file grid_delete_columns_old_false.
abbrev golden : TriggerStatements
golden = record {
  create_function = joined_lines (
      codes "CREATE OR REPLACE FUNCTION \"noty\".\"pg_noty_order_paid_del\"() RETURNS trigger"
      ∷ codes "  LANGUAGE plpgsql"
      ∷ codes "  SECURITY DEFINER"
      ∷ codes "  SET search_path = pg_catalog, pg_temp"
      ∷ codes "AS $fn$"
      ∷ codes "BEGIN"
      ∷ codes "  WITH e AS ("
      ∷ codes
          "    INSERT INTO \"noty\".\"events\" (listener, table_name, operation, payload, txid, occurred_at)"
      ∷ codes "    VALUES ('order_paid', '\"public\".\"orders\"', 'delete',"
      ∷ codes
          "            jsonb_build_object('old', jsonb_build_object('id', OLD.\"id\", 'status', OLD.\"status\"), 'new', NULL::jsonb),"
      ∷ codes "            pg_current_xact_id(), clock_timestamp())"
      ∷ codes "    RETURNING id, occurred_at"
      ∷ codes "  )"
      ∷ codes "  INSERT INTO \"noty\".\"event_queue\""
      ∷ codes "         (event_id, occurred_at, listener, status, attempts, next_attempt_at)"
      ∷ codes "  SELECT e.id, e.occurred_at, 'order_paid', 'pending', 0, e.occurred_at FROM e;"
      ∷ []
      ∷ codes "  IF coalesce(current_setting('pg_noty.n', true), '') = '' THEN"
      ∷ codes "    PERFORM pg_notify('pg_noty_events_prod', '');"
      ∷ codes "    PERFORM set_config('pg_noty.n', '1', true);"
      ∷ codes "  END IF;"
      ∷ codes "  RETURN NULL;"
      ∷ codes "END"
      ∷ codes "$fn$;"
      ∷ []);
  revoke_execute =
      codes "REVOKE EXECUTE ON FUNCTION \"noty\".\"pg_noty_order_paid_del\"() FROM PUBLIC;";
  comment_function =
      codes
        "COMMENT ON FUNCTION \"noty\".\"pg_noty_order_paid_del\"() IS 'pg_noty:v1:prod:order_paid:delete';";
  create_trigger =
      codes
        "CREATE TRIGGER \"pg_noty_order_paid_del\" AFTER DELETE ON \"public\".\"orders\" FOR EACH ROW EXECUTE FUNCTION \"noty\".\"pg_noty_order_paid_del\"();";
  comment_trigger =
      codes
        "COMMENT ON TRIGGER \"pg_noty_order_paid_del\" ON \"public\".\"orders\" IS 'pg_noty:v1:prod:order_paid:delete';";
}

golden_statements :
    statements_for model_quoter request deletion (codes "pg_noty_order_paid_del") ≡ ok golden
unfolding statements_for qualified why_unusable quoted dollar_quote_tag quote_literal marker
golden_statements = refl

statements_for_quotes_example :
    (body : Text) × (trigger_body model_quoter request deletion ≡ ok body)
    × Quoted golden.create_function body
statements_for_quotes_example =
    statements_for_quotes model_quoter request deletion (codes "pg_noty_order_paid_del") golden
      golden_statements

request_passes : validate_generation_input request ≡ ok tt
unfolding validate_generation_input why_unusable
request_passes = refl

generate_lem_example :
    (sets : List ObjectSet) × (generate model_quoter request ≡ ok sets)
    × Perm (map (λ s. s.operation) sets) (codes "delete" ∷ codes "insert" ∷ [])
    × IsSorted is_before (map (λ s. s.operation) sets)
    × All (λ s. why_unusable s.function_name ≡ ok tt) sets
generate_lem_example = generate_lem model_quoter request request_passes

quote_literal-token_example :
    next_token (quote_literal (codes "a'b\\") ++ codes ", OLD") ≡ (codes ", OLD", false)
unfolding continuation_quote
quote_literal-token_example =
    quote_literal-token (codes "a'b\\") (codes ", OLD")
      (record { no_quote = refl; no_continuation = refl })

dollar_quote_tag_lem_example :
    (m : ℕ) × (dollar_quote_tag (codes "$fn$") ≡ some (tag_at m))
    × (m ≤ 4)
    × (contains (codes "$fn$") (delimiter (tag_at m)) ≡ false)
    × ((j : ℕ) → j < m → contains (codes "$fn$") (delimiter (tag_at j)) ≡ true)
dollar_quote_tag_lem_example = dollar_quote_tag_lem (codes "$fn$")

tagged : dollar_quote_tag (codes "a $fn$ b $fn_1$") ≡ some (codes "fn_2")
unfolding dollar_quote_tag
tagged = refl

abbrev long : Text
long = codes "pg_noty_a_listener_with_a_name_that_is_as_long_as_a_name_can_be_here"

object_name_lem_example :
    (why_unusable (object_name long (codes "ins")) ≡ ok tt)
    × ((object_name long (codes "ins") ≡ long ++ 95 ∷ codes "ins")
        ⊎ ((63 < length (long ++ 95 ∷ codes "ins"))
            × IsCutName (long ++ 95 ∷ codes "ins") (object_name long (codes "ins"))))
object_name_lem_example = object_name_lem long (codes "ins") refl refl

-- The hash of the empty text and of "a" as hash/fnv documents them.
hashed : (fnv_32a 2166136261 [] ≡ 2166136261) × (fnv_32a 2166136261 (codes "a") ≡ 3826002220)
unfolding fnv_32a
hashed = (refl, refl)
