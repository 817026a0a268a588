-- ===== src/Source/Generate/Sets.antt =====
-- internal/source/generate.go and objectset.go: the objects of a request, one set for each operation.
use pg_noty.Base.{List, [], ◌∷◌, ◌++◌, Text, codes, ok, err, ◌>>=◌, ◌>>◌}
use pg_noty.Schema.Identifier.{Quoter}
use pg_noty.Schema.ObjectName.{object_name}
use pg_noty.Reconcile.Marker.{marker}
use pg_noty.Source.Generate.{
  Operation, Request, Refusable, operation_abbreviation_for, validate_generation_input,
  ordered_operations,
}
use pg_noty.Source.Generate.Statements.{TriggerStatements, statements_for}

pub record ObjectSet : Type 0 where
  pub operation : Text
  pub function_name : Text
  pub trigger_name : Text
  pub mark : Text
  pub statements : TriggerStatements

-- The abbreviation, or no text for an unknown operation, whose error is dropped.
abbrev pub abbreviation_or_empty : Refusable Text → Text
abbreviation_or_empty (ok abbreviation) = abbreviation
abbreviation_or_empty (err _) = []

unfoldable pub set_name : Request → Operation → Text
unfolding object_name operation_abbreviation_for
set_name request operation =
    object_name (codes "pg_noty_" ++ request.listener.name)
      (abbreviation_or_empty (operation_abbreviation_for operation.kind))

abbrev pub object_set : Request → Operation → TriggerStatements → ObjectSet
object_set request operation statements = record {
  operation = operation.kind;
  function_name = set_name request operation;
  trigger_name = set_name request operation;
  mark = marker request.instance_id request.listener.name operation.kind;
  statements = statements;
}

module _ (q : Quoter) where
  -- The loop over the operations.
  unfoldable pub object_sets : Request → List Operation → Refusable (List ObjectSet)
  unfolding set_name statements_for
  object_sets request [] = ok []
  object_sets request (operation ∷ operations) =
      statements_for q request operation (set_name request operation) >>= λ statements.
      object_sets request operations >>= λ sets. ok (object_set request operation statements ∷ sets)

  unfoldable pub generate : Request → Refusable (List ObjectSet)
  unfolding validate_generation_input object_sets
  generate request =
      validate_generation_input request
      >> object_sets request (ordered_operations request.listener.operations)
