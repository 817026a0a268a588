-- ===== src/Source/Generate.antt =====
-- internal/source/target.go, operation.go, payloadmode.go, refusal.go and generate.go: the request for a
-- listener's trigger objects, its validation, and the generation of one set for each operation.
pub mod Images
pub mod Statements
pub mod Sets
pub mod Valid
pub mod Fills
pub mod Ordered
pub mod Total
pub mod Quoting
use pg_noty.Base.{
  ℕ, Bool, true, false, not, ◌&&◌, Option, none, some, List, [], ◌∷◌, ◌++◌, if◌then◌else◌, keep,
  Text, codes, text_eq, is_empty, Result, ok, err, ◌>>=◌, ◌>>◌, guard,
}
use pg_noty.Schema.Identifier.{IdentifierFault, why_unusable}

pub record Operation : Type 0 where
  pub kind : Text
  pub columns : List Text
  pub is_distinct : Bool
  pub condition : Text

pub record Payload : Type 0 where
  pub mode : Text
  pub columns : List Text
  pub exclude : List Text
  pub include_old : Bool

pub record Listener : Type 0 where
  pub name : Text
  pub operations : List Operation
  pub payload : Payload

pub record Target : Type 0 where
  pub schema : Text
  pub table : Text
  pub primary_key_columns : List Text

pub record Request : Type 0 where
  pub instance_id : Text
  pub service_schema : Text
  pub listener : Listener
  pub target : Target

-- The refusals. The last one has no counterpart: it stands for a search for a tag that does not end.
pub data Refusal : Type 0 where
  unusable_identifier : Text → Text → IdentifierFault → Refusal
  missing_primary_key : Text → Refusal
  unknown_operation : Text → Refusal
  unknown_payload_mode : Text → Refusal
  no_tag : Refusal

abbrev pub Refusable : Type 0 → Type 0
Refusable A = Result Refusal A

abbrev pub operation_abbreviations : List (Text × Text)
operation_abbreviations =
    (codes "insert", codes "ins")
    ∷ (codes "update", codes "upd")
    ∷ (codes "delete", codes "del")
    ∷ []

-- The loop over the entries.
unfoldable pub abbreviation_in : List (Text × Text) → Text → Refusable Text
abbreviation_in [] kind = err (unknown_operation kind)
abbreviation_in ((known, abbreviation) ∷ entries) kind =
    if text_eq known kind then ok abbreviation else abbreviation_in entries kind

unfoldable pub operation_abbreviation_for : Text → Refusable Text
unfolding abbreviation_in
operation_abbreviation_for kind = abbreviation_in operation_abbreviations kind

unfoldable pub payload_mode_known : Text → Refusable (Unit {0})
payload_mode_known mode =
    if text_eq (codes "full") mode
    then ok tt
    else if text_eq (codes "columns") mode
    then ok tt
    else if text_eq (codes "keys_only") mode
    then ok tt
    else err (unknown_payload_mode mode)

unfoldable pub or_unusable : {A : Type 0} → Text → Text → Result IdentifierFault A → Refusable A
or_unusable field value (ok a) = ok a
or_unusable field value (err reason) = err (unusable_identifier field value reason)

unfoldable pub identifier_refusal : Text → Text → Refusable (Unit {0})
unfolding or_unusable
identifier_refusal field value = or_unusable field value (why_unusable value)

-- The loops over the names of one field.
unfoldable pub identifier_refusals : Text → List Text → Refusable (Unit {0})
unfolding identifier_refusal
identifier_refusals field [] = ok tt
identifier_refusals field (value ∷ values) =
    identifier_refusal field value >> identifier_refusals field values

unfoldable pub validate_target_identifiers : Target → Refusable (Unit {0})
unfolding identifier_refusals
validate_target_identifiers target = do
  identifier_refusal (codes "target schema") target.schema
  identifier_refusal (codes "target table") target.table
  identifier_refusals (codes "primary key column") target.primary_key_columns

unfoldable pub validate_request_identifiers : Request → Refusable (Unit {0})
unfolding validate_target_identifiers
validate_request_identifiers request = do
  identifier_refusal (codes "service schema") request.service_schema
  identifier_refusal (codes "listener") request.listener.name
  validate_target_identifiers request.target

unfoldable pub validate_operations : List Operation → Refusable (Unit {0})
unfolding operation_abbreviation_for identifier_refusals
validate_operations [] = ok tt
validate_operations (operation ∷ operations) = operation_abbreviation_for operation.kind >>= λ _.
    identifier_refusals (codes "update column") operation.columns >> validate_operations operations

unfoldable pub validate_generation_input : Request → Refusable (Unit {0})
unfolding validate_request_identifiers payload_mode_known validate_operations identifier_refusals
validate_generation_input request = do
  let payload = request.listener.payload
  validate_request_identifiers request
  payload_mode_known payload.mode
  validate_operations request.listener.operations
  identifier_refusals (codes "payload column") (payload.columns ++ payload.exclude)
  let keyless : Bool = elim request.target.primary_key_columns [ [] ↦ true | _ ∷ _ ↦ false ]
  guard (not (text_eq payload.mode (codes "keys_only") && keyless))
      (missing_primary_key request.listener.name)

unfoldable pub of_kind : Text → List Operation → List Operation
of_kind kind = keep (λ o. text_eq o.kind kind)

unfoldable pub ordered_operations : List Operation → List Operation
unfolding of_kind
ordered_operations operations =
    of_kind (codes "insert") operations
    ++ (of_kind (codes "update") operations ++ of_kind (codes "delete") operations)
