-- ===== src/Source/Generate/Valid.antt =====
-- internal/source/generate.go: what the validation of a request establishes.
use pg_noty.Base.{
  ◌≡◌, refl, ◌∙◌, Bool, true, false, not, ◌&&◌, List, [], ◌∷◌, ◌++◌, if◌then◌else◌, arith, All,
  Text, codes, text_eq, text_eq_comm, ok, err, ◌>>=◌, guard, then_ok, bind_ok,
}
use pg_noty.Schema.Identifier.{why_unusable}
use pg_noty.Source.Generate.{
  Operation, Target, Request, Refusal, Refusable, unknown_payload_mode, operation_abbreviation_for,
  payload_mode_known, or_unusable, identifier_refusal, identifier_refusals,
  validate_target_identifiers, validate_request_identifiers, validate_operations,
  validate_generation_input,
}

-- A result that is no refusal.
abbrev pub Done : {A : Type 0} → Refusable A → Type 0
Done {A} r = (a : A) × (r ≡ ok a)

pub Done-bind :
    {A B : Type 0} (m : Refusable A) (f : A → Refusable B)
    → Done m
    → ((a : A) → Done (f a))
    → Done (m >>= f)
Done-bind m f (a, e) h = rw e (h a)

-- A name without a fault.
abbrev pub Usable : Text → Type 0
Usable name = why_unusable name ≡ ok tt

pub identifier_refusal-Usable :
    (field value : Text) → identifier_refusal field value ≡ ok tt → Usable value
unfolding identifier_refusal or_unusable
identifier_refusal-Usable field value h = ground (arith, h)

pub Usable-refusal : (field value : Text) → Usable value → identifier_refusal field value ≡ ok tt
unfolding identifier_refusal or_unusable
Usable-refusal field value h = rw h refl

pub identifier_refusals-Usable :
    (field : Text) (values : List Text)
    → identifier_refusals field values ≡ ok tt
    → All Usable values
unfolding identifier_refusals
identifier_refusals-Usable field [] h = tt
identifier_refusals-Usable field (value ∷ values) h =
    let (one, rest) =
      then_ok (identifier_refusal field value) (identifier_refusals field values) tt h in
    (identifier_refusal-Usable field value one, identifier_refusals-Usable field values rest)

pub All-split : (P : Text → Type 0) (xs ys : List Text) → All P (xs ++ ys) → All P xs × All P ys
All-split P [] ys h = (tt, h)
All-split P (x ∷ xs) ys h = let (a, b) = All-split P xs ys h.1 in ((h.0, a), b)

-- An operation that the validation passes.
pub record Known (operation : Operation) : Type 0 where
  pub abbreviated : Done (operation_abbreviation_for operation.kind)
  pub columns : All Usable operation.columns

pub validate_operations-Known :
    (operations : List Operation) → validate_operations operations ≡ ok tt → All Known operations
unfolding validate_operations
validate_operations-Known [] h = tt
validate_operations-Known (operation ∷ operations) h =
    let (abbreviation, found, rest) = bind_ok (operation_abbreviation_for operation.kind) _ tt h in
    let (columns, others) =
      then_ok (identifier_refusals (codes "update column") operation.columns)
        (validate_operations operations) tt rest in
    (
      record {
        abbreviated = (abbreviation, found);
        columns = identifier_refusals-Usable (codes "update column") operation.columns columns;
      },
      validate_operations-Known operations others,
    )

abbrev pub keyless : Target → Bool
keyless target = elim target.primary_key_columns [ [] ↦ true | _ ∷ _ ↦ false ]

-- What the validation establishes.
pub record Valid (request : Request) : Type 0 where
  pub checked : validate_request_identifiers request ≡ ok tt
  pub service : Usable request.service_schema
  pub name : Usable request.listener.name
  pub schema : Usable request.target.schema
  pub table : Usable request.target.table
  pub keys : All Usable request.target.primary_key_columns
  pub mode : payload_mode_known request.listener.payload.mode ≡ ok tt
  pub operations : All Known request.listener.operations
  pub columns : All Usable request.listener.payload.columns
  pub exclude : All Usable request.listener.payload.exclude
  pub keyed :
      (text_eq request.listener.payload.mode (codes "keys_only") && keyless request.target) ≡ false

pub validate-Valid : (request : Request) → validate_generation_input request ≡ ok tt → Valid request
unfolding validate_generation_input validate_request_identifiers validate_target_identifiers
validate-Valid request h =
    let (ids, after_ids) = then_ok (validate_request_identifiers request) _ tt h in
    let (mode, after_mode) =
      then_ok (payload_mode_known request.listener.payload.mode) _ tt after_ids in
    let (operations, after_operations) =
      then_ok (validate_operations request.listener.operations) _ tt after_mode in
    let (columns, key) =
      then_ok (identifier_refusals (codes "payload column") _) _ tt after_operations in
    let (service, after_service) =
      then_ok (identifier_refusal (codes "service schema") request.service_schema) _ tt ids in
    let (name, target) =
      then_ok (identifier_refusal (codes "listener") request.listener.name) _ tt after_service in
    let (schema, after_schema) =
      then_ok (identifier_refusal (codes "target schema") request.target.schema) _ tt target in
    let (table, keys) =
      then_ok (identifier_refusal (codes "target table") request.target.table) _ tt after_schema in
    let (listed, excluded) =
      All-split Usable request.listener.payload.columns request.listener.payload.exclude
        (identifier_refusals-Usable (codes "payload column") _ columns) in
    record {
      checked = ids;
      service = identifier_refusal-Usable (codes "service schema") _ service;
      name = identifier_refusal-Usable (codes "listener") _ name;
      schema = identifier_refusal-Usable (codes "target schema") _ schema;
      table = identifier_refusal-Usable (codes "target table") _ table;
      keys = identifier_refusals-Usable (codes "primary key column") _ keys;
      mode = mode;
      operations = validate_operations-Known request.listener.operations operations;
      columns = listed;
      exclude = excluded;
      keyed = guarded _ _ key;
    }
  where
    guarded : (b : Bool) (e : Refusal) → guard (not b) e ≡ ok tt → b ≡ false
    guarded true e h = absurd (cc)
    guarded false e h = refl

pub unknown_mode :
    (mode : Text)
    → text_eq mode (codes "full") ≡ false
    → text_eq mode (codes "columns") ≡ false
    → text_eq mode (codes "keys_only") ≡ false
    → payload_mode_known mode ≡ err (unknown_payload_mode mode)
unfolding payload_mode_known
unknown_mode mode a b c =
    rw
      (
        text_eq_comm (codes "full") mode ∙ a,
        text_eq_comm (codes "columns") mode ∙ b,
        text_eq_comm (codes "keys_only") mode ∙ c,
      )
      refl

pub events_usable : Usable (codes "events")
unfolding why_unusable
events_usable = refl

pub queue_usable : Usable (codes "event_queue")
unfolding why_unusable
queue_usable = refl

pub one_of :
    {A : Type 0} {r t : Refusable A} (b : Bool) → Done r → Done t → Done (if b then r else t)
one_of true h k = h
one_of false h k = k
