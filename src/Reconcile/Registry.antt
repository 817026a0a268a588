-- ===== src/Reconcile/Registry.antt =====
-- internal/reconcile/registry.go: the record of what was applied, one row for each listener and one for
-- each of its operations. The tables are listeners and listener_triggers of the service schema, with
-- their keys name, and listener and operation.
pub mod Rows
pub mod Written
use pg_noty.Base.{
  ◌≡◌, ◌==◌, Bool, true, false, not, ◌&&◌, ◌||◌, Option, none, some, List, [], ◌∷◌, map,
  if◌then◌else◌, any, keep, length, ℤ, Text, codes, text_eq, text_le, sort_by, Result, ok, err,
  ◌>>=◌, ◌>>◌, guard, ℕ,
}
use pg_noty.Schema.Identifier.{IdentifierFault, Quoter, qualified}
use pg_noty.Source.Qualified.{split_qualified}

pub record RegistryListener : Type 0 where
  pub name : Text
  pub spec : Text
  pub spec_hash : Text
  pub target_table : Text
  pub target_oid : ℕ
  pub enabled : Bool
  pub applied_at : ℤ

pub record RegistryTrigger : Type 0 where
  pub operation : Text
  pub trigger_name : Text
  pub function_name : Text
  pub ddl_hash : Text

pub record RegistryReading : Type 0 where
  pub listener : RegistryListener
  pub triggers : List RegistryTrigger

-- A row of listener_triggers: the listener and the rest.
abbrev pub TriggerRow : Type 0
TriggerRow = Text × RegistryTrigger

pub record Registry : Type 0 where
  pub listeners : List RegistryListener
  pub triggers : List TriggerRow

-- The statements, each of which the server can refuse.
pub data Statement : Type 0 where
  insert_listener : Statement
  insert_trigger : Text → Statement
  delete_triggers : Statement
  touch_listener : Statement
  delete_listener : Statement
  read_rows : Statement
  read_names : Statement

pub data RegistryError : Type 0 where
  unusable_name : IdentifierFault → RegistryError
  invalid_target : RegistryError
  no_rows : RegistryError
  server_error : Statement → RegistryError

-- The server's type jsonb, which the column spec has: the text of the value that it makes of a text, and
-- whether two values are the same. A text that is no JSON refuses the statement.
pub record Jsonb : Type 0 where
  pub render : Text → Text
  pub is_same : Text → Text → Bool
  pub is_same_self : (value : Text) → is_same value value ≡ true

-- `IS DISTINCT FROM` on the columns that an upsert sets, without applied_at.
abbrev pub same_listener : Jsonb → RegistryListener → RegistryListener → Bool
same_listener json a b =
    json.is_same a.spec b.spec
    && (text_eq a.spec_hash b.spec_hash
        && (text_eq a.target_table b.target_table
            && ((a.target_oid == b.target_oid)
                && (if a.enabled then b.enabled else not b.enabled))))

abbrev pub same_trigger : RegistryTrigger → RegistryTrigger → Bool
same_trigger a b =
    text_eq a.trigger_name b.trigger_name
    && (text_eq a.function_name b.function_name && text_eq a.ddl_hash b.ddl_hash)

-- INSERT ... ON CONFLICT (name) DO UPDATE ... WHERE ... IS DISTINCT FROM: the rows after it, and
-- whether one was affected.
unfoldable pub upsert_listener :
    Jsonb → ℤ → RegistryListener → List RegistryListener → List RegistryListener × Bool
upsert_listener json now l [] = (record l { applied_at = now } ∷ [], true)
upsert_listener json now l (s ∷ ss) =
    let rest = upsert_listener json now l ss in
    if text_eq s.name l.name
    then (if same_listener json s l
        then (s ∷ ss, false)
        else (record l { applied_at = now } ∷ ss, true))
    else (s ∷ rest.0, rest.1)

abbrev pub is_row_of : Text → Text → TriggerRow → Bool
is_row_of listener operation (l, t) = text_eq l listener && text_eq t.operation operation

unfoldable pub upsert_trigger : Text → RegistryTrigger → List TriggerRow → List TriggerRow × Bool
upsert_trigger listener t [] = ((listener, t) ∷ [], true)
upsert_trigger listener t (r ∷ rows) =
    let rest = upsert_trigger listener t rows in
    if is_row_of listener t.operation r
    then (if same_trigger (r.1) t then (r ∷ rows, false) else ((listener, t) ∷ rows, true))
    else (r ∷ rest.0, rest.1)

-- operation <> ALL (operations).
abbrev pub is_other_operation : List RegistryTrigger → Text → Bool
is_other_operation triggers operation = not (any (λ t. text_eq t.operation operation) triggers)

unfoldable pub delete_other_operations :
    Text → List RegistryTrigger → List TriggerRow → List TriggerRow
delete_other_operations listener triggers rows =
    keep (λ r. not (text_eq (r.0) listener && is_other_operation triggers r.1.operation)) rows

abbrev pub touched : ℤ → Text → RegistryListener → RegistryListener
touched now name l = if text_eq l.name name then record l { applied_at = now } else l

unfoldable pub listener_named : Text → List RegistryListener → Option RegistryListener
listener_named name [] = none
listener_named name (l ∷ ls) = if text_eq l.name name then some l else listener_named name ls

abbrev pub triggers_of : Text → List TriggerRow → List RegistryTrigger
triggers_of name [] = []
triggers_of name ((l, t) ∷ rows) =
    let rest = triggers_of name rows in if text_eq l name then t ∷ rest else rest

abbrev pub operation_le : RegistryTrigger → RegistryTrigger → Bool
operation_le a b = text_le a.operation b.operation

module _ (q : Quoter) where
  unfoldable pub qualified_registry_table : Text → Text → Result RegistryError Text
  qualified_registry_table service_schema table = elim (qualified q service_schema table) [
    | ok name ↦ ok name
    | err fault ↦ err (unusable_name fault)
  ]

  unfoldable pub canonical_target : Text → Result RegistryError Text
  unfolding split_qualified
  canonical_target stored = elim (split_qualified stored) [
    | none ↦ err invalid_target
    | some (schema, table) ↦ elim (qualified q schema table) [
      | ok target ↦ ok target
      | err fault ↦ err (unusable_name fault)
    ]
  ]

  -- `refuses` says which statements the server refuses.
  module _ (refuses : Statement → Bool) where
    abbrev pub executed : Statement → Result RegistryError (Unit {0})
    executed s = guard (not (refuses s)) (server_error s)

    unfoldable pub read_registry : Text → Text → Registry → Result RegistryError RegistryReading
    unfolding qualified_registry_table listener_named split_qualified
    read_registry service_schema name db =
        qualified_registry_table service_schema (codes "listeners") >>= λ _.
        qualified_registry_table service_schema (codes "listener_triggers") >>= λ _.
        executed read_rows >> elim (listener_named name db.listeners) [
          | none ↦ err no_rows
          | some l ↦ elim (split_qualified l.target_table) [
            | none ↦ err invalid_target
            | some _ ↦ ok (record {
              listener = l;
              triggers = sort_by operation_le (triggers_of name db.triggers);
            })
          ]
        ]

    -- The loop over the names.
    unfoldable pub read_each :
        Text → List Text → Registry → Result RegistryError (List RegistryReading)
    unfolding read_registry
    read_each service_schema [] db = ok []
    read_each service_schema (name ∷ names) db = read_registry service_schema name db >>= λ reading.
        read_each service_schema names db >>= λ readings. ok (reading ∷ readings)

    unfoldable pub read_registries : Text → Registry → Result RegistryError (List RegistryReading)
    unfolding qualified_registry_table read_each
    read_registries service_schema db =
        qualified_registry_table service_schema (codes "listeners") >>= λ _.
        executed read_names
        >> read_each service_schema (sort_by text_le (map (λ l. l.name) db.listeners)) db

    -- The loop over the triggers, with whether a row was affected so far.
    unfoldable pub upsert_triggers :
        Text
        → List RegistryTrigger
        → List TriggerRow × Bool
        → Result RegistryError (List TriggerRow × Bool)
    unfolding upsert_trigger
    upsert_triggers listener [] state = ok state
    upsert_triggers listener (t ∷ ts) (rows, changed) =
        let after = upsert_trigger listener t rows in
        executed (insert_trigger t.operation)
        >> upsert_triggers listener ts (after.0, changed || after.1)

    -- The end of `writeRegistry` behind the upserts.
    abbrev pub touch_if_changed :
        ℤ
        → Text
        → Bool
        → Bool
        → List RegistryListener
        → Result RegistryError (List RegistryListener)
    touch_if_changed now name changed listener_changed ls =
        if changed && not listener_changed
        then executed touch_listener >> ok (map (touched now name) ls)
        else ok ls

    unfoldable pub write_registry :
        Jsonb
        → ℤ
        → Text
        → RegistryListener
        → List RegistryTrigger
        → Registry
        → Result RegistryError (Registry × RegistryListener)
    unfolding qualified_registry_table canonical_target upsert_listener upsert_triggers
        delete_other_operations read_registry
    write_registry json now service_schema listener triggers db =
        qualified_registry_table service_schema (codes "listeners") >>= λ _.
        qualified_registry_table service_schema (codes "listener_triggers") >>= λ _.
        canonical_target listener.target_table >>= λ target.
        let row = record listener { spec = json.render listener.spec; target_table = target } in
        let stored = upsert_listener json now row db.listeners in
        executed insert_listener
        >> upsert_triggers listener.name triggers (db.triggers, stored.1)
        >>= λ upserted.
            let rows = delete_other_operations listener.name triggers (upserted.0) in
            let changed = upserted.1 || not (length rows == length (upserted.0)) in
            executed delete_triggers
            >> touch_if_changed now listener.name changed (stored.1) (stored.0)
            >>= λ listeners.
                let after : Registry = record { listeners = listeners; triggers = rows } in
                read_registry service_schema listener.name after >>= λ reading.
                ok (after, reading.listener)

    unfoldable pub delete_registry : Text → Text → Registry → Result RegistryError Registry
    unfolding qualified_registry_table
    delete_registry service_schema name db =
        qualified_registry_table service_schema (codes "listeners") >>= λ _.
        executed delete_listener
        >> ok (record {
          listeners = keep (λ l. not (text_eq l.name name)) db.listeners;
          triggers = keep (λ r. not (text_eq (r.0) name)) db.triggers;
        })
