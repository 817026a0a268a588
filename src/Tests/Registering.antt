-- ===== src/Tests/Registering.antt =====
-- internal/reconcile/registry.go: a listener that loses one operation and gains another.
use pg_noty.Base.{
  if◌then◌else◌, ◌==◌, ◌||◌, text_eq, text_eq_iff, ◌≡◌, refl, Bool, true, false, some, [], ◌∷◌, ℤ,
  pos, Text, codes, Result, ok, err,
}
use pg_noty.Schema.Identifier.{model_quoter, qualified, why_unusable}
use pg_noty.Source.Qualified.{split_qualified, split_qualified_part, split_part_loop}
use pg_noty.Reconcile.Registry.{
  Jsonb, RegistryListener, RegistryTrigger, RegistryError, Registry, Statement, insert_trigger,
  server_error, qualified_registry_table, canonical_target, listener_named, upsert_listener,
  upsert_trigger, upsert_triggers, delete_other_operations, read_registry, write_registry,
}
use pg_noty.Reconcile.Registry.Rows.{trigger_at, last_at}
use pg_noty.Reconcile.Registry.Written.{Records, row_of, write_registry_lem}

-- A rendering of a flat object as the server makes it: a blank behind each colon and each comma.
abbrev spaced : Text → Text
spaced [] = []
spaced (c ∷ cs) =
    if (c == 58) || (c == 44)
    then c ∷ 32 ∷ spaced cs
    else if c == 32
    then spaced cs
    else c ∷ spaced cs

abbrev json : Jsonb
json = record { render = spaced; is_same = text_eq; is_same_self = λ t. (text_eq_iff t t).1 refl }

abbrev listener_of : Text → Text → ℤ → RegistryListener
listener_of name hash at = record {
  name = name;
  spec = codes "{\"mode\": \"full\"}";
  spec_hash = hash;
  target_table = codes "\"public\".\"orders\"";
  target_oid = 7;
  enabled = true;
  applied_at = at;
}

abbrev trigger_of : Text → Text → RegistryTrigger
trigger_of operation hash = record {
  operation = operation;
  trigger_name = codes "t";
  function_name = codes "f";
  ddl_hash = hash;
}

abbrev stored : Registry
stored = record {
  listeners =
      listener_of (codes "users") (codes "u") (pos 1)
      ∷ listener_of (codes "orders") (codes "h") (pos 1)
      ∷ [];
  triggers =
      (codes "users", trigger_of (codes "delete") (codes "u"))
      ∷ (codes "orders", trigger_of (codes "delete") (codes "a"))
      ∷ (codes "orders", trigger_of (codes "insert") (codes "a"))
      ∷ [];
}

abbrev orders : RegistryListener
orders = record (listener_of (codes "orders") (codes "h") (pos 0)) {
  spec = codes "{\"mode\":\"full\"}";
}

abbrev given :
    Registry → ℤ → (Statement → Bool) → Result RegistryError (Registry × RegistryListener)
given db now refuses =
    write_registry model_quoter refuses json now (codes "noty") orders
      (trigger_of (codes "insert") (codes "b") ∷ trigger_of (codes "update") (codes "b") ∷ []) db

abbrev none_refused : Statement → Bool
none_refused _ = false

abbrev update_refused : Statement → Bool
update_refused (insert_trigger _) = true
update_refused _ = false

abbrev written : Registry
written = record {
  listeners =
      listener_of (codes "users") (codes "u") (pos 1)
      ∷ listener_of (codes "orders") (codes "h") (pos 5)
      ∷ [];
  triggers =
      (codes "users", trigger_of (codes "delete") (codes "u"))
      ∷ (codes "orders", trigger_of (codes "insert") (codes "b"))
      ∷ (codes "orders", trigger_of (codes "update") (codes "b"))
      ∷ [];
}

-- The row of the listener itself did not change, but its triggers did, so it is stamped anew.
written_run :
    given stored (pos 5) none_refused
    ≡ ok (written, listener_of (codes "orders") (codes "h") (pos 5))
unfolding why_unusable qualified split_part_loop split_qualified_part split_qualified
    qualified_registry_table canonical_target listener_named upsert_listener upsert_trigger
    upsert_triggers delete_other_operations read_registry write_registry
written_run = refl

-- The same write once more, later, changes nothing.
again_run :
    given written (pos 9) none_refused
    ≡ ok (written, listener_of (codes "orders") (codes "h") (pos 5))
unfolding why_unusable qualified split_part_loop split_qualified_part split_qualified
    qualified_registry_table canonical_target listener_named upsert_listener upsert_trigger
    upsert_triggers delete_other_operations read_registry write_registry
again_run = refl

refused_run :
    given stored (pos 5) update_refused ≡ err (server_error (insert_trigger (codes "insert")))
unfolding why_unusable qualified split_part_loop split_qualified_part split_qualified
    qualified_registry_table canonical_target listener_named upsert_listener upsert_trigger
    upsert_triggers delete_other_operations read_registry write_registry
refused_run = refl

write_registry_lem_example :
    ((target : Text) × (canonical_target model_quoter orders.target_table ≡ ok target)
      × Records json (row_of json target orders) (listener_of (codes "orders") (codes "h") (pos 5)))
    × (listener_named (codes "orders") written.listeners
        ≡ some (listener_of (codes "orders") (codes "h") (pos 5)))
    × (trigger_at (codes "orders") (codes "delete") written.triggers
        ≡ last_at (codes "delete") (
            trigger_of (codes "insert") (codes "b") ∷ trigger_of (codes "update") (codes "b") ∷ []))
    × (listener_named (codes "users") written.listeners
        ≡ listener_named (codes "users") stored.listeners)
    × (trigger_at (codes "users") (codes "delete") written.triggers
        ≡ trigger_at (codes "users") (codes "delete") stored.triggers)
write_registry_lem_example =
    write_registry_lem model_quoter none_refused json (pos 5) (codes "noty") orders
      (trigger_of (codes "insert") (codes "b") ∷ trigger_of (codes "update") (codes "b") ∷ [])
      stored (codes "delete") (codes "users") refl written_run
