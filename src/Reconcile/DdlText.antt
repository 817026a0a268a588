-- ===== src/Reconcile/DdlText.antt =====
-- internal/reconcile/ddltext.go: the statements that drop a trigger and its function, with the quoting of
-- names that the catalog holds.
use pg_noty.Base.{ℕ, ◌++◌, Text, codes, Result, ok, err, ◌>>=◌, ◌>>◌}
use pg_noty.Schema.Identifier.{IdentifierFault, Quoter, why_unusable, quoted, qualified}

-- catalog.go's TargetReading, without its columns and its key.
pub record TargetReading : Type 0 where
  pub oid : ℕ
  pub schema : Text
  pub table : Text

-- The errors of an apply: a name that cannot be quoted, a table lock that was not got in time with the
-- backend that blocked it, and any other error of the server.
pub data ApplyError : Type 0 where
  unusable : Text → Text → IdentifierFault → ApplyError
  table_lock_timeout : Text → Text → ApplyError
  server_error : ApplyError

abbrev pub or_fault : {A : Type 0} → Text → Text → Result IdentifierFault A → Result ApplyError A
or_fault subject name (ok a) = ok a
or_fault subject name (err fault) = err (unusable subject name fault)

module _ (q : Quoter) where
  unfoldable pub ddl_quoted : Text → Text → Result ApplyError Text
  ddl_quoted subject name =
      or_fault subject name (why_unusable name) >> or_fault subject name (quoted q name)

  unfoldable pub ddl_qualified : Text → Text → Text → Result ApplyError Text
  ddl_qualified subject schema_name name = do
    or_fault (subject ++ codes " schema") schema_name (why_unusable schema_name)
    or_fault (subject ++ codes " name") name (why_unusable name)
    or_fault subject (schema_name ++ codes "." ++ name) (qualified q schema_name name)

  abbrev pub table_name : TargetReading → Result ApplyError Text
  table_name target = ddl_qualified (codes "target table") target.schema target.table

  unfoldable pub drop_trigger_text : TargetReading → Text → Result ApplyError Text
  unfolding ddl_quoted ddl_qualified
  drop_trigger_text target name = ddl_quoted (codes "trigger") name >>= λ trigger.
      table_name target >>= λ table. ok (codes "DROP TRIGGER " ++ trigger ++ codes " ON " ++ table)

  unfoldable pub drop_function_text : Text → Text → Result ApplyError Text
  unfolding ddl_qualified
  drop_function_text service_schema name =
      ddl_qualified (codes "function") service_schema name >>= λ function.
      ok (codes "DROP FUNCTION " ++ function ++ codes "()")
