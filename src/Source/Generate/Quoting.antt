-- ===== src/Source/Generate/Quoting.antt =====
-- internal/source/statements.go against internal/config/whenlex.go: the body of a generated function stays
-- within its quoting.
use pg_noty.Base.{
  ℕ, ◌≡◌, refl, sym, ap, ◌∙◌, false, ◌++◌, append_assoc, Text, codes, ok, bind_ok, then_ok, ok_inv,
}
use pg_noty.Config.WhenLexer.{delimiter, next_token}
use pg_noty.Schema.Identifier.{Quoter, quoted, qualified}
use pg_noty.Source.Literal.{contains, tag_at, dollar_quote_tag}
use pg_noty.Source.Literal.Tag.{dollar_quote_tag_lem}
use pg_noty.Source.Literal.Body.{dollar_quoted, dollar_quoted-token}
use pg_noty.Source.Generate.{
  Operation, Request, or_unusable, identifier_refusal, operation_abbreviation_for,
  validate_request_identifiers,
}
use pg_noty.Source.Generate.Statements.{
  TriggerStatements, tag_or_refusal, create_function_text, trigger_body, update_columns,
  when_clause, statements_for,
}

-- The tag that a body gets is one whose delimiter the body does not hold.
tag_free :
    (body tag : Text)
    → tag_or_refusal (dollar_quote_tag body) ≡ ok tag
    → (m : ℕ) × (tag ≡ tag_at m) × (contains body (delimiter (tag_at m)) ≡ false)
tag_free body tag h =
    let (m, found, _, free, _) = dollar_quote_tag_lem body in
    let same : tag_or_refusal (dollar_quote_tag body) ≡ ok (tag_at m) = rw found refl in
    (m, ok_inv (tag_or_refusal (dollar_quote_tag body)) h same, free)

-- What the function of a set says: a head, and the body in its quoting.
pub record Quoted (statement body : Text) : Type 0 where
  pub head : Text
  pub round : ℕ
  pub split : statement ≡ head ++ (dollar_quoted (tag_at round) body ++ codes ";")
  pub closed : next_token (dollar_quoted (tag_at round) body ++ codes ";") ≡ (codes ";", false)

abbrev function_head : Text → Text
function_head function =
    codes "CREATE OR REPLACE FUNCTION "
    ++ function
    ++ codes "() RETURNS trigger\n"
    ++ codes "  LANGUAGE plpgsql\n  SECURITY DEFINER\n"
    ++ codes "  SET search_path = pg_catalog, pg_temp\nAS "

module _ (q : Quoter) where
  -- Of the statements that are made, the function's text is a head and the body in its quoting, and the
  -- quoted body is one token, which ends where the generator ended it, whatever the body holds.
  pub statements_for_quotes :
      (request : Request) (operation : Operation) (name : Text) (statements : TriggerStatements)
      → statements_for q request operation name ≡ ok statements
      → (body : Text) × (trigger_body q request operation ≡ ok body)
        × Quoted statements.create_function body
  unfolding statements_for
  statements_for_quotes request operation name statements h =
      let t = request.target in
      let (_, h₁) = then_ok (validate_request_identifiers request) _ statements h in
      let (_, _, h₂) = bind_ok (operation_abbreviation_for operation.kind) _ statements h₁ in
      let (_, h₃) = then_ok (identifier_refusal (codes "function") name) _ statements h₂ in
      let (function, _, h₄) =
        bind_ok (or_unusable (codes "function") name (qualified q request.service_schema name)) _
          statements h₃ in
      let (table, _, h₅) =
        bind_ok (or_unusable (codes "target") t.table (qualified q t.schema t.table)) _ statements
          h₄ in
      let (body, made, h₆) = bind_ok (trigger_body q request operation) _ statements h₅ in
      let (tag, tagged, h₇) = bind_ok (tag_or_refusal (dollar_quote_tag body)) _ statements h₆ in
      let (trigger, _, h₈) =
        bind_ok (or_unusable (codes "trigger") name (quoted q name)) _ statements h₇ in
      let (columns, _, h₉) = bind_ok (update_columns q operation) _ statements h₈ in
      let (condition, _, h') = bind_ok (when_clause q operation) _ statements h₉ in
      let (m, is_tag, free) = tag_free body tag tagged in
      let text : create_function_text q function tag body ≡ statements.create_function =
        ap (λ r. r.create_function) (ok_inv _ refl h') in
      (
        body,
        made,
        record {
          head = function_head function;
          round = m;
          split =
              sym text
              ∙ (ap (λ x. create_function_text q function x body) is_tag
                  ∙ append_assoc (function_head function) (dollar_quoted (tag_at m) body)
                      (codes ";"));
          closed = dollar_quoted-token m body (codes ";") free;
        },
      )
