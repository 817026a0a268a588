-- ===== src/Tests/When.antt =====
-- internal/config/whenlex.go at concrete clauses.
use pg_noty.Base.{◌≡◌, refl, none, some, ◌∷◌, ◌++◌, codes}
use pg_noty.Config.WhenLexer.{first_bare_word}

found_after_literal : first_bare_word (codes "NEW.a = 'OLD' AND OLD.b > 1") (codes "OLD") ≡ some 18
unfolding first_bare_word
found_after_literal = refl

-- The server reads one constant here.
escape_string : first_bare_word (codes "E'a''\\' OLD '") (codes "OLD") ≡ none
unfolding first_bare_word
escape_string = refl

continued : first_bare_word (codes "E'a'" ++ (10 ∷ codes "'\\' OLD '")) (codes "OLD") ≡ none
unfolding first_bare_word
continued = refl

not_selected :
    first_bare_word (codes "NEW . /* x */ old > 1 or $a$OLD$a$ = old_") (codes "OLD") ≡ none
unfolding first_bare_word
not_selected = refl
