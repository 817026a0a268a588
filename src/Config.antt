-- ===== src/Config.antt =====
-- internal/config: the part of the configuration's checks that the model covers.
pub mod WhenLexer
pub mod Ident
pub mod ConnString
pub mod Interpolation
