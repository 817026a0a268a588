-- ===== src/Schema/ObjectName.antt =====
-- internal/schema/objectname.go: the name of a generated object, cut to what an identifier can hold.
pub mod Fits
use Prim.Native.Nat.{bit_xor}
use pg_noty.Base.{
  ℕ, zero, suc, ◌+◌, ◌-◌, ◌*◌, ◌/◌, ◌%◌, Bool, true, false, not, ◌&&◌, List, [], ◌∷◌, ◌++◌,
  if◌then◌else◌, ltb, leb, ◌==◌, length, take, drop, Text,
}
use pg_noty.Schema.Identifier.{max_identifier_bytes}

-- hash/fnv's New32a.
unfoldable pub fnv_32a : ℕ → Text → ℕ
fnv_32a hash [] = hash
fnv_32a hash (c ∷ s) = fnv_32a (bit_xor hash c * 16777619 % 4294967296) s

abbrev pub hex_digit : ℕ → ℕ
hex_digit n = if ltb n 10 then 48 + n else 87 + n

-- fmt's %0*x at a width: the last digits, most significant first. A 32-bit sum has eight.
unfoldable pub hex : ℕ → ℕ → Text → Text
hex zero n rest = rest
hex (suc width) n rest = hex width (n / 16) (hex_digit (n % 16) ∷ rest)

abbrev pub identifier_hash_hex_digits : ℕ
identifier_hash_hex_digits = 8

-- utf8.RuneStart: any byte but 10xxxxxx.
abbrev pub rune_start : ℕ → Bool
rune_start c = not (leb 128 c && ltb c 192)

-- Whether the byte at the index starts a rune. The index is within the text.
abbrev pub starts_rune : Text → ℕ → Bool
starts_rune text limit = elim (drop limit text) [ [] ↦ true | c ∷ _ ↦ rune_start c ]

unfoldable pub rune_boundary_at_or_before : Text → ℕ → ℕ
rune_boundary_at_or_before text zero = zero
rune_boundary_at_or_before text (suc limit) =
    let back = rune_boundary_at_or_before text limit in
    if starts_rune text (suc limit) then suc limit else back

unfoldable pub cut_name : Text → Text → Text
unfolding rune_boundary_at_or_before
cut_name full tag =
    take (rune_boundary_at_or_before full (max_identifier_bytes - length tag - 1)) full ++ 95 ∷ tag

unfoldable pub object_name : Text → Text → Text
unfolding fnv_32a hex
object_name base suffix =
    let full = base ++ 95 ∷ suffix in
    if leb (length full) max_identifier_bytes
    then full
    else cut_name full (hex identifier_hash_hex_digits (fnv_32a 2166136261 full) [])
