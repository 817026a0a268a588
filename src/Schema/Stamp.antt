-- ===== src/Schema/Stamp.antt =====
-- internal/schema/partition.go: the name of a partition, from the stamps of its bounds.
use pg_noty.Base.{
  ℕ, zero, suc, ◌+◌, ◌-◌, ◌*◌, ◌/◌, ◌%◌, ◌∷◌, ◌++◌, if◌then◌else◌, ltb, leb, ℤ, pos, pos_part, ◌+ℤ◌,
  Text, codes,
}
use pg_noty.Schema.ObjectName.{object_name}
use pg_noty.Schema.Partition.{Range}

-- The last digits of a number, at a width.
abbrev pub padded : ℕ → ℕ → Text → Text
padded zero n rest = rest
padded (suc width) n rest = padded width (n / 10) ((48 + n % 10) ∷ rest)

pub record Date : Type 0 where
  pub year : ℕ
  pub month : ℕ
  pub day : ℕ

-- package time's civil date, in UTC, of a day counted from the first of March of the year 0.
unfoldable pub civil : ℕ → Date
civil z =
    let era = z / 146097 in
    let doe = z % 146097 in
    let yoe = (doe - doe / 1460 + doe / 36524 - doe / 146096) / 365 in
    let doy = doe - (365 * yoe + yoe / 4 - yoe / 100) in
    let mp = (5 * doy + 2) / 153 in
    let month = if ltb mp 10 then mp + 3 else mp - 9 in
    record {
      year = yoe + era * 400 + (if leb month 2 then 1 else 0);
      month = month;
      day = doy - (153 * mp + 2) / 5 + 1;
    }

-- From the first of March of the year 0 to the epoch, in nanoseconds. Every int64 instant is later.
abbrev epoch_offset : ℕ
epoch_offset = 62162035200000000000

unfoldable pub stamp_parts : Date → ℕ → ℕ → Text
stamp_parts d second nanos =
    padded 4 d.year (padded 2 d.month (padded 2 d.day (codes "T")))
    ++ padded 2 (second / 3600) (padded 2 (second / 60 % 60) (padded 2 (second % 60) (codes ".")))
    ++ padded 9 nanos (codes "Z")

-- `Format` with the layout "20060102T150405.000000000", and a Z.
unfoldable pub bound_stamp : ℤ → Text
unfolding civil stamp_parts
bound_stamp bound =
    let nanos = pos_part (bound +ℤ pos epoch_offset) in
    let seconds = nanos / 1000000000 in
    stamp_parts (civil (seconds / 86400)) (seconds % 86400) (nanos % 1000000000)

unfoldable pub range_name : Range → Text
unfolding bound_stamp object_name
range_name r = object_name (codes "events") (bound_stamp r.from ++ 95 ∷ bound_stamp r.to)
