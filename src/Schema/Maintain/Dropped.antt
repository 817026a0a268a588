-- ===== src/Schema/Maintain/Dropped.antt =====
-- internal/schema/retentiondrop.go: what a drop that is committed has done.
use pg_noty.Base.{
  ℕ, ◌≡◌, refl, subst, Bool, true, false, not, ◌&&◌, List, [], ◌∷◌, arith, keep, Text, ok, guard,
  then_ok, bind_ok, guard_ok, ok_inv,
}
use pg_noty.Source.Store.{Row, is_dead}
use pg_noty.Schema.Partition.{Range}
use pg_noty.Schema.Maintain.{
  Partition, Database, Weather, server_error, unattached, referenced, nameable, is_named,
}
use pg_noty.Schema.Maintain.Mark.{
  MarkerReading, ours, absent, unreadable, foreign, marker_reading_of, partition_marker_suffix,
  refusal_for_marker,
}
use pg_noty.Schema.Maintain.Drop.{
  comment_on, is_partition_of, within, reap_dead_rows, is_referenced, drop_within_one_transaction,
  drop_one,
}

abbrev pub is_live : Row → Bool
is_live row = not (is_dead row)

pub record Dropped (instance_id : Text) (p : Partition) (db db' : Database) : Type 0 where
  pub marked :
      marker_reading_of partition_marker_suffix (comment_on p.name db.tables) instance_id ≡ ours
  pub attached : is_partition_of p.name db.tables ≡ true
  pub tables : db'.tables ≡ keep (λ t. not (is_named p.name t)) db.tables
  pub reaped : db'.queue ≡ reap_dead_rows p.extent db.queue
  pub unreferenced : is_referenced p.name (record db { queue = db'.queue }) ≡ false

refusal-ours : (m : MarkerReading) → refusal_for_marker m ≡ ok tt → m ≡ ours
unfolding refusal_for_marker
refusal-ours ours h = refl
refusal-ours absent h = absurd (cc)
refusal-ours unreadable h = absurd (cc)
refusal-ours (foreign other) h = absurd (cc)

transaction_lem :
    (instance_id : Text) (p : Partition) (db : Database) (r : Database × ℕ)
    → drop_within_one_transaction instance_id p db ≡ ok r
    → Dropped instance_id p db r.0
unfolding drop_within_one_transaction
transaction_lem instance_id p db r h =
    let (mark, h₁) =
      then_ok
        (refusal_for_marker
          (marker_reading_of partition_marker_suffix (comment_on p.name db.tables) instance_id))
        _ r h in
    let (attached, h₂) = then_ok (guard (is_partition_of p.name db.tables) unattached) _ r h₁ in
    let (free, h') =
      then_ok
        (guard (not (is_referenced p.name (record db { queue = reap_dead_rows p.extent db.queue })))
          referenced)
        _ r h₂ in
    let same = ok_inv _ refl h' in
    subst (λ x. Dropped instance_id p db x.0) same
      (record {
        marked = refusal-ours _ mark;
        attached = guard_ok _ unattached attached;
        tables = refl;
        reaped = refl;
        unreferenced = ground (arith, guard_ok _ referenced free);
      })

-- A drop that is committed was of a table that is attached to the event log and carries this
-- instance's marker. It takes that table away and no other, and from the queue it takes the dead rows in
-- the extent and no others; after it no row of the queue is in the table's extent.
pub drop_one_lem :
    (schema instance_id : Text) (p : Partition) (w : Weather) (db db' : Database)
    → drop_one schema instance_id p w db ≡ ok db'
    → Dropped instance_id p db db'
unfolding drop_one
drop_one_lem schema instance_id p w db db' h =
    let (_, h₁) = then_ok (nameable schema) _ db' h in
    let (_, h₂) = then_ok (nameable p.name) _ db' h₁ in
    let (_, h₃) = then_ok (guard (not w.lost) server_error) _ db' h₂ in
    let (r, dropped, h₄) = bind_ok (drop_within_one_transaction instance_id p db) _ db' h₃ in
    let (_, h') = then_ok (guard (not w.commit_lost) server_error) _ db' h₄ in
    subst (Dropped instance_id p db) (ok_inv _ refl h') (transaction_lem instance_id p db r dropped)

pub keep_kept :
    {A : Type 0} (p q : A → Bool) (xs : List A)
    → ((x : A) → p x ≡ true → q x ≡ true)
    → keep p (keep q xs) ≡ keep p xs
keep_kept p q [] h = refl
keep_kept p q (x ∷ xs) h = ground (arith, keep_kept p q xs h, h x)

pub reap-live :
    (r : Range) (queue : List Row) → keep is_live (reap_dead_rows r queue) ≡ keep is_live queue
unfolding reap_dead_rows
reap-live r queue = keep_kept is_live _ queue (λ row h. live_row row h)
  where
    live_row : (row : Row) → is_live row ≡ true → not (is_dead row && within r row) ≡ true
    live_row row h = ground (arith, h)
