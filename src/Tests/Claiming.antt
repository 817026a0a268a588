-- ===== src/Tests/Claiming.antt =====
-- internal/source/claim.go and leasereclaim.go at concrete rows.
use pg_noty.Base.{◌≡◌, refl, true, none, some, List, [], ◌∷◌, pos, ok, codes, ◌+ℤ◌}
use pg_noty.Schema.Identifier.{why_unusable}
use pg_noty.Source.Store.{Store, Row, Event, pending, delivering}
use pg_noty.Source.Store.Tables.{find}
use pg_noty.Source.Transition.{Database}
use pg_noty.Source.Claim.{claim, claim_le}
use pg_noty.Source.Claim.Effect.{LeasedOrKept, claim_lem}
use pg_noty.Source.Claim.Order.{claim_earliest}
use pg_noty.Source.Sweep.{reclaim_expired}
use pg_noty.Tests.Settling.{src, db, st, st-Distinct, leased_row, waiting_row}

abbrev got : List Event
got =
    record {
      id = 3;
      listener = "orders";
      operation = codes "insert";
      occurred_at = pos 3;
      table = codes "orders";
      txid = 7;
      payload = codes "{}";
      attempt = 1;
    }
    ∷ []

abbrev taken_row : Row
taken_row = record (waiting_row 3 40) {
  status = delivering;
  attempts = 1;
  leased_until = some (pos 160);
  leased_by = some "worker-1";
}

abbrev taken : Store
taken = record st { queue = leased_row ∷ waiting_row 2 50 ∷ taken_row ∷ [] }

claimed_so : claim src db (pos 1) st ≡ ok (got, taken)
unfolding claim why_unusable ◌+ℤ◌
claimed_so = refl

claim_lem_example :
    LeasedOrKept src db (find 3 st.queue) (find 3 taken.queue)
    × (taken.events ≡ st.events)
    × (taken.deliveries ≡ st.deliveries)
claim_lem_example = claim_lem src db (pos 1) st 3 st-Distinct claimed_so

claim_earliest_example : claim_le (waiting_row 3 40) (waiting_row 2 50) ≡ true
unfolding ◌+ℤ◌
claim_earliest_example =
    claim_earliest src db (pos 1) st 2 3 (waiting_row 2 50) (waiting_row 3 40) st-Distinct
      claimed_so refl refl refl refl refl

abbrev later : Database
later = record db { now = pos 131 }

abbrev swept : Store
swept = record st {
  queue =
      record leased_row { status = pending; leased_until = none; leased_by = none }
      ∷ waiting_row 2 50
      ∷ waiting_row 3 40
      ∷ [];
}

swept_so : reclaim_expired src later st ≡ ok (1, swept)
unfolding reclaim_expired why_unusable
swept_so = refl
