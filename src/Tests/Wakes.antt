-- ===== src/Tests/Wakes.antt =====
-- internal/delivery/wakeup.go: two notifications before the timer fires.
use pg_noty.Base.{true, List, [], ◌∷◌, ℤ, pos}
use pg_noty.Delivery.Wakeup.{Signal, notified, timer_fired, connection_lost}

abbrev zero_draw : ℤ → ℤ
zero_draw n = pos 0

abbrev burst : List (Signal zero_draw)
burst = notified true ∷ notified true ∷ timer_fired ∷ connection_lost ∷ notified true ∷ []
