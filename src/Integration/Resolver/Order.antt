-- ===== src/Integration/Resolver/Order.antt =====
-- The orders that the resolver takes a minimum by (resolver.py).
use hass_clips_manager.Prelude.{◌≡◌, false, arith}
use hass_clips_manager.Prelude.Int.{ℤ, int_lt}
use hass_clips_manager.Prelude.Order.{str_lt_asymm, str_lt_total, str_lt_not}
use hass_clips_manager.Prelude.Tables.Search.{IsOrder}
use hass_clips_manager.Integration.Resolver.{CollectionPolicy, by_id, by_priority}

pub by_id-IsOrder : IsOrder by_id
by_id-IsOrder = record {
  asymm = λ a b h. str_lt_asymm a.id b.id h;
  irrefl = λ a. ground (arith, str_lt_asymm a.id a.id);
  not_less = λ a b c h k. str_lt_not a.id b.id c.id h k;
}

int_lt_not : (a b c : ℤ) → int_lt a b ≡ false → int_lt b c ≡ false → int_lt a c ≡ false
int_lt_not a b c h k = ground arith

pub by_priority-IsOrder : IsOrder by_priority
by_priority-IsOrder = record {
  asymm = λ a b h. ground (arith, str_lt_asymm a.id b.id);
  irrefl = λ a. ground (arith, str_lt_asymm a.id a.id);
  not_less = λ a b c h k. ground (arith, str_lt_not a.id b.id c.id);
}

-- Collections that tie have the same id.
pub by_priority_tie :
    (a b : CollectionPolicy) → by_priority a b ≡ false → by_priority b a ≡ false → a.id ≡ b.id
by_priority_tie a b h k = ground (arith, str_lt_total a.id b.id)
