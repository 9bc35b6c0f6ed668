-- ===== src/Slug/Tests.antt =====
-- Identifiers that are accepted and refused.
use hass_clips_manager.Prelude.{◌≡◌, refl, true, false}
use hass_clips_manager.Slug.{is_slug}

accepts_a_dash : is_slug "summer-24" ≡ true
unfolding is_slug
accepts_a_dash = refl

refuses_a_double_dash : is_slug "summer--24" ≡ false
unfolding is_slug
refuses_a_double_dash = refl

refuses_a_capital : is_slug "Summer" ≡ false
unfolding is_slug
refuses_a_capital = refl
