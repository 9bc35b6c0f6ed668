-- ===== src/Integration/Resolver/Tests.antt =====
-- The resolver at concrete collections.
use hass_clips_manager.Prelude.{
  ◌≡◌, refl, sym, ap, ◌∙◌, inl, inr, true, false, some, List, [], ◌∷◌, arith, eq_iff,
}
use hass_clips_manager.Prelude.Int.{pos}
use hass_clips_manager.Prelude.Tables.{select_where, find_where, first_by, Stored}
use hass_clips_manager.Prelude.Results.{ok}
use hass_clips_manager.Integration.Const.{PlaybackMode}
use hass_clips_manager.Integration.Resolver.{
  DateTime, automatic, SelectionReason, CollectionPolicy, SelectionResult, chosen,
  resolve_active_collection,
}
use hass_clips_manager.Integration.Resolver.Choice.{automatic_lem, AutomaticChoice, chosen_enabled}
use hass_clips_manager.Integration.Resolver.Listing.{order_irrelevant}

abbrev at_noon : DateTime
at_noon = record { instant = 12; aware = true }

abbrev cinema : CollectionPolicy
cinema = record {
  id = "cinema";
  enabled = true;
  priority = pos 5;
  starts_at = some (record { instant = 10; aware = true });
  ends_at = some (record { instant = 20; aware = true });
  is_default = false;
  allow_manual_override = true;
  playback_mode = PlaybackMode.random;
  ordered_clip_ids = [];
}

abbrev fallback : CollectionPolicy
fallback = record cinema {
  id = "base";
  is_default = true;
  starts_at = some (record { instant = 18; aware = true });
}

abbrev both : List CollectionPolicy
both = cinema ∷ fallback ∷ []

abbrev as_is : DateTime → DateTime
as_is t = t

chooses_cinema :
    resolve_active_collection as_is both automatic at_noon
    ≡ ok (chosen cinema SelectionReason.schedule)
unfolding resolve_active_collection select_where find_where first_by
chooses_cinema = refl

-- The two lists hold the same collections.
swap : (x : CollectionPolicy) → Stored x both → Stored x (fallback ∷ cinema ∷ [])
swap x (inl e) = inr (inl e)
swap x (inr (inl e)) = inl e
swap x (inr (inr b)) = elim b [ ]

swap_back : (x : CollectionPolicy) → Stored x (fallback ∷ cinema ∷ []) → Stored x both
swap_back x (inl e) = inr (inl e)
swap_back x (inr (inl e)) = inl e
swap_back x (inr (inr b)) = elim b [ ]

ids_differ : (x y : CollectionPolicy) → Stored x both → Stored y both → x.id ≡ y.id → x ≡ y
ids_differ x y (inl e) (inl f) h = sym e ∙ f
ids_differ x y (inl e) (inr (inl f)) h =
    let clash : "cinema" ≡ "base" = ap (λ c. c.id) e ∙ (h ∙ sym (ap (λ c. c.id) f)) in
    absurd (ground (arith, eq_iff "cinema" "base"))
ids_differ x y (inr (inl e)) (inl f) h =
    let clash : "base" ≡ "cinema" = ap (λ c. c.id) e ∙ (h ∙ sym (ap (λ c. c.id) f)) in
    absurd (ground (arith, eq_iff "base" "cinema"))
ids_differ x y (inr (inl e)) (inr (inl f)) h = sym e ∙ f
ids_differ x y (inr (inr b)) _ h = elim b [ ]
ids_differ x y (inl e) (inr (inr b)) h = elim b [ ]
ids_differ x y (inr (inl e)) (inr (inr b)) h = elim b [ ]

order_irrelevant_example :
    resolve_active_collection as_is both automatic at_noon
    ≡ resolve_active_collection as_is (fallback ∷ cinema ∷ []) automatic at_noon
order_irrelevant_example =
    order_irrelevant both (fallback ∷ cinema ∷ []) swap swap_back ids_differ as_is automatic at_noon

automatic_lem_example :
    (r : SelectionResult) × (resolve_active_collection as_is both automatic at_noon ≡ ok r)
    × AutomaticChoice both at_noon r
automatic_lem_example = automatic_lem as_is both at_noon refl

chosen_enabled_example : Stored cinema both × (cinema.enabled ≡ true)
chosen_enabled_example =
    chosen_enabled as_is both automatic at_noon (chosen cinema SelectionReason.schedule) cinema
      chooses_cinema refl
