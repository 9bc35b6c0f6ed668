-- ===== src/Worker/Collections/Demotion.antt =====
-- After the demotion of the other defaults there is none (repositories.py).
use hass_clips_manager.Prelude.{
  ◌≡◌, refl, ◌∙◌, inl, inr, Bool, true, false, ◌&&◌, not, String, List, [], ◌∷◌, nat_eq, arith,
  eq_refl,
}
use hass_clips_manager.Prelude.Tables.{
  select_where, exists_where, update_where, count_where, Stored,
}
use hass_clips_manager.Prelude.Tables.Search.{Stored-select_where, exists_where-Stored}
use hass_clips_manager.Worker.Collections.{
  has_id, is_other_default, demoted, demote_each, demote_other_defaults,
}
use hass_clips_manager.Worker.Records.{Row, Tables, Caller}

-- The row is the one that a row selected before names.
abbrev matches : Row → Row → Bool
matches r x = has_id r.collection.id x && nat_eq x.collection.revision r.collection.revision

abbrev matched : List Row → Row → Bool
matched rs x = exists_where (λ r. matches r x) rs

-- Other defaults that are still to be demoted, and are not in the list
abbrev missed : String → List Row → List Row → Bool
missed keep_id rs rows = exists_where (λ x. is_other_default keep_id x && not (matched rs x)) rows

demote_one :
    (keep_id : String) (who : Caller) (r : Row) (rs rows : List Row)
    → missed keep_id (r ∷ rs) rows ≡ false
    → missed keep_id rs (update_where (matches r) (demoted who.now) rows) ≡ false
unfolding exists_where update_where
demote_one keep_id who r rs [] h = refl
demote_one keep_id who r rs (x ∷ xs) h = ground (arith, h, demote_one keep_id who r rs xs)

demote_all :
    (keep_id : String) (who : Caller) (rs : List Row) (db : Tables)
    → missed keep_id rs db.collections ≡ false
    → missed keep_id [] (demote_each keep_id who rs db).collections ≡ false
unfolding demote_each
demote_all keep_id who [] db h = h
demote_all keep_id who (r ∷ rs) db h =
    demote_all keep_id who rs _ (demote_one keep_id who r rs db.collections h)

matches_self : (x : Row) → matches x x ≡ true
matches_self x = ground (arith, eq_refl x.collection.id)

none_missed :
    (keep_id : String) (rs rows : List Row)
    → ((x : Row) → Stored x rows → is_other_default keep_id x ≡ true → matched rs x ≡ true)
    → missed keep_id rs rows ≡ false
unfolding exists_where
none_missed keep_id rs [] h = refl
none_missed keep_id rs (x ∷ xs) h =
    let rest = none_missed keep_id rs xs (λ y s k. h y (inr s) k) in
    ground (arith, h x (inl refl), rest)

plain :
    (keep_id : String) (rows : List Row)
    → missed keep_id [] rows ≡ false
    → exists_where (is_other_default keep_id) rows ≡ false
unfolding exists_where
plain keep_id [] h = refl
plain keep_id (x ∷ xs) h = ground (arith, h, plain keep_id xs)

-- After the demotion no default is left but the one that is kept.
pub none_other :
    (keep_id : String) (who : Caller) (db : Tables)
    → exists_where (is_other_default keep_id) (demote_other_defaults keep_id who db).collections
      ≡ false
unfolding demote_other_defaults
none_other keep_id who db =
    let others = select_where (is_other_default keep_id) db.collections in
    let found : (x : Row)
        → Stored x db.collections
        → is_other_default keep_id x ≡ true
        → matched others x ≡ true =
      λ x s k.
        exists_where-Stored (λ r. matches r x) x others
          (Stored-select_where (is_other_default keep_id) x db.collections s k) (matches_self x) in
    let left = demote_all keep_id who others db (none_missed keep_id others db.collections found) in
    plain keep_id (demote_each keep_id who others db).collections left

-- The demotion leaves the rows of each id as many as they are.
demote_ids_one :
    (k : String) (who : Caller) (r : Row) (rows : List Row)
    → count_where (has_id k) (update_where (matches r) (demoted who.now) rows)
      ≡ count_where (has_id k) rows
unfolding count_where update_where
demote_ids_one k who r [] = refl
demote_ids_one k who r (x ∷ xs) = ground (arith, demote_ids_one k who r xs)

demote_ids_each :
    (k keep_id : String) (who : Caller) (rs : List Row) (db : Tables)
    → count_where (has_id k) (demote_each keep_id who rs db).collections
      ≡ count_where (has_id k) db.collections
unfolding demote_each
demote_ids_each k keep_id who [] db = refl
demote_ids_each k keep_id who (r ∷ rs) db =
    demote_ids_each k keep_id who rs _ ∙ demote_ids_one k who r db.collections

pub demote_ids :
    (k keep_id : String) (who : Caller) (db : Tables)
    → count_where (has_id k) (demote_other_defaults keep_id who db).collections
      ≡ count_where (has_id k) db.collections
unfolding demote_other_defaults
demote_ids k keep_id who db =
    demote_ids_each k keep_id who (select_where (is_other_default keep_id) db.collections) db
