-- ===== src/Worker/Collections/Revisions.antt =====
-- A patch against a revision that another patch has used is refused (repositories.py).
use mathlib.Core.Path.{subst}
use hass_clips_manager.Prelude.{
  ◌≡◌, refl, sym, ap, ◌∙◌, inl, inr, ℕ, Bool, true, false, ◌&&◌, String, Option, none, some, List,
  [], ◌∷◌, if◌then◌else◌, ◌==◌, nat_eq, arith, eq_iff, Bool-cases,
}
use hass_clips_manager.Prelude.Tables.{select_where, exists_where, update_where, All}
use hass_clips_manager.Prelude.Results.{ok, err, raise_if, >>=-eq_ok}
use hass_clips_manager.Worker.Collections.{
  get, demote_each, demote_other_defaults, replay, remember, audited, finish, patched, has_id,
  at_revision, demoted, update_row, patch_new, patch, is_unchanged, require_patched_profile,
  makes_default, is_other_default,
}
use hass_clips_manager.Worker.Records.{
  Row, Payload, changes, Material, Tables, RepositoryError, Caller, optimistic_conflict,
}
use hass_clips_manager.Worker.Domain.{CollectionPatch, CollectionRecord}

-- What a demotion of the other defaults leaves of the rows of one id
abbrev Other : String → Row → Type 0
Other id r = (r.collection.id == id) ≡ false

others_differ :
    (id : String) (rows : List Row) → All (Other id) (select_where (is_other_default id) rows)
unfolding select_where
others_differ id [] = tt
others_differ id (r ∷ rs) = elim (Bool-cases (is_other_default id r)) [
  | inl e ↦ rw (e, select_where) (ground (arith, e), others_differ id rs)
  | inr e ↦ rw (e, select_where) (others_differ id rs)
]

-- An update of the rows of one id hides no row of another.
update_other :
    (id k : String) (test : Row → Bool) (f : Row → Row) (revision n : ℕ) (rows : List Row)
    → (k == id) ≡ false
    → ((x : Row) → has_id k (f x) ≡ has_id k x)
    → exists_where
        (λ x. has_id id x && test x)
        (update_where (λ x. has_id k x && nat_eq x.collection.revision n) f rows)
      ≡ exists_where (λ x. has_id id x && test x) rows
unfolding exists_where update_where
update_other id k test f revision n [] h keeps = refl
update_other id k test f revision n (r ∷ rs) h keeps = ground (
  arith,
  h,
  keeps r,
  update_other id k test f revision n rs h keeps,
  eq_iff r.collection.id k,
  eq_iff r.collection.id id,
  eq_iff (f r).collection.id k,
  eq_iff (f r).collection.id id,
  eq_iff k id,
)

demote_each-Other :
    (id : String) (test : Row → Bool) (who : Caller) (rs : List Row) (db : Tables)
    → All (Other id) rs
    → exists_where (λ x. has_id id x && test x) (demote_each id who rs db).collections
      ≡ exists_where (λ x. has_id id x && test x) db.collections
unfolding demote_each
demote_each-Other id test who [] db h = refl
demote_each-Other id test who (r ∷ rs) db h =
    demote_each-Other id test who rs _ h.1
    ∙ update_other id r.collection.id test (demoted who.now) 0 r.collection.revision db.collections
        h.0 (λ x. refl)

exists_where-and_true :
    (p : Row → Bool) (xs : List Row) → exists_where (λ x. p x && true) xs ≡ exists_where p xs
unfolding exists_where
exists_where-and_true p [] = refl
exists_where-and_true p (x ∷ xs) = ground (arith, exists_where-and_true p xs)

-- The demotion of the others leaves the rows of its own id, whatever is asked of them.
demote_same :
    (b : Bool) (id : String) (test : Row → Bool) (who : Caller) (db : Tables)
    → exists_where
        (λ x. has_id id x && test x)
        (if b then demote_other_defaults id who db else db).collections
      ≡ exists_where (λ x. has_id id x && test x) db.collections
unfolding demote_other_defaults
demote_same false id test who db = refl
demote_same true id test who db =
    demote_each-Other id test who (select_where (is_other_default id) db.collections) db
      (others_differ id db.collections)

-- Once rows of a revision are patched, none of that revision is left, and their id still is.
revision_is_used :
    (id : String) (revision : ℕ) (p : CollectionPatch) (now : String) (rows : List Row)
    → exists_where
        (at_revision id revision)
        (update_where (at_revision id revision) (patched p now) rows)
      ≡ false
unfolding exists_where update_where patched
revision_is_used id revision p now [] = refl
revision_is_used id revision p now (r ∷ rs) = ground (arith, revision_is_used id revision p now rs)

id_is_kept :
    (id : String) (revision : ℕ) (p : CollectionPatch) (now : String) (rows : List Row)
    → exists_where (at_revision id revision) rows ≡ true
    → exists_where (has_id id) (update_where (at_revision id revision) (patched p now) rows) ≡ true
unfolding exists_where update_where patched
id_is_kept id revision p now [] h = h
id_is_kept id revision p now (r ∷ rs) h = ground (arith, h, id_is_kept id revision p now rs)

module _ (digest : Material → String) where
  pub finish_collections :
      (operation target : String) (revision : Option ℕ) (payload : Payload) (who : Caller)
      (db : Tables) (r : Tables × CollectionRecord)
      → finish digest operation target revision payload who db ≡ ok r
      → r.0.collections ≡ db.collections
  unfolding finish
  finish_collections operation target revision payload who db r e =
      let (response, _, rest) = >>=-eq_ok (get target db) _ e in
      let made : Tables × CollectionRecord = (
        remember digest operation target revision payload who response
            (audited operation target who payload db),
        response,
      ) in
      let same : made ≡ r = ground (arith, rest) in sym (ap (λ r. r.0.collections) same)

  -- What a patch that was new leaves: no row of its revision, and one of its id.
  patch_new_used :
      (id : String) (revision : ℕ) (p : CollectionPatch) (who : Caller) (db : Tables)
      (r : Tables × CollectionRecord)
      → patch_new digest id revision p who db ≡ ok r
      → (exists_where (at_revision id revision) r.0.collections ≡ false)
        × (exists_where (has_id id) r.0.collections ≡ true)
  unfolding patch_new update_row
  patch_new_used id revision p who db r e =
      let start = if makes_default p then demote_other_defaults id who db else db in
      let rows = update_where (at_revision id revision) (patched p who.now) start.collections in
      let (_, _, e₁) = >>=-eq_ok (raise_if (is_unchanged p) RepositoryError.value_error) _ e in
      let (_, _, e₂) = >>=-eq_ok (require_patched_profile p db) _ e₁ in
      let (db', e₃, e₄) = >>=-eq_ok (update_row digest id revision p who start) _ e₂ in
      let hit : exists_where (at_revision id revision) start.collections ≡ true =
        ground (arith, e₃) in
      let made : rows ≡ db'.collections = ground (arith, e₃, hit) in
      let there =
        made
        ∙ sym (finish_collections "collection.patch" id (some revision) (changes p) who db' r e₄) in
      (
        subst (λ rows. exists_where (at_revision id revision) rows ≡ false) there
            (revision_is_used id revision p who.now start.collections),
        subst (λ rows. exists_where (has_id id) rows ≡ true) there
            (id_is_kept id revision p who.now start.collections hit),
      )

  -- Of two patches of a collection made against the same revision, under request ids that were not used
  -- before, the second is refused as a conflict if the first succeeded, and if the second is not empty
  -- and names no profile that is missing.
  pub no_lost_update :
      (id : String) (revision : ℕ) (first second : CollectionPatch) (who other : Caller)
      (db : Tables) (r : Tables × CollectionRecord)
      → replay digest "collection.patch" id (some revision) (changes first) who db ≡ ok none
      → patch digest id revision first who db ≡ ok r
      → replay digest "collection.patch" id (some revision) (changes second) other r.0 ≡ ok none
      → is_unchanged second ≡ false
      → require_patched_profile second r.0 ≡ ok tt
      → patch digest id revision second other r.0 ≡ err optimistic_conflict
  unfolding patch patch_new update_row
  no_lost_update id revision first second who other db r new e new' differs profile =
      let made : patch_new digest id revision first who db ≡ ok r = ground (arith, new, e) in
      let (used, kept) = patch_new_used id revision first who db r made in
      let start = if makes_default second then demote_other_defaults id other r.0 else r.0 in
      let gone : exists_where (at_revision id revision) start.collections ≡ false =
        demote_same (makes_default second) id (λ x. nat_eq x.collection.revision revision) other r.0
        ∙ used in
      let there : exists_where (has_id id) start.collections ≡ true =
        sym (exists_where-and_true (has_id id) start.collections)
        ∙ (demote_same (makes_default second) id (λ x. true) other r.0
            ∙ (exists_where-and_true (has_id id) r.0.collections ∙ kept)) in
      ground (arith, new', differs, profile, gone, there)
