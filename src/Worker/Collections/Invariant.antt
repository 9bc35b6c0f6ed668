-- ===== src/Worker/Collections/Invariant.antt =====
-- At most one collection is the default (repositories.py), as the unique index of the schema demands.
use mathlib.Core.Path.{subst}
use hass_clips_manager.Prelude.{
  ◌≡◌, refl, sym, ap, ◌∙◌, inl, inr, ℕ, ◌≤◌, Bool, true, false, ◌||◌, String, none, some, List, [],
  ◌∷◌, ◌++◌, if◌then◌else◌, ◌==◌, arith, eq_iff, Bool-cases, Option-cases,
}
use hass_clips_manager.Prelude.Tables.{exists_where, update_where, count_where}
use hass_clips_manager.Prelude.Tables.Counts.{count-append, exists_where-count}
use hass_clips_manager.Prelude.Results.{ok, raise_if, >>=-eq_ok}
use hass_clips_manager.Worker.Collections.{
  has_id, is_other_default, demote_other_defaults, new_row, insert_row, at_revision, patched,
  replay, require_profile, require_patched_profile, is_unchanged, makes_default, create_new, create,
  update_row, patch_new, patch,
}
use hass_clips_manager.Worker.Records.{
  Row, creation, changes, Material, Tables, RepositoryError, Caller,
}
use hass_clips_manager.Worker.Domain.{CollectionCreate, CollectionPatch, CollectionRecord}
use hass_clips_manager.Worker.Collections.Demotion.{none_other, demote_ids}
use hass_clips_manager.Worker.Collections.Revisions.{finish_collections}

abbrev pub is_default_row : Row → Bool
is_default_row r = r.collection.is_default

-- No two collections share an id, and at most one is the default.
pub record IsSound (rows : List Row) : Type 0 where
  pub ids : (k : String) → count_where (has_id k) rows ≤ 1
  pub one_default : count_where is_default_row rows ≤ 1

-- Where no other row is the default, the defaults are among the rows of one id.
defaults_have_id :
    (id : String) (rows : List Row)
    → exists_where (is_other_default id) rows ≡ false
    → count_where is_default_row rows ≤ count_where (has_id id) rows
unfolding exists_where count_where
defaults_have_id id [] h = omega arith
defaults_have_id id (r ∷ rs) h = ground (arith, h, defaults_have_id id rs)

demoted-IsSound :
    (b : Bool) (id : String) (who : Caller) (db : Tables)
    → IsSound db.collections
    → IsSound (if b then demote_other_defaults id who db else db).collections
demoted-IsSound false id who db s = s
demoted-IsSound true id who db s =
    let rows = (demote_other_defaults id who db).collections in
    record {
      ids = λ k. (let a = demote_ids k id who db in let b = s.ids k in omega arith);
      one_default =
          (let a = demote_ids id id who db in
            let b = s.ids id in
            let c = defaults_have_id id rows (none_other id who db) in omega arith);
    }

either :
    (p q : Row → Bool) (rows : List Row)
    → exists_where (λ x. p x || q x) rows ≡ false
    → exists_where p rows ≡ false
unfolding exists_where
either p q [] h = refl
either p q (x ∷ xs) h = ground (arith, h, either p q xs)

insert_row_lem :
    (r : Row) (db db' : Tables)
    → insert_row r db ≡ ok db'
    → (exists_where (has_id r.collection.id) db.collections ≡ false)
      × (db'.collections ≡ db.collections ++ r ∷ [])
unfolding insert_row
insert_row_lem r db db' e =
    let taken : Row → Bool = λ x.
      has_id r.collection.id x
      || (x.collection.compiled_output_prefix == r.collection.compiled_output_prefix) in
    elim (Bool-cases (exists_where taken db.collections)) [
      | inl k ↦ absurd (ground (arith, e, k))
      | inr k ↦
          let made : record db { collections = db.collections ++ r ∷ [] } ≡ db' =
            ground (arith, e, k) in
          (
            either (has_id r.collection.id)
                (λ x. x.collection.compiled_output_prefix == r.collection.compiled_output_prefix)
                db.collections k,
            sym (ap (λ db. db.collections) made),
          )
    ]

inserted_ids :
    (r : Row) (rows : List Row) (k : String)
    → exists_where (has_id r.collection.id) rows ≡ false
    → count_where (has_id k) rows ≤ 1
    → count_where (has_id k) (rows ++ r ∷ []) ≤ 1
unfolding count_where
inserted_ids r rows k fresh one =
    let more = count-append (has_id k) rows (r ∷ []) in
    elim (Bool-cases (r.collection.id == k)) [
      | inl e ↦
          let absent : count_where (has_id k) rows ≡ 0 =
            subst (λ k. count_where (has_id k) rows ≡ 0) ((eq_iff r.collection.id k).0 e)
              (exists_where-count (has_id r.collection.id) rows fresh) in
          ground (arith, more, absent, e)
      | inr e ↦ ground (arith, more, one, e)
    ]

inserted_default :
    (b : Bool) (r : Row) (who : Caller) (db : Tables)
    → r.collection.is_default ≡ b
    → exists_where
        (has_id r.collection.id)
        (if b then demote_other_defaults r.collection.id who db else db).collections
      ≡ false
    → count_where is_default_row db.collections ≤ 1
    → count_where is_default_row
        ((if b then demote_other_defaults r.collection.id who db else db).collections ++ r ∷ [])
      ≤ 1
unfolding count_where
inserted_default false r who db same fresh one =
    ground (arith, count-append is_default_row db.collections (r ∷ []), one, same)
inserted_default true r who db same fresh one =
    let id = r.collection.id in
    let rows = (demote_other_defaults id who db).collections in
    ground (
      arith,
      count-append is_default_row rows (r ∷ []),
      same,
      defaults_have_id id rows (none_other id who db),
      exists_where-count (has_id id) rows fresh,
    )

-- The rows after an update keep their ids, and become the default only where the patch says so.
patched_ids :
    (k id : String) (revision : ℕ) (p : CollectionPatch) (now : String) (rows : List Row)
    → count_where (has_id k) (update_where (at_revision id revision) (patched p now) rows)
      ≡ count_where (has_id k) rows
unfolding count_where update_where patched
patched_ids k id revision p now [] = refl
patched_ids k id revision p now (r ∷ rs) = ground (arith, patched_ids k id revision p now rs)

patched_others :
    (id : String) (revision : ℕ) (p : CollectionPatch) (now : String) (rows : List Row)
    → exists_where (is_other_default id) rows ≡ false
    → exists_where
        (is_other_default id)
        (update_where (at_revision id revision) (patched p now) rows)
      ≡ false
unfolding exists_where update_where patched
patched_others id revision p now [] h = refl
patched_others id revision p now (r ∷ rs) h = ground (arith, h, patched_others id revision p now rs)

patched_fewer :
    (id : String) (revision : ℕ) (p : CollectionPatch) (now : String) (rows : List Row)
    → makes_default p ≡ false
    → count_where is_default_row (update_where (at_revision id revision) (patched p now) rows)
      ≤ count_where is_default_row rows
unfolding count_where update_where patched
patched_fewer id revision p now [] h = omega arith
patched_fewer id revision p now (r ∷ rs) h = ground (arith, h, patched_fewer id revision p now rs)

patched_default :
    (b : Bool) (id : String) (revision : ℕ) (p : CollectionPatch) (who : Caller) (db : Tables)
    → makes_default p ≡ b
    → IsSound db.collections
    → count_where is_default_row (
        update_where
          (at_revision id revision)
          (patched p who.now)
          (if b then demote_other_defaults id who db else db).collections)
      ≤ 1
patched_default false id revision p who db same s =
    (let fewer = patched_fewer id revision p who.now db.collections same in
      let one = s.one_default in omega arith)
patched_default true id revision p who db same s =
    let rows = (demote_other_defaults id who db).collections in
    let after = update_where (at_revision id revision) (patched p who.now) rows in
    (let few =
        defaults_have_id id after
          (patched_others id revision p who.now rows (none_other id who db)) in
      let kept = patched_ids id id revision p who.now rows in
      let same_ids = demote_ids id id who db in let one = s.ids id in omega arith)

module _ (digest : Material → String) where
  -- Creating a collection keeps the ids apart and leaves at most one default.
  pub create-IsSound :
      (p : CollectionCreate) (who : Caller) (db : Tables) (r : Tables × CollectionRecord)
      → create digest p who db ≡ ok r
      → IsSound db.collections
      → IsSound r.0.collections
  unfolding create create_new
  create-IsSound p who db r e s =
      let (replayed, e₁, e₂) =
        >>=-eq_ok (replay digest "collection.create" p.id none (creation p) who db) _ e in
      elim (Option-cases replayed) [
        | inl n ↦
            let new : create_new digest p who db ≡ ok r = ground (arith, e₂, n) in
            let row = new_row p who.now in
            let start = if p.is_default then demote_other_defaults p.id who db else db in
            let (_, _, e₃) = >>=-eq_ok (require_profile p.processing_profile_id db) _ new in
            let (db', e₄, e₅) = >>=-eq_ok (insert_row row start) _ e₃ in
            let (fresh, made) = insert_row_lem row start db' e₄ in
            let kept =
              finish_collections digest "collection.create" p.id none (creation p) who db' r e₅ in
            let sound = demoted-IsSound p.is_default p.id who db s in
            subst IsSound (sym (kept ∙ made)) (record {
              ids = λ k. inserted_ids row start.collections k fresh (sound.ids k);
              one_default = inserted_default p.is_default row who db refl fresh s.one_default;
            })
        | inr (x, n) ↦
            let same : (db, x) ≡ r = ground (arith, e₂, n) in
            subst (λ r. IsSound r.0.collections) same s
      ]

  -- Patching a collection keeps the ids apart and leaves at most one default.
  pub patch-IsSound :
      (id : String) (revision : ℕ) (p : CollectionPatch) (who : Caller) (db : Tables)
      (r : Tables × CollectionRecord)
      → patch digest id revision p who db ≡ ok r
      → IsSound db.collections
      → IsSound r.0.collections
  unfolding patch patch_new update_row
  patch-IsSound id revision p who db r e s =
      let (replayed, e₁, e₂) =
        >>=-eq_ok (replay digest "collection.patch" id (some revision) (changes p) who db) _ e in
      elim (Option-cases replayed) [
        | inl n ↦
            let new : patch_new digest id revision p who db ≡ ok r = ground (arith, e₂, n) in
            let start = if makes_default p then demote_other_defaults id who db else db in
            let rows =
              update_where (at_revision id revision) (patched p who.now) start.collections in
            let (_, _, e₃) =
              >>=-eq_ok (raise_if (is_unchanged p) RepositoryError.value_error) _ new in
            let (_, _, e₄) = >>=-eq_ok (require_patched_profile p db) _ e₃ in
            let (db', e₅, e₆) = >>=-eq_ok (update_row digest id revision p who start) _ e₄ in
            let made : rows ≡ db'.collections = ground (arith, e₅) in
            let kept =
              finish_collections digest "collection.patch" id (some revision) (changes p) who db' r
                e₆ in
            let sound = demoted-IsSound (makes_default p) id who db s in
            subst IsSound (made ∙ sym kept) (record {
              ids = λ k.
                  (let a = patched_ids k id revision p who.now start.collections in
                    let b = sound.ids k in omega arith);
              one_default = patched_default (makes_default p) id revision p who db refl s;
            })
        | inr (x, n) ↦
            let same : (db, x) ≡ r = ground (arith, e₂, n) in
            subst (λ r. IsSound r.0.collections) same s
      ]
