-- ===== src/Worker/Collections/Replay.antt =====
-- A mutation that is sent again is answered from the record of the first (repositories.py).
use mathlib.Core.Path.{subst}
use hass_clips_manager.Prelude.{
  ◌≡◌, refl, sym, ap, ◌∙◌, inl, inr, ℕ, Bool, true, false, ◌||◌, String, Option, none, some, List,
  [], ◌∷◌, ◌++◌, if◌then◌else◌, ◌==◌, arith, eq_refl, Option-cases,
}
use hass_clips_manager.Prelude.Tables.{select_where, find_where}
use hass_clips_manager.Prelude.Text.{is_empty}
use hass_clips_manager.Prelude.Results.{ok, raise_if, >>=-eq_ok}
use hass_clips_manager.Worker.Collections.{
  get, require_profile, demote_each, demote_other_defaults, new_row, insert_row, replay, remember,
  audited, finish, is_other_default, create_new, create, update_row, patch_new, patch, is_unchanged,
  require_patched_profile, makes_default,
}
use hass_clips_manager.Worker.Records.{
  Row, Payload, creation, changes, Material, Remembered, Tables, RepositoryError, Caller,
}
use hass_clips_manager.Worker.Domain.{CollectionCreate, CollectionPatch, CollectionRecord}

find_where-last :
    {A : Type 0} (p : A → Bool) (xs : List A) (x : A)
    → find_where p xs ≡ none
    → p x ≡ true
    → find_where p (xs ++ x ∷ []) ≡ some x
unfolding find_where
find_where-last p [] x h k = ground (arith, k)
find_where-last p (y ∷ ys) x h k = ground (arith, h, k, find_where-last p ys x)

-- The idempotency keys are written by `_remember` alone.
demote_each_keeps :
    (keep_id : String) (who : Caller) (rs : List Row) (db : Tables)
    → (demote_each keep_id who rs db).remembered ≡ db.remembered
unfolding demote_each
demote_each_keeps keep_id who [] db = refl
demote_each_keeps keep_id who (r ∷ rs) db = demote_each_keeps keep_id who rs _

demote_keeps :
    (b : Bool) (keep_id : String) (who : Caller) (db : Tables)
    → (if b then demote_other_defaults keep_id who db else db).remembered ≡ db.remembered
unfolding demote_other_defaults
demote_keeps true keep_id who db =
    demote_each_keeps keep_id who (select_where (is_other_default keep_id) db.collections) db
demote_keeps false keep_id who db = refl

module _ (digest : Material → String) where
  abbrev entry : String → String → Option ℕ → Payload → Caller → CollectionRecord → Remembered
  entry operation target revision payload who response = record {
    request_id = who.request_id;
    actor = who.actor;
    operation = operation;
    response = response;
    created_at = who.now;
    fingerprint = digest (record {
      actor = who.actor;
      operation = operation;
      target = target;
      revision = revision;
      payload = payload;
    });
  }

  -- The tables after a mutation remember its response.
  abbrev Remembers :
      String → String → Option ℕ → Payload → Caller → Tables → Tables × CollectionRecord → Type 0
  Remembers operation target revision payload who db r =
      r.0.remembered ≡ db.remembered ++ entry operation target revision payload who r.1 ∷ []

  finish-Remembers :
      (operation target : String) (revision : Option ℕ) (payload : Payload) (who : Caller)
      (db : Tables) (r : Tables × CollectionRecord)
      → finish digest operation target revision payload who db ≡ ok r
      → Remembers operation target revision payload who db r
  unfolding finish
  finish-Remembers operation target revision payload who db r e =
      let (response, e₁, rest) = >>=-eq_ok (get target db) _ e in
      let made : Tables × CollectionRecord = (
        remember digest operation target revision payload who response
            (audited operation target who payload db),
        response,
      ) in
      let same : made ≡ r = ground (arith, rest) in
      subst (Remembers operation target revision payload who db) same refl

  create_new-Remembers :
      (p : CollectionCreate) (who : Caller) (db : Tables) (r : Tables × CollectionRecord)
      → create_new digest p who db ≡ ok r
      → Remembers "collection.create" p.id none (creation p) who db r
  unfolding create_new insert_row
  create_new-Remembers p who db r e =
      let start = if p.is_default then demote_other_defaults p.id who db else db in
      let (_, _, e₁) = >>=-eq_ok (require_profile p.processing_profile_id db) _ e in
      let (db', e₂, e₃) = >>=-eq_ok (insert_row (new_row p who.now) start) _ e₁ in
      let kept : start.remembered ≡ db'.remembered = ground (arith, e₂) in
      finish-Remembers "collection.create" p.id none (creation p) who db' r e₃
      ∙ ap (λ xs. xs ++ entry "collection.create" p.id none (creation p) who r.1 ∷ [])
          (sym kept ∙ demote_keeps p.is_default p.id who db)

  patch_new-Remembers :
      (id : String) (revision : ℕ) (p : CollectionPatch) (who : Caller) (db : Tables)
      (r : Tables × CollectionRecord)
      → patch_new digest id revision p who db ≡ ok r
      → Remembers "collection.patch" id (some revision) (changes p) who db r
  unfolding patch_new update_row
  patch_new-Remembers id revision p who db r e =
      let start = if makes_default p then demote_other_defaults id who db else db in
      let (_, _, e₁) = >>=-eq_ok (raise_if (is_unchanged p) RepositoryError.value_error) _ e in
      let (_, _, e₂) = >>=-eq_ok (require_patched_profile p db) _ e₁ in
      let (db', e₃, e₄) = >>=-eq_ok (update_row digest id revision p who start) _ e₂ in
      let kept : start.remembered ≡ db'.remembered = ground (arith, e₃) in
      finish-Remembers "collection.patch" id (some revision) (changes p) who db' r e₄
      ∙ ap (λ xs. xs ++ entry "collection.patch" id (some revision) (changes p) who r.1 ∷ [])
          (sym kept ∙ demote_keeps (makes_default p) id who db)

  -- A request that was new is replayed once its response is remembered.
  replay_lem :
      (operation target : String) (revision : Option ℕ) (payload : Payload) (who : Caller)
      (db : Tables) (r : Tables × CollectionRecord)
      → replay digest operation target revision payload who db ≡ ok none
      → Remembers operation target revision payload who db r
      → replay digest operation target revision payload who r.0 ≡ ok (some r.1)
  unfolding replay
  replay_lem operation target revision payload who db r e h =
      let named : (is_empty who.actor || is_empty who.request_id) ≡ false = ground (arith, e) in
      let fresh : find_where (λ r. r.request_id == who.request_id) db.remembered ≡ none =
        ground (arith, e) in
      let now = entry operation target revision payload who r.1 in
      let found =
        ap (find_where (λ r. r.request_id == who.request_id)) h
        ∙ find_where-last (λ r. r.request_id == who.request_id) db.remembered now fresh
            (eq_refl who.request_id) in
      ground (arith, named, found, eq_refl who.actor, eq_refl operation, eq_refl now.fingerprint)

  -- A collection that was created, created again by the same actor under the same request id, at any
  -- time: the answer is the same, and the tables stay as the first call left them.
  pub create_again :
      (p : CollectionCreate) (who : Caller) (later : String) (db : Tables)
      (r : Tables × CollectionRecord)
      → create digest p who db ≡ ok r
      → create digest p (record who { now = later }) r.0 ≡ ok r
  unfolding create replay
  create_again p who later db r e =
      let (replayed, e₁, e₂) =
        >>=-eq_ok (replay digest "collection.create" p.id none (creation p) who db) _ e in
      elim (Option-cases replayed) [
        | inl n ↦
            let new : create_new digest p who db ≡ ok r = ground (arith, e₂, n) in
            let again =
              replay_lem "collection.create" p.id none (creation p) who db r (e₁ ∙ ap ok n)
                (create_new-Remembers p who db r new) in
            ground (arith, again)
        | inr (x, n) ↦
            let same : (db, x) ≡ r = ground (arith, e₂, n) in
            subst (λ r. create digest p (record who { now = later }) r.0 ≡ ok r) same
              (ground (arith, e₁, n))
      ]

  -- A patch that succeeded, sent again by the same actor under the same request id, at any time: the
  -- answer is the same, and the tables stay as the first call left them.
  pub patch_again :
      (id : String) (revision : ℕ) (p : CollectionPatch) (who : Caller) (later : String)
      (db : Tables) (r : Tables × CollectionRecord)
      → patch digest id revision p who db ≡ ok r
      → patch digest id revision p (record who { now = later }) r.0 ≡ ok r
  unfolding patch replay
  patch_again id revision p who later db r e =
      let (replayed, e₁, e₂) =
        >>=-eq_ok (replay digest "collection.patch" id (some revision) (changes p) who db) _ e in
      elim (Option-cases replayed) [
        | inl n ↦
            let new : patch_new digest id revision p who db ≡ ok r = ground (arith, e₂, n) in
            let again =
              replay_lem "collection.patch" id (some revision) (changes p) who db r (e₁ ∙ ap ok n)
                (patch_new-Remembers id revision p who db r new) in
            ground (arith, again)
        | inr (x, n) ↦
            let same : (db, x) ≡ r = ground (arith, e₂, n) in
            subst (λ r. patch digest id revision p (record who { now = later }) r.0 ≡ ok r) same
              (ground (arith, e₁, n))
      ]
