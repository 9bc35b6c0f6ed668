-- ===== src/Worker/Durations/Careful.antt =====
-- What the recovery of durations may write (output_duration.py).
use mathlib.Core.Path.{subst}
use mathlib.Core.Option
use hass_clips_manager.Prelude.{
  List, Bool-cases, Option, Option-cases, String, [], ap, arith, eq_iff, if◌then◌else◌, inl, inr,
  is_some, leb, ltb, none, not, refl, some, sym, true, ℕ, ◌&&◌, ◌+◌, ◌<◌, ◌==◌, ◌||◌, ◌∙◌, ◌∷◌, ◌≡◌,
  ◌⊎◌,
}
use hass_clips_manager.Prelude.Tables.{find_where}
use hass_clips_manager.Prelude.Tables.Search.{find_where-update_where}
use hass_clips_manager.Prelude.Options.{
  check, attempt, Given, >>=-Given, Anything, anything, check-Given, attempt-Given, Given-eq,
}
use hass_clips_manager.Prelude.Results.{ok}
use hass_clips_manager.Prelude.Dict.{lookup, insert}
use hass_clips_manager.Worker.Database.{Clip}
use hass_clips_manager.Worker.Jobs.{Probe}
use hass_clips_manager.Worker.Durations.{
  Encounter, Durations, same_stat, is_listed_output, path_text, clip_by_id, examine,
  is_still_current, set_duration, write_duration, refresh, ensure, retry_delay,
}

-- A row is as it was, or it is the one with the id `asked`, it is as it was read from the table `rows`, in
-- its path and its time of update, and its missing duration is that of a probe.
abbrev pub IsCareful : String → List Clip → Encounter → Option Clip → Option Clip → Type 0
IsCareful asked rows e earlier later =
    (later ≡ earlier)
    ⊎ ((c : Clip) × (p : Probe) × (read : Clip) × (earlier ≡ some c)
        × (c.id ≡ asked)
        × (clip_by_id asked rows ≡ some read)
        × (path_text c ≡ path_text read)
        × (c.updated_at ≡ read.updated_at)
        × (e.probe ≡ ok p)
        × (c.output_duration_ns ≡ none)
        × (p.valid ≡ true)
        × (0 < p.duration_ns)
        × (later ≡ some (set_duration p.duration_ns c)))

update_measured :
    (asked : String) (rows : List Clip) (e : Encounter) (p : Probe) (current : Clip)
    (found : Option Clip)
    → clip_by_id asked rows ≡ some current
    → current.id ≡ asked
    → e.probe ≡ ok p
    → p.valid ≡ true
    → 0 < p.duration_ns
    → IsCareful asked rows e found (
        Option.map
          (λ x. if is_still_current current x then set_duration p.duration_ns x else x)
          found)
update_measured asked rows e p current none r i h v d = inl refl
update_measured asked rows e p current (some c) r i h v d =
    elim (Bool-cases (is_still_current current c)) [
      | inl u ↦
          let same : c.id ≡ current.id = (eq_iff c.id current.id).0 (ground (arith, u)) in
          inr (
            c,
            p,
            current,
            refl,
            same ∙ i,
            r,
            (eq_iff (path_text c) (path_text current)).0 (ground (arith, u)),
            (eq_iff c.updated_at current.updated_at).0 (ground (arith, u)),
            h,
            ground (arith, u),
            v,
            d,
            rw u refl,
          )
      | inr u ↦ inl (rw u refl)
    ]

-- A probe that stands for a duration
abbrev IsMeasured : Encounter → ℕ → Type 0
IsMeasured e n =
    (p : Probe) × (e.probe ≡ ok p) × (p.valid ≡ true) × (0 < p.duration_ns) × (p.duration_ns ≡ n)

examine-Given :
    (deadline : ℕ) (e : Encounter) (current : Clip)
    → Given (IsMeasured e) (examine deadline e current)
unfolding examine
examine-Given deadline e current =
    >>=-Given Anything (IsMeasured e) (attempt (e.is_plain_file (path_text current))) _ (anything _)
      (λ plain _. >>=-Given Anything (IsMeasured e) (check plain) _ (anything _) (λ _ _.
        >>=-Given Anything (IsMeasured e) (attempt e.before) _ (anything _) (λ b _.
          >>=-Given Anything (IsMeasured e) (check (ltb e.started deadline)) _ (anything _) (λ _ _.
            >>=-Given (λ p. e.probe ≡ ok p) (IsMeasured e) (attempt e.probe) _
              (attempt-Given e.probe)
              (λ p probed.
                >>=-Given Anything (IsMeasured e) (attempt e.after) _ (anything _) (λ a _.
                  >>=-Given Anything (IsMeasured e) (check (same_stat b a)) _ (anything _) (λ _ _.
                    >>=-Given (λ _. (p.valid && e.is_finite) ≡ true) (IsMeasured e)
                      (check (p.valid && e.is_finite)) _ (check-Given _)
                      (λ _ valid.
                        >>=-Given (λ _. ltb 0 p.duration_ns ≡ true) (IsMeasured e)
                          (check (ltb 0 p.duration_ns)) _ (check-Given _)
                          (λ _ positive. (
                            p,
                            probed,
                            ground (arith, valid),
                            ground (arith, positive),
                            refl,
                          ))))))))))

write_duration-IsCareful :
    (rows : List Clip) (e : Encounter) (id j : String) (n : ℕ) (current : Clip) (s : Durations)
    → clip_by_id id rows ≡ some current
    → current.id ≡ id
    → IsMeasured e n
    → IsCareful id rows e
        (clip_by_id j s.clips)
        (clip_by_id j (write_duration id n current s).1.clips)
unfolding write_duration clip_by_id
write_duration-IsCareful rows e id j n current s r i (p, probed, valid, positive, same) =
    let updated =
      find_where-update_where (λ c. c.id == j) (is_still_current current) (set_duration n) s.clips
        (λ x _. refl) in
    let careful =
      update_measured id rows e p current (find_where (λ c. c.id == j) s.clips) r i probed valid
        positive in
    subst (IsCareful id rows e (find_where (λ c. c.id == j) s.clips))
      (ap
          (λ k.
            Option.map (λ x. if is_still_current current x then set_duration k x else x)
              (find_where (λ c. c.id == j) s.clips))
          same
        ∙ sym updated)
      careful

-- The table is as it was, or as the other connections have left it but for a measured duration of the row
-- with the id `asked`.
abbrev pub IsHarmless : String → Encounter → Durations → Durations → Type 0
IsHarmless asked e s s' =
    (s'.clips ≡ s.clips)
    ⊎ ((j : String)
        → IsCareful asked s.clips e (clip_by_id j (e.meanwhile s.clips)) (clip_by_id j s'.clips))

found_id :
    (id : String) (c : Clip) (rows : List Clip) → clip_by_id id rows ≡ some c → (c.id == id) ≡ true
unfolding clip_by_id find_where
found_id id c [] h = cc
found_id id c (x ∷ rows) h = elim (Bool-cases (x.id == id)) [
  | inl e ↦ ground (arith, h, e)
  | inr e ↦ found_id id c rows (ground (arith, h, e))
]

refresh-IsHarmless :
    (deadline : ℕ) (e : Encounter) (id : String) (current : Clip) (s : Durations)
    → clip_by_id id s.clips ≡ some current
    → current.id ≡ id
    → IsHarmless id e s (refresh deadline e id current s).1
unfolding refresh
refresh-IsHarmless deadline e id current s r i =
    elim (Bool-cases (is_some current.output_duration_ns || not (is_listed_output current))) [
      | inl h ↦ rw h (inl refl)
      | inr h ↦
          elim (Bool-cases (
            ltb e.throttle_read
              (elim (lookup id s.retry_after) as (λ _. ℕ) [ none ↦ 0 | some t ↦ t ]))) [
                | inl t ↦ rw (h, t) (inl refl)
                | inr t ↦ elim (Option-cases (examine deadline e current)) [
                  | inl x ↦ rw (h, t, x) (inr (λ j. inl refl))
                  | inr (n, x) ↦
                      rw (h, t, x)
                        (inr (λ j.
                          write_duration-IsCareful s.clips e id j n current
                            (record {
                              clips = e.meanwhile s.clips;
                              retry_after = insert id (e.throttle_set + retry_delay) s.retry_after;
                            })
                            r i (Given-eq (IsMeasured e) x (examine-Given deadline e current))))
                ]
              ]
    ]

-- Whatever a call meets and whatever other connections do in the meantime, it leaves the table alone, or
-- leaves every row as they have left it, but for the one that it was called with. That row is rewritten
-- only if it has no duration, and the path and the time of update that it had when the call began; it
-- gets a positive duration that a valid probe has measured, and keeps everything else.
pub ensure-IsHarmless :
    (deadline : Option ℕ) (e : Encounter) (row : Clip) (s : Durations)
    → IsHarmless row.id e s (ensure deadline e row s).1
unfolding ensure
ensure-IsHarmless deadline e row s =
    let limit : ℕ = elim deadline [ none ↦ e.asked + 3000000000 | some t ↦ t ] in
    elim (Bool-cases (not (is_listed_output row) || is_some row.output_duration_ns)) [
      | inl h ↦ rw h (inl refl)
      | inr h ↦ elim (Bool-cases (leb limit e.entered || e.is_locked)) [
        | inl l ↦ rw (h, l) (inl refl)
        | inr l ↦ rw (h, l) (read limit (clip_by_id row.id s.clips) refl)
      ]
    ]
  where
    read :
        (limit : ℕ) (found : Option Clip)
        → clip_by_id row.id s.clips ≡ found
        → IsHarmless row.id e s
            (elim found as (λ _. Option Clip × Durations) [
              | none ↦ (some row, s)
              | some current ↦ refresh limit e row.id current s
            ]).1
    read limit none f = inl refl
    read limit (some current) f =
        refresh-IsHarmless limit e row.id current s f
          ((eq_iff current.id row.id).0 (found_id row.id current s.clips f))
