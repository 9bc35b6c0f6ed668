-- ===== src/Integration/WorkerClip/Timed.antt =====
-- The bounds that a selection answers with for a clip that was accepted (models.py, selection.py).
mod Tests
use mathlib.Core.Path.{subst}
use hass_clips_manager.Prelude.{
  ◌≡◌, refl, sym, ap, ◌∙◌, ◌⊎◌, inl, inr, ℕ, ◌+◌, ◌-◌, ◌≤◌, Bool, true, false, ◌||◌, ◌&&◌, String,
  Option, none, some, if◌then◌else◌, ltb, arith, Option-cases, is_some,
}
use hass_clips_manager.Prelude.Dict.{Dict}
use hass_clips_manager.Prelude.Results.{Result, ok, err, ◌>>=◌, raise_if, >>=-eq_ok, ok_injective}
use hass_clips_manager.Integration.Availability.{
  ClipAvailability, Timing, no_timing, is_timed, selection_timing,
}
use hass_clips_manager.Integration.WorkerClip.{
  Value, WorkerContractError, field, tolerance, is_inconsistent, check_timing, from_dict,
  optional_text, optional_number, required_number, required_boolean, required_string,
  bad_output_duration, bad_timing,
}

-- The bounds are complete and in order within the file, up to the tolerance.
pub record InOrder (t : Timing) : Type 0 where
  pub duration : ℕ
  pub start : ℕ
  pub end : ℕ
  pub has_duration : t.duration ≡ some duration
  pub has_start : t.content_start_offset ≡ some start
  pub has_end : t.content_end_offset ≡ some end
  pub has_content : is_some t.content_duration ≡ true
  pub has_lead_in : is_some t.lead_in_duration ≡ true
  pub has_tail_out : is_some t.tail_out_duration ≡ true
  pub ordered : start ≤ end
  pub bounded : end ≤ duration + tolerance

-- Either there is no duration and no bound at all, or the bounds are complete and in order.
abbrev pub Bounded : Timing → Type 0
Bounded t = (t ≡ no_timing) ⊎ InOrder t

timing_cases :
    (c : ClipAvailability)
    → check_timing c.output_duration c.content_duration c.lead_in_duration c.tail_out_duration
        c.content_start_offset c.content_end_offset
      ≡ ok tt
    → Bounded (selection_timing c)
unfolding check_timing is_inconsistent selection_timing
timing_cases c h = elim (Option-cases c.output_duration) [
  | inl e ↦ inl (ground (arith, e))
  | inr (d, e) ↦ elim (Option-cases c.content_start_offset) [
    | inl f ↦ inr (record {
      duration = d;
      start = 0;
      end = d;
      has_duration = ground (arith, e, f);
      has_start = ground (arith, e, f);
      has_end = ground (arith, e, f);
      has_content = ground (arith, e, f);
      has_lead_in = ground (arith, e, f);
      has_tail_out = ground (arith, e, f);
      ordered = omega arith;
      bounded = omega arith;
    })
    | inr (b, f) ↦ elim (Option-cases c.content_end_offset) [
      | inl g ↦ absurd (ground (arith, h, e, f, g))
      | inr (z, g) ↦ inr (record {
        duration = d;
        start = b;
        end = z;
        has_duration = ground (arith, e, f, g, h);
        has_start = ground (arith, e, f, g, h);
        has_end = ground (arith, e, f, g, h);
        has_content = ground (arith, e, f, g, h);
        has_lead_in = ground (arith, e, f, g, h);
        has_tail_out = ground (arith, e, f, g, h);
        ordered = ground (arith, e, f, g, h);
        bounded = ground (arith, e, f, g, h);
      })
    ]
  ]
]

from_built :
    (b c : ClipAvailability)
    → (let r : Result WorkerContractError ClipAvailability = ok b in r) ≡ ok c
    → check_timing b.output_duration b.content_duration b.lead_in_duration b.tail_out_duration
        b.content_start_offset b.content_end_offset
      ≡ ok tt
    → Bounded (selection_timing c)
from_built b c e h =
    subst (λ c. Bounded (selection_timing c)) (ok_injective b c e) (timing_cases b h)

-- For a clip that was accepted, a selection answers with no bounds at all, or with bounds that are
-- complete, in order and within the file, up to 0.05 seconds.
pub accepted_is_timed :
    (str_of : Value → String) (payload : Dict Value) (c : ClipAvailability)
    → from_dict str_of payload ≡ ok c
    → Bounded (selection_timing c)
unfolding from_dict
accepted_is_timed str_of payload c e =
    let (path, _, e₁) = >>=-eq_ok (optional_text (field "relative_output_path" payload)) _ e in
    let (output, _, e₂) =
      >>=-eq_ok (optional_number bad_output_duration (field "output_duration_seconds" payload)) _
        e₁ in
    let (duration, _, e₃) = >>=-eq_ok (required_number (field "duration_seconds" payload)) _ e₂ in
    let (content, _, e₄) =
      >>=-eq_ok (optional_number bad_timing (field "content_duration_seconds" payload)) _ e₃ in
    let (lead_in, _, e₅) =
      >>=-eq_ok (optional_number bad_timing (field "lead_in_duration_seconds" payload)) _ e₄ in
    let (tail_out, _, e₆) =
      >>=-eq_ok (optional_number bad_timing (field "tail_out_duration_seconds" payload)) _ e₅ in
    let (start, _, e₇) =
      >>=-eq_ok (optional_number bad_timing (field "content_start_offset_seconds" payload)) _ e₆ in
    let (end, _, e₈) =
      >>=-eq_ok (optional_number bad_timing (field "content_end_offset_seconds" payload)) _ e₇ in
    let (_, checked, e₉) =
      >>=-eq_ok (check_timing output content lead_in tail_out start end) _ e₈ in
    let (available, _, f₁) = >>=-eq_ok (required_boolean (field "output_available" payload)) _ e₉ in
    let (id, _, f₂) = >>=-eq_ok (required_string (field "id" payload)) _ f₁ in
    let (collection_id, _, f₃) = >>=-eq_ok (required_string (field "collection_id" payload)) _ f₂ in
    let (state, _, f₄) = >>=-eq_ok (required_string (field "state" payload)) _ f₃ in
    from_built _ c f₄ checked
