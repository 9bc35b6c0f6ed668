-- ===== src/Integration/WorkerClip.antt =====
-- The integration's reading of a clip that the Worker sends (models.py). A payload is a JSON object.
-- Its numbers are whole nanoseconds and finite, as the Worker's JSON encoder refuses others; `str_of` is
-- Python's str of a value that is no text.
pub mod Timed
use hass_clips_manager.Prelude.{
  ℕ, ◌+◌, ◌-◌, Bool, true, false, ◌||◌, ◌&&◌, not, String, Option, none, some, List, [], ◌∷◌,
  if◌then◌else◌, ltb, is_none, is_some,
}
use hass_clips_manager.Prelude.Int.{ℤ, pos, negsuc}
use hass_clips_manager.Prelude.Text.{is_empty}
use hass_clips_manager.Prelude.Dict.{Dict, lookup}
use hass_clips_manager.Prelude.Results.{Result, ok, err, ◌>>=◌, ◌>>◌, raise_if}
use hass_clips_manager.Integration.Availability.{ClipAvailability}

-- A field of a payload; `other` is an array or an object, and whether it has items.
pub data Value : Type 0 where
  null : Value
  boolean : Bool → Value
  number : ℤ → Value
  text : String → Value
  other : Bool → Value

-- `WorkerContractError`, by what it complains of
pub data WorkerContractError : Type 0 where
  bad_path bad_output_duration bad_duration bad_timing incomplete inconsistent bad_available
        bad_text :
      WorkerContractError

-- `payload.get(name)`
abbrev pub field : String → Dict Value → Value
field name payload = elim (lookup name payload) [ none ↦ null | some v ↦ v ]

abbrev pub optional_text : Value → Result WorkerContractError (Option String)
optional_text null = ok none
optional_text (text s) = ok (some s)
optional_text _ = err bad_path

-- A number that may be missing and is not negative
abbrev pub optional_number : WorkerContractError → Value → Result WorkerContractError (Option ℕ)
optional_number e null = ok none
optional_number e (number (pos n)) = ok (some n)
optional_number e _ = err e

abbrev pub required_number : Value → Result WorkerContractError ℕ
required_number (number (pos n)) = ok n
required_number _ = err bad_duration

abbrev pub required_boolean : Value → Result WorkerContractError Bool
required_boolean (boolean b) = ok b
required_boolean _ = err bad_available

-- `_required_string`
abbrev pub required_string : Value → Result WorkerContractError String
required_string (text s) = if is_empty s then err bad_text else ok s
required_string _ = err bad_text

abbrev pub is_truthy : Value → Bool
is_truthy null = false
is_truthy (boolean b) = b
is_truthy (number (pos ℕ.zero)) = false
is_truthy (number n) = true
is_truthy (text s) = not (is_empty s)
is_truthy (other b) = b

-- `abs(a - b)`
abbrev pub distance : ℕ → ℕ → ℕ
distance a b = (a - b) + (b - a)

-- 0.05 seconds
abbrev pub tolerance : ℕ
tolerance = 50000000

-- The bounds contradict each other.
unfoldable pub is_inconsistent : (output content lead_in tail_out start end : ℕ) → Bool
is_inconsistent output content lead_in tail_out start end =
    ltb end start
    || (ltb (output + tolerance) end
        || (ltb tolerance (distance start lead_in)
            || (ltb tolerance (distance (end - start) content)
                || ltb tolerance (distance output (end + tail_out)))))

-- The checks of the timing: none of the five bounds, or all of them and a duration that agrees
unfoldable pub check_timing :
    (output content lead_in tail_out start end : Option ℕ) → Result WorkerContractError (Unit {0})
unfolding is_inconsistent
check_timing output none none none none none = ok tt
check_timing (some o) (some c) (some l) (some t) (some s) (some e) =
    raise_if (is_inconsistent o c l t s e) inconsistent
check_timing _ _ _ _ _ _ = err incomplete

-- `WorkerClip.from_dict`, followed by `ClipAvailability.from_worker_clip`, which copies the fields
unfoldable pub from_dict :
    (Value → String) → Dict Value → Result WorkerContractError ClipAvailability
unfolding check_timing
from_dict str_of payload = do
  path ← optional_text (field "relative_output_path" payload)
  output ← optional_number bad_output_duration (field "output_duration_seconds" payload)
  duration ← required_number (field "duration_seconds" payload)
  content ← optional_number bad_timing (field "content_duration_seconds" payload)
  lead_in ← optional_number bad_timing (field "lead_in_duration_seconds" payload)
  tail_out ← optional_number bad_timing (field "tail_out_duration_seconds" payload)
  start ← optional_number bad_timing (field "content_start_offset_seconds" payload)
  end ← optional_number bad_timing (field "content_end_offset_seconds" payload)
  check_timing output content lead_in tail_out start end
  available ← required_boolean (field "output_available" payload)
  id ← required_string (field "id" payload)
  collection_id ← required_string (field "collection_id" payload)
  state ← required_string (field "state" payload)
  let source = field "relative_source_path" payload in
      ok (record {
        id = id;
        collection_id = collection_id;
        state = state;
        relative_output_path = path;
        duration = duration;
        output_available = available;
        output_duration = output;
        relative_source_path =
            if is_truthy source then elim source [ text s ↦ s | v ↦ str_of v ] else "";
        content_duration = content;
        lead_in_duration = lead_in;
        tail_out_duration = tail_out;
        content_start_offset = start;
        content_end_offset = end;
      })
