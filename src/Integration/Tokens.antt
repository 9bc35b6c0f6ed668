-- ===== src/Integration/Tokens.antt =====
-- The states of the scheduler's occurrences (scheduler.py): a token's state is one of the texts
-- "pending", "failed" and "succeeded".
pub mod Laws
pub mod Pruned
pub mod Room
use hass_clips_manager.Prelude.{
  ℕ, zero, suc, ◌-◌, Bool, true, false, ◌||◌, String, Option, none, some, List, [], ◌∷◌, map,
  if◌then◌else◌, ◌==◌,
}
use hass_clips_manager.Prelude.Tables.{select_where, length, drop}
use hass_clips_manager.Prelude.Dict.{Dict, lookup, insert, sorted_items}

-- The protocol `RunTokenStore`, of a store with states in `S`
pub record RunTokenStore (S : Type 0) : Type 0 where
  pub begin : String → S → Bool × S
  pub succeed : String → S → S
  pub fail : String → S → S

abbrev pub is_success : Option String → Bool
is_success none = false
is_success (some state) = state == "succeeded"

-- `InMemoryRunTokenStore.async_begin`
unfoldable pub begin_in : String → Dict String → Bool × Dict String
begin_in token states =
    if is_success (lookup token states)
    then (false, states)
    else (true, insert token "pending" states)

-- `InMemoryRunTokenStore`
abbrev pub in_memory : RunTokenStore (Dict String)
in_memory = record {
  begin = begin_in;
  succeed = λ token states. insert token "succeeded" states;
  fail = λ token states. insert token "failed" states;
}

-- `_prune_token_states`, for a limit of at least 1: the source raises a `ValueError` at a smaller one, and
-- is called with `MAX_SCHEDULE_RUN_TOKENS` only.
unfoldable pub prune_token_states : ℕ → Dict String → Dict String
prune_token_states limit states =
    let ordered = sorted_items states in drop (length ordered - limit) ordered

-- What a config entry's options hold of the tokens: nothing that is usable, version one's list of
-- completed tokens, or the states.
pub data Options : Type 0 where
  unusable : Options
  listed : List String → Options
  mapped : Dict String → Options

abbrev pub is_state : String → Bool
is_state value = value == "pending" || (value == "failed" || value == "succeeded")

-- `{value: "succeeded" for value in values}`
pub all_succeeded : List String → Dict String → Dict String
all_succeeded [] states = states
all_succeeded (token ∷ tokens) states = all_succeeded tokens (insert token "succeeded" states)

-- `ConfigEntryRunTokenStore._states`
unfoldable pub states_of : Options → Dict String
unfolding all_succeeded
states_of unusable = []
states_of (listed tokens) = all_succeeded tokens []
states_of (mapped states) = select_where (λ e. is_state e.1) states

-- `MAX_SCHEDULE_RUN_TOKENS`
abbrev pub max_schedule_run_tokens : ℕ
max_schedule_run_tokens = 512

-- `ConfigEntryRunTokenStore._persist`
abbrev pub persist : ℕ → Dict String → Options
persist limit states = mapped (prune_token_states limit states)

-- `ConfigEntryRunTokenStore`, with its limit as an argument
unfoldable pub in_entry : ℕ → RunTokenStore Options
unfolding states_of prune_token_states begin_in
in_entry limit = record {
  begin = λ token options.
      let states = states_of options in
      if is_success (lookup token states)
      then (false, options)
      else (true, persist limit (insert token "pending" states));
  succeed = λ token options. persist limit (insert token "succeeded" (states_of options));
  fail = λ token options. persist limit (insert token "failed" (states_of options));
}
