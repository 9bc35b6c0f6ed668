-- ===== src/Integration/Tokens/Laws.antt =====
-- What the scheduler relies on of a store of tokens (scheduler.py), and that the store in memory has it.
use hass_clips_manager.Prelude.{◌≡◌, Bool, false, ◌||◌, not, String, ◌==◌, arith, eq_iff}
use hass_clips_manager.Prelude.Dict.{Dict, lookup, lookup-insert}
use hass_clips_manager.Integration.Tokens.{RunTokenStore, is_success, begin_in, in_memory}

-- A store records which tokens have succeeded: `begin` refuses those alone, no call but `succeed`
-- changes which they are, and that one adds its token.
pub record IsTokenStore {S : Type 0} (store : RunTokenStore S) (succeeded : String → S → Bool)
    : Type 0 where
  pub begin_lem : (t : String) (s : S) → (store.begin t s).0 ≡ not (succeeded t s)
  pub begin_keeps : (t u : String) (s : S) → succeeded u (store.begin t s).1 ≡ succeeded u s
  pub succeed_lem :
      (t u : String) (s : S) → succeeded u (store.succeed t s) ≡ ((t == u) || succeeded u s)
  pub fail_keeps :
      (t u : String) (s : S) → succeeded t s ≡ false → succeeded u (store.fail t s) ≡ succeeded u s

abbrev pub succeeded_in : String → Dict String → Bool
succeeded_in t states = is_success (lookup t states)

pub in_memory-IsTokenStore : IsTokenStore in_memory succeeded_in
unfolding begin_in
in_memory-IsTokenStore = record {
  begin_lem = λ t s. ground arith;
  begin_keeps = λ t u s. ground (arith, lookup-insert t u "pending" s, eq_iff t u);
  succeed_lem = λ t u s. ground (arith, lookup-insert t u "succeeded" s);
  fail_keeps = λ t u s h. ground (arith, lookup-insert t u "failed" s, eq_iff t u);
}
