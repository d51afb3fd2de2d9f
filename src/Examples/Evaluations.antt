-- ===== src/Examples/Evaluations.antt =====
-- replay/state_evaluator.py at concrete snapshots.
use capability_runner.Prelude.{◌≡◌, ◌↔◌, some, []}
use capability_runner.Evaluator.{
  business_outcome, success, evaluate_terminal_state, extract_outputs,
}
use capability_runner.Evaluator.Terminal.{
  Hold, NoOutcome, OneOutcome, success_exact, business_outcome_exact,
}
use capability_runner.Evaluator.Outputs.{AllOrNothing, extract_outputs-AllOrNothing}
use capability_runner.Examples.Fixtures.{read_balance, balance_shows}

success_exact_example :
    ((evaluate_terminal_state read_balance (balance_shows "12") []).state ≡ success) ↔ (
      Hold (balance_shows "12") [] read_balance.success_conditions
      × NoOutcome (balance_shows "12") [] read_balance.business_outcomes)
success_exact_example = success_exact (balance_shows "12") [] read_balance

business_outcome_exact_example :
    (((evaluate_terminal_state read_balance (balance_shows "denied") []).state ≡ business_outcome)
      × ((evaluate_terminal_state read_balance (balance_shows "denied") []).business_outcome_code
          ≡ some "DENIED"))
    ↔ (OneOutcome (balance_shows "denied") [] "DENIED" read_balance.business_outcomes
        × ¬ Hold (balance_shows "denied") [] read_balance.success_conditions)
business_outcome_exact_example =
    business_outcome_exact (balance_shows "denied") [] read_balance "DENIED"

extract_outputs-AllOrNothing_example :
    AllOrNothing
      (balance_shows "12")
      read_balance.outputs
      []
      (extract_outputs read_balance (balance_shows "12"))
extract_outputs-AllOrNothing_example =
    extract_outputs-AllOrNothing (balance_shows "12") read_balance
