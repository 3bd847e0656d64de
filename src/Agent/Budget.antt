-- ===== src/Agent/Budget.antt =====
-- Spending limits of a run (src/apps/ai/runtime/budget.py). Amounts of money are counts of the
-- smallest unit in use; `str` and `Decimal` of the stored text give the same amount back.
use noshiro_db_backend.Base.{
  is_some, ℕ, suc, ◌+◌, ◌≤◌, ◌≡◌, refl, ◌⊎◌, Bool, true, false, ◌||◌, Option, none, some, List,
  arith, leb, if◌then◌else◌, or_default, get, update_one, get-update_one,
}
use noshiro_db_backend.Agent.Model.{
  AgentRun, BudgetData, Exhaustion, input_token_budget_exhausted, output_token_budget_exhausted,
  cost_budget_exhausted, step_budget_exhausted,
}
use noshiro_db_backend.Agent.Machine.{run_pk}

abbrev default_max_tokens : ℕ
default_max_tokens = 200_000

-- `Decimal("5.00")`, in millionths.
abbrev default_max_cost_usd : ℕ
default_max_cost_usd = 5_000_000

abbrev default_max_steps : ℕ
default_max_steps = 100

pub record Budget : Type 0 where
  pub max_input_tokens : ℕ
  pub max_output_tokens : ℕ
  pub max_cost_usd : ℕ
  pub max_steps : ℕ
  pub input_tokens_used : ℕ
  pub output_tokens_used : ℕ
  pub cost_used : ℕ
  pub steps_used : ℕ

-- `Budget()`
abbrev pub default_budget : Budget
default_budget = record {
  max_input_tokens = default_max_tokens;
  max_output_tokens = default_max_tokens;
  max_cost_usd = default_max_cost_usd;
  max_steps = default_max_steps;
  input_tokens_used = 0;
  output_tokens_used = 0;
  cost_used = 0;
  steps_used = 0;
}

unfoldable to_dict : Budget → BudgetData
to_dict b = record {
  max_input_tokens = some b.max_input_tokens;
  max_output_tokens = some b.max_output_tokens;
  max_cost_usd = some b.max_cost_usd;
  max_steps = some b.max_steps;
  input_tokens_used = some b.input_tokens_used;
  output_tokens_used = some b.output_tokens_used;
  cost_used = some b.cost_used;
  steps_used = some b.steps_used;
}

-- `from_dict` of a dictionary; `None` gives the defaults.
unfoldable pub from_dict : Option BudgetData → Budget
from_dict none = default_budget
from_dict (some d) = record {
  max_input_tokens = or_default d.max_input_tokens default_max_tokens;
  max_output_tokens = or_default d.max_output_tokens default_max_tokens;
  max_cost_usd = or_default d.max_cost_usd default_max_cost_usd;
  max_steps = or_default d.max_steps default_max_steps;
  input_tokens_used = or_default d.input_tokens_used 0;
  output_tokens_used = or_default d.output_tokens_used 0;
  cost_used = or_default d.cost_used 0;
  steps_used = or_default d.steps_used 0;
}

-- `record_tokens`: false is the `TypeError` of adding `None`, after what was written before it.
unfoldable record_tokens : Option ℕ → Option ℕ → Budget → Bool × Budget
record_tokens none output b = (false, b)
record_tokens (some i) none b = (false, record b { input_tokens_used = b.input_tokens_used + i })
record_tokens (some i) (some o) b = (
  true,
  record b {
    input_tokens_used = b.input_tokens_used + i;
    output_tokens_used = b.output_tokens_used + o;
  },
)

unfoldable record_cost : ℕ → Budget → Budget
record_cost cost b = record b { cost_used = b.cost_used + cost }

unfoldable record_step : Budget → Budget
record_step b = record b { steps_used = b.steps_used + 1 }

-- `if cost is not None: self.record_cost(cost)`
abbrev record_some_cost : Option ℕ → Budget → Budget
record_some_cost none b = b
record_some_cost (some c) b = record_cost c b

unfoldable pub record_execution : Option ℕ → Option ℕ → Option ℕ → Budget → Bool × Budget
unfolding record_tokens record_cost record_step
record_execution input_tokens output_tokens cost b =
    let (counted, b') = record_tokens input_tokens output_tokens b in
    if counted then (true, record_step (record_some_cost cost b')) else (false, b')

unfoldable pub is_exhausted : Budget → Bool
is_exhausted b =
    leb b.max_input_tokens b.input_tokens_used
    || leb b.max_output_tokens b.output_tokens_used
    || leb b.max_cost_usd b.cost_used
    || leb b.max_steps b.steps_used

unfoldable pub exhaustion_reason : Budget → Option Exhaustion
exhaustion_reason b =
    if leb b.max_input_tokens b.input_tokens_used
    then some input_token_budget_exhausted
    else if leb b.max_output_tokens b.output_tokens_used
    then some output_token_budget_exhausted
    else if leb b.max_cost_usd b.cost_used
    then some cost_budget_exhausted
    else if leb b.max_steps b.steps_used
    then some step_budget_exhausted
    else none

-- `BudgetManager.load`
unfoldable pub load : AgentRun → Budget
unfolding from_dict
load run = from_dict run.budget

-- `BudgetManager.save`: the caller's copy and the table.
unfoldable pub save : ℕ → AgentRun → Budget → List AgentRun → AgentRun × List AgentRun
unfolding to_dict
save now run budget rows = (
  record run { budget = some (to_dict budget) },
  (update_one run_pk run.pk (λ _. true)
      (λ r. record r { budget = some (to_dict budget); updated_at = now }) rows).1,
)

-- A budget that is saved for a run in the table is the one that is loaded next, from the copy in
-- memory and from the row.
load-save :
    (now : ℕ) (run row : AgentRun) (budget : Budget) (rows : List AgentRun)
    → get run_pk run.pk rows ≡ some row
    → (load (save now run budget rows).0 ≡ budget)
      × ((row' : AgentRun) × (get run_pk run.pk (save now run budget rows).1 ≡ some row')
          × (load row' ≡ budget))
unfolding load save
load-save now run row budget rows g = (
  refl,
  (
    record row { budget = some (to_dict budget); updated_at = now },
    get-update_one run_pk run.pk (λ _. true)
        (λ r. record r { budget = some (to_dict budget); updated_at = now }) rows row (λ x. refl) g,
    refl,
  ),
)

-- A budget has a reason for its exhaustion exactly when it is exhausted.
exhaustion_reason-is_exhausted : (b : Budget) → is_some (exhaustion_reason b) ≡ is_exhausted b
unfolding exhaustion_reason is_exhausted
exhaustion_reason-is_exhausted b = ground arith

-- An accounted attempt costs exactly one step and keeps the limit of steps, and what was exhausted
-- stays so.
pub record_execution-step :
    (i o c : Option ℕ) (b : Budget)
    → (record_execution i o c b).0 ≡ true
    → ((record_execution i o c b).1.steps_used ≡ b.steps_used + 1)
      × ((record_execution i o c b).1.max_steps ≡ b.max_steps)
      × ((is_exhausted b || is_exhausted (record_execution i o c b).1)
          ≡ is_exhausted (record_execution i o c b).1)
unfolding record_execution is_exhausted
record_execution-step none o c b h = cc
record_execution-step (some i) none c b h = cc
record_execution-step (some i) (some o) none b h = ground arith
record_execution-step (some i) (some o) (some c) b h = ground arith

-- An attempt whose token counts the provider left out cannot be accounted.
record_execution_uncounted :
    (i o c : Option ℕ) (b : Budget) → (i ≡ none) ⊎ (o ≡ none) → (record_execution i o c b).0 ≡ false
unfolding record_execution
record_execution_uncounted i o c b h = ground arith

-- A budget that is not exhausted has a step left.
pub is_exhausted-steps : (b : Budget) → is_exhausted b ≡ false → suc b.steps_used ≤ b.max_steps
unfolding is_exhausted
is_exhausted-steps b h = ground arith
