-- ===== src/Tests/Costs.antt =====
-- The metering of a session that runs, over a tick and its settlement.
use devproofai.Base.{
  ◌≡◌, ℕ, ◌+◌, ◌*◌, ◌≤◌, String, refl, true, false, List, [], ◌∷◌, Option, none, some, arith,
}
use devproofai.Store.Sessions.{get_agent_version}
use devproofai.Platform.Settings.{CostSettings}
use devproofai.Routing.Values.{number, whole}
use devproofai.Costs.Span.{settle, tick, raw_ms, quantize_sec, IsMetered, quantize_sec-IsMetered}
use devproofai.Costs.Accruals.Again.{accrue_at, total_seconds-accrue_at}
use devproofai.Costs.Accruals.{TurnObs, EntryKind, PriceRow, price_row, price_of}
use devproofai.Costs.Prices.{TimePrice}
use devproofai.Costs.Ledger.{watermark, JobInfo, cost_sampler_tick, settle_session, running_turns}
use devproofai.Costs.Ledger.Chain.{total_seconds, begun}
use devproofai.Costs.Ledger.Metering.{Meter, Run, here, then, ticks, settles, total_seconds-Run}
use devproofai.Tests.Stores.{store}

abbrev settings : CostSettings
settings = record {
  enabled = true;
  currency = "EUR";
  track_pool_costs = false;
  track_external_costs = false;
  track_env_costs = false;
  billing = record {
    enabled = true;
    show_session_costs = true;
    bill_session_time = true;
    bill_external_tokens = false;
    bill_local_tokens = false;
    bill_deployment_time = false;
  };
}

abbrev prices : List PriceRow
prices =
    record {
      kind = "environment";
      ref = "env1";
      real_pod_time = none;
      billing_pod_time = none;
      billing_session_time = some (record { amount = number (whole 2); per = "hour" });
    }
    ∷ []

-- The pod of `s1` started at 1,000,000.
abbrev job : String → ℕ → Option JobInfo
job id turns = some (record { active = true; started_at = some 1_000_000 })

abbrev start : Meter
start = record { clock = 1_000_000; ledger = [] }

-- A tick after 119 seconds meters one minute.
abbrev ticked : Meter
ticked = record {
  clock = 1_119_000;
  ledger = cost_sampler_tick job settings prices store [] 1_119_000 [];
}

-- The settlement right after it meters the minute that had begun.
abbrev settled : Meter
settled = record {
  clock = 1_119_500;
  ledger = settle_session job settings prices store "s1" 1_119_500 ticked.ledger;
}

settled-Run : Run start settled
unfolding running_turns get_agent_version
settled-Run =
    then
      (then here (
        ticks job settings prices store [] 1_119_000
          (record { distinct = (refl, tt); recent = (refl, tt) })))
      (settles job settings prices store "s1" 1_119_500 (λ s e. refl))

total_seconds-Run_example :
    total_seconds EntryKind.session_time "s1" settled.ledger * 1000
      + begun EntryKind.session_time "s1" settled.ledger
    ≤ 1_179_499
total_seconds-Run_example = total_seconds-Run EntryKind.session_time refl "s1" settled-Run refl

quantize_sec-IsMetered_example :
    IsMetered 1_119_500 1_060_000 (quantize_sec (raw_ms 1_119_500 1_060_000) settle)
quantize_sec-IsMetered_example = quantize_sec-IsMetered 1_119_500 1_060_000 settle

-- A pod that started a day and a half ago.
abbrev old_turn : TurnObs
old_turn = record {
  session_id = "s1";
  workspace_id = "w1";
  environment_id = some "env1";
  started_at = some 1_000_000;
}

abbrev rate : TimePrice
rate = record { amount = number (whole 2); per = "hour" }

abbrev minutes : List ℕ
minutes = 130_600_000 ∷ 130_660_000 ∷ 130_720_000 ∷ []

priced :
    price_of (price_row prices "environment" (some "env1")) (λ p. p.billing_session_time)
    ≡ some rate
unfolding price_of
priced = refl

total_seconds-accrue_at_example :
    total_seconds EntryKind.session_time "s1" (accrue_at settings prices tick old_turn minutes [])
    ≡ total_seconds EntryKind.session_time "s1" [] + 120 * 3
unfolding watermark
total_seconds-accrue_at_example =
    total_seconds-accrue_at 130_600_000 settings prices tick old_turn 1_000_000 (omega arith) rate
      refl refl priced minutes [] (omega arith, (omega arith, (omega arith, tt))) refl
