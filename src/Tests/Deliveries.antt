-- ===== src/Tests/Deliveries.antt =====
-- A webhook's deliveries at concrete inputs.
use crabforge.Prelude.{
  ℕ, refl, true, false, [], ◌∷◌, none, some, if◌then◌else◌, ltb, ◌≡◌, Result, ok,
}
use crabforge.Str.{codes, text_eq}
use crabforge.Bus.Writer.{returned, state_record}
use crabforge.Bus.Tailer.{FetchPartitionResult, TailError}
use crabforge.Store.Hooks.{WebhookRecord, HookTables, wants, for_repo_hooks, hook_by_id}
use crabforge.Hooks.Delivery.{broken, answered}
use crabforge.Hooks.Worker.{
  DeliveryRequest, Answers, Delivering, Worker, applied, deliver_with_retries,
}
use crabforge.Hooks.Worker.Attempts.{IsDelivery, deliver_with_retries-IsDelivery}
use crabforge.Types.Int.{negsuc}
use crabforge.HashMap.{get}
use crabforge.Hooks.Matcher.{Json, readable_event, repo_of, wanting, fan_out}
use crabforge.Hooks.Matcher.FanOut.{IsFanOut, fan_out-IsFanOut}
use crabforge.Tests.Demo.{broker, broker-IsBroker}

abbrev hook : WebhookRecord
hook = record {
  webhook_id = codes "h";
  repo_id = codes "r";
  url = codes "https://example.com";
  secret = codes "s";
  events = codes "*" ∷ [];
  active = true;
  created_at = 1;
  updated_at = 1;
}

abbrev request : DeliveryRequest
request = record {
  delivery_id = codes "e:h";
  webhook_id = codes "h";
  repo_id = codes "r";
  event_type = codes "issue.opened";
  body = 1 ∷ [];
}

-- A receiver that is broken twice and then says that it is gone.
abbrev answers : Answers
answers = record {
  allow_private_targets = false;
  reads = true;
  writes = λ n. applied;
  receiver = λ n. record {
    refused = none;
    response = if ltb n 3 then broken (codes "refused") else answered 410 5;
    shown = λ status. status ∷ [];
  };
  now = λ n. n;
  encode_dead = λ r reason. some reason;
  broker = broker;
}

abbrev delivering : Delivering
delivering = record {
  tables = record { webhooks = (codes "h", hook) ∷ []; deliveries = [] };
  bus = record { fenced = false; log = [] };
}

deliver_with_retries-IsDelivery_example :
    IsDelivery answers request 1 delivering (deliver_with_retries answers request delivering)
unfolding hook_by_id get text_eq
deliver_with_retries-IsDelivery_example =
    deliver_with_retries-IsDelivery answers request hook delivering broker-IsBroker refl (λ m. refl)
      refl refl (λ m lo hi. refl)

-- The cursor cannot be stored.
abbrev one_record : ℕ → Result FetchPartitionResult TailError
one_record offset =
    ok
      (record { records = record { offset = 0; value = some (1 ∷ []) } ∷ []; next_offset = some 1 })

abbrev worker : Worker
worker = record {
  tailer = record { offset = 0; applied = negsuc 0 };
  state = delivering;
  cursor = 0;
}

abbrev json : Json
json = record {
  uuid_text = λ id. codes "e";
  read_event =
      λ bytes. some (record { event_id = 7; event_type = codes "issue.opened"; body = bytes });
  payload_text = λ event key. if text_eq key (codes "repo_id") then some (codes "r") else none;
  encode_request = λ r. some r.body;
}

-- Of the webhooks of the repository, the second is paused and the third waits for pushes.
abbrev three_hooks : HookTables
three_hooks = record {
  webhooks =
      (codes "h", record hook { events = codes "issue.*" ∷ [] })
      ∷ (codes "i", record hook { webhook_id = codes "i"; active = false })
      ∷ (codes "k", record hook { webhook_id = codes "k"; events = codes "push" ∷ [] })
      ∷ [];
  deliveries = [];
}

fan_out-IsFanOut_example :
    IsFanOut json broker true
      (some (1 ∷ []))
      three_hooks.webhooks
      delivering.bus
      (fan_out json broker true three_hooks (some (1 ∷ [])) delivering.bus)
fan_out-IsFanOut_example =
    fan_out-IsFanOut json broker true three_hooks (some (1 ∷ [])) delivering.bus broker-IsBroker

-- The first alone is queued a request.
fan_out_run :
    fan_out json broker true three_hooks (some (1 ∷ [])) delivering.bus
    ≡ returned (
      record delivering.bus {
        log = state_record (codes "forge.webhooks.deliveries") (codes "h") (1 ∷ []) ∷ [];
      },
      ok 1,
    )
unfolding fan_out readable_event repo_of wanting for_repo_hooks wants text_eq
fan_out_run = refl
