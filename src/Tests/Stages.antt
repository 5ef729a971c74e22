-- ===== src/Tests/Stages.antt =====
-- A promotion that a person has agreed to.
use trading_agents.Prelude.{ℕ, String, true, none, [], ◌∷◌, List}
use trading_agents.Kernel.Graph.Store.{Node, Store, empty_store}
use trading_agents.Kernel.Bus.{Runtime}
use trading_agents.Execution.Submission.Submit.{Environment}
use trading_agents.Execution.StageFlow.{ExecutionSettings, PromoteStageRequest}

abbrev environment : Environment
environment = record {
  number = λ n. "1";
  text_of = λ value. "";
  lower = λ text. text;
  parse_digits = λ text. none;
  traceback_of = λ e. none;
  graph_exception = λ e. record { type_name = "ValueError"; text = ""; traceback = none };
  applied_tolerance_bps = λ intent side. 50;
  order_tolerance_props = λ fill. [];
}

abbrev rate : List Node → ℕ
rate nodes = 90

abbrev rate_text : ℕ → String
rate_text n = "0.90"

abbrev settings : ExecutionSettings ℕ
settings = record { stage = "paper"; min_promotion_runs = 5; min_approval_rate = 80 }

abbrev offline : Runtime Store
offline = record {
  strip = λ text. text;
  stamps = record { uuid4 = λ s. ("id", s); now = λ s. (0, s) };
  sink = record { submit = λ fault s. s; clock = λ s. (0, s) };
  record_request = λ agent capability fine s. s;
}

abbrev wanted : PromoteStageRequest
wanted = record { target_stage = "broker_shadow"; reason = "ready"; confirmed = true }

abbrev resolution : Node
resolution = record {
  label = "FlagResolution";
  key = "resolution:flag:stage_promote:broker_shadow:info";
  props = [];
  schema_version = 1;
}

abbrev agreed : Store
agreed = record empty_store { nodes = ((resolution.label, resolution.key), resolution) ∷ [] }
