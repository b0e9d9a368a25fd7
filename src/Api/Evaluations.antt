-- ===== src/Api/Evaluations.antt =====
-- dashboard/src/lib/api.ts: Canaries, feedback and evaluations.
use recif.Base.{ℕ, zero, suc, ◌+◌, Option, none, [], ◌∷◌, ◌++◌}
use recif.Text.{Text, codes}
use recif.Text.Decimal.{decimal}
use recif.Json.{str, num, arr, obj, Items, nil, cons}
use recif.Chat.{Feedback, positive, negative}
use recif.Api.{
  Endpoint, get_method, post_method, patch_method, with_status, nothing, item, items, object,
  fields_of, or_empty,
}

-- The cases from number `i + 1` on, `n` of them.
abbrev pub cases_from : ℕ → ℕ → Items
cases_from i zero = nil
cases_from i (suc n) =
    cons
      (obj (
        fields_of (
          (codes "input", str (codes "Test case " ++ decimal (i + 1)))
          ∷ (codes "expected_output", str (codes "Expected output " ++ decimal (i + 1)))
          ∷ [])))
      (cases_from (i + 1) n)

abbrev pub start_canary : Text → ℕ → ℕ → Endpoint
start_canary agent_id challenger_version weight = record {
  method = post_method;
  segments = codes "agents" ∷ agent_id ∷ codes "canary" ∷ [];
  query = [];
  body = object (
      (codes "challenger_version", num (decimal challenger_version))
      ∷ (codes "weight", num (decimal weight))
      ∷ []);
  refusal = with_status (codes "Failed to start canary");
  shape = item (codes "data");
}

abbrev pub adjust_canary_weight : Text → ℕ → Endpoint
adjust_canary_weight agent_id weight = record {
  method = patch_method;
  segments = codes "agents" ∷ agent_id ∷ codes "canary" ∷ [];
  query = [];
  body = object ((codes "weight", num (decimal weight)) ∷ []);
  refusal = with_status (codes "Failed to adjust canary weight");
  shape = item (codes "data");
}

abbrev pub get_canary_status : Text → Endpoint
get_canary_status agent_id = record {
  method = get_method;
  segments = codes "agents" ∷ agent_id ∷ codes "canary" ∷ [];
  query = [];
  body = none;
  refusal = with_status (codes "Failed to get canary status");
  shape = item (codes "data");
}

abbrev pub promote_canary : Text → Endpoint
promote_canary agent_id = record {
  method = post_method;
  segments = codes "agents" ∷ agent_id ∷ codes "canary" ∷ codes "promote" ∷ [];
  query = [];
  body = none;
  refusal = with_status (codes "Failed to promote canary");
  shape = nothing;
}

abbrev pub rollback_canary : Text → Endpoint
rollback_canary agent_id = record {
  method = post_method;
  segments = codes "agents" ∷ agent_id ∷ codes "canary" ∷ codes "rollback" ∷ [];
  query = [];
  body = none;
  refusal = with_status (codes "Failed to rollback canary");
  shape = nothing;
}

abbrev pub submit_feedback : Text → Feedback → Option Text → Option Text → Option Text → Endpoint
submit_feedback agent_id value trace_id conversation_id comment = record {
  method = post_method;
  segments = codes "feedback" ∷ [];
  query = [];
  body = object (
      (codes "trace_id", str (or_empty trace_id))
      ∷ (codes "agent_id", str agent_id)
      ∷ (codes "conversation_id", str (or_empty conversation_id))
      ∷ (codes "name", str (codes "user_rating"))
      ∷ (codes "value", num (elim value [ positive ↦ codes "1" | negative ↦ codes "0" ]))
      ∷ (codes "source", str (codes "human"))
      ∷ (codes "comment", str (or_empty comment))
      ∷ []);
  refusal = with_status (codes "Failed to submit feedback");
  shape = nothing;
}

abbrev pub fetch_eval_runs : Text → Endpoint
fetch_eval_runs agent_id = record {
  method = get_method;
  segments = codes "agents" ∷ agent_id ∷ codes "evaluations" ∷ [];
  query = [];
  body = none;
  refusal = with_status (codes "Failed to fetch eval runs");
  shape = items (codes "data");
}

abbrev pub trigger_eval : Text → Text → Option Text → Endpoint
trigger_eval agent_id dataset_name version = record {
  method = post_method;
  segments = codes "agents" ∷ agent_id ∷ codes "evaluations" ∷ [];
  query = [];
  body =
      object
        ((codes "dataset_name", str dataset_name) ∷ (codes "version", str (or_empty version)) ∷ []);
  refusal = with_status (codes "Failed to trigger eval");
  shape = item (codes "data");
}

abbrev pub get_eval_run : Text → Text → Endpoint
get_eval_run agent_id run_id = record {
  method = get_method;
  segments = codes "agents" ∷ agent_id ∷ codes "evaluations" ∷ run_id ∷ [];
  query = [];
  body = none;
  refusal = with_status (codes "Failed to get eval run");
  shape = item (codes "data");
}

abbrev pub compare_eval_runs : Text → Text → Text → Endpoint
compare_eval_runs agent_id run_a run_b = record {
  method = get_method;
  segments = codes "agents" ∷ agent_id ∷ codes "evaluations" ∷ codes "compare" ∷ [];
  query = codes "?a=" ++ (run_a ++ (codes "&b=" ++ run_b));
  body = none;
  refusal = with_status (codes "Failed to compare eval runs");
  shape = item (codes "data");
}

abbrev pub fetch_datasets : Text → Endpoint
fetch_datasets agent_id = record {
  method = get_method;
  segments = codes "agents" ∷ agent_id ∷ codes "datasets" ∷ [];
  query = [];
  body = none;
  refusal = with_status (codes "Failed to fetch datasets");
  shape = items (codes "data");
}

abbrev pub upload_dataset : Text → Text → ℕ → Endpoint
upload_dataset agent_id name case_count = record {
  method = post_method;
  segments = codes "agents" ∷ agent_id ∷ codes "datasets" ∷ [];
  query = [];
  body = object ((codes "name", str name) ∷ (codes "cases", arr (cases_from 0 case_count)) ∷ []);
  refusal = with_status (codes "Failed to upload dataset");
  shape = item (codes "data");
}
