-- ===== src/Tests/CreateWitnesses.antt =====
-- The theorems on the creation of a task at a concrete one.
use minimax_proxy.Tests.Samples.{env, db, content}
use minimax_proxy.Tests.Requests.{decoders}
use minimax_proxy.Store.Db.{Db, Error, now_unix}
use minimax_proxy.Store.Tables.{Task, decoded}
use minimax_proxy.Store.Queue.{rebalance, rebalance_tasks, rebalance_row, is_protected}
use minimax_proxy.Store.Callbacks.{insert_callback, new_delivery}
use minimax_proxy.Store.Claim.{get_with}
use minimax_proxy.Store.Routes.{
  NewTask, Prepared, prepare_task_routing, prepare_with, choose_protocol, snapshot_of,
  check_revision, default_snapshot,
}
use minimax_proxy.Store.Create.{
  create, create_or_replay, create_new, within_limits, insert_details, find_key,
}
use minimax_proxy.Store.NewTasks.{insert_task, first_event, new_task, new_spec}
use minimax_proxy.Store.Details.{insert_stages, insert_stage, insert_spool_files, new_stage}
use minimax_proxy.Store.Create.Limits.{Counted, create-Counted}
use minimax_proxy.Store.Create.Replay.{create_replay}
use minimax_proxy.Protocol.Normalize.{lookup, definitions}
use minimax_proxy.Base.{
  [], ◌∷◌, none, ok, err, refl, true, false, ltb, ◌≡◌, ◌⊎◌, if◌then◌else◌, ◌==◌, string_eq, arith,
}

abbrev new : NewTask
new = record {
  protocol_version = "minimax-v2";
  routing_snapshot = none;
  request_normalizer = "";
  routing_revision = 0;
  task_id = "task-9";
  api_key_id = "key-2";
  model = "hailuo";
  scenario = "t2va";
  request_content = decoded (content ∷ []);
  request_hash = "h9";
  resolution = "768P";
  ratio = "16:9";
  duration = 6;
  input_image_count = 0;
  callback_url_ciphertext = 1 ∷ [];
  callback_url_nonce = 2 ∷ [];
  callback_delivery_id = "d-9";
  callback_request_body = 3 ∷ [];
  callback_request_body_hash = "e3b0";
  profile_id = "";
  config_snapshot_json = "";
  config_hash = "";
  profile_version = 0;
  stages =
      record {
        id = "stage-9";
        stage_type = "generation";
        config_snapshot_json = "{}";
        stage_order = 0;
        max_attempts = 3;
      }
      ∷ [];
  input_spool_files = [];
}

-- Another request under the same key.
abbrev other : NewTask
other = record new { task_id = "task-10"; request_hash = "h10" }

abbrev prepared : Prepared
prepared = record {
  protocol = "minimax-v2";
  snapshot = default_snapshot new "minimax-v2" "legacy-h3-v1";
  normalizer = "legacy-h3-v1";
}

-- Behind the task that is protected, it stays open; it is in its first version.
abbrev made : Task
made = record (new_task new prepared 4 1000 4600) { version = 1 }

abbrev made_db : Db
made_db = (create decoders env new "k-1" true db).0

makes : create decoders env new "k-1" true db ≡ (made_db, ok made)
unfolding create create_or_replay create_new within_limits insert_task insert_details first_event
    insert_stages insert_stage insert_spool_files find_key new_task new_spec new_stage rebalance
    rebalance_tasks rebalance_row is_protected insert_callback new_delivery get_with
    prepare_task_routing prepare_with choose_protocol snapshot_of check_revision lookup definitions
makes = refl

unknown : find_key db "key-2" "k-1" (now_unix env) ≡ none
unfolding find_key
unknown = refl

create-Counted_example : (made_db ≡ db) ⊎ Counted env "key-2" db made_db
create-Counted_example = create-Counted decoders env new "k-1" true db made_db made makes

visible : ltb (now_unix env) made.expires_at ≡ true
unfolding new_task new_spec
visible = refl

create_replay_example : create decoders env other "k-1" false made_db ≡ (
    if new.request_hash == other.request_hash
    then (made_db, ok made)
    else (made_db, err Error.idempotency_conflict))
create_replay_example =
    create_replay decoders decoders env env new other "k-1" true false db made_db made makes unknown
      refl refl (omega arith) visible
