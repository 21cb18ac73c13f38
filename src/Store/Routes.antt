-- ===== src/Store/Routes.antt =====
-- task_routing_store.go, `prepareTaskRouting`: the protocol and the routing snapshot of a new task.
use minimax_proxy.Domain.Status.{protocol_h3, protocol_legacy}
use minimax_proxy.Domain.Request.{GenerationContent}
use minimax_proxy.Store.Tables.{Bytes, Json, RouteSnapshot, ModelNode, ModelCatalog, NodeModel}
use minimax_proxy.Store.Db.{Db, Error}
use minimax_proxy.Store.Eligible.{Query, ◌>>=?◌, catalog_with, serves, decode_snapshot}
use minimax_proxy.Protocol.Normalize.{lookup}
use minimax_proxy.Base.{
  ℕ, String, Bool, true, false, not, ◌&&◌, ◌||◌, ◌==◌, string_eq, nat_eq, List, [], ◌∷◌, Option,
  none, some, ok, err, any, coalesce, first_where, if◌then◌else◌, is_some, ltb, map, select_where,
}

-- `NewTaskStage` and `InputSpoolFile`. A negative number, which the checks refuse as they refuse a 0,
-- is a 0 here; `content_index` is a slice's index.
pub record NewTaskStage : Type 0 where
  pub id : String
  pub stage_type : String
  pub config_snapshot_json : String
  pub stage_order : ℕ
  pub max_attempts : ℕ

pub record InputSpoolFile : Type 0 where
  pub id : String
  pub task_id : String
  pub content_index : ℕ
  pub content_type : String
  pub role : String
  pub source_kind : String
  pub declared_mime : String
  pub detected_mime : String
  pub media_type : String
  pub extension : String
  pub relative_path : String
  pub object_url : String
  pub size_bytes : ℕ
  pub sha256 : String

-- `NewTask`. The empty routing snapshot is none; `RouteState` is always overwritten.
pub record NewTask : Type 0 where
  pub protocol_version : String
  pub routing_snapshot : Option (Json RouteSnapshot)
  pub request_normalizer : String
  pub routing_revision : ℕ
  pub task_id : String
  pub api_key_id : String
  pub model : String
  pub scenario : String
  pub request_content : Json (List GenerationContent)
  pub request_hash : String
  pub resolution : String
  pub ratio : String
  pub duration : ℕ
  pub input_image_count : ℕ
  pub callback_url_ciphertext : Bytes
  pub callback_url_nonce : Bytes
  pub callback_delivery_id : String
  pub callback_request_body : Bytes
  pub callback_request_body_hash : String
  pub profile_id : String
  pub config_snapshot_json : String
  pub config_hash : String
  pub profile_version : ℕ
  pub stages : List NewTaskStage
  pub input_spool_files : List InputSpoolFile

-- SELECT DISTINCT.
unfoldable pub distinct : List String → List String
distinct [] = []
distinct (x ∷ xs) = let rest = distinct xs in if any (λ y. y == x) rest then rest else x ∷ rest

abbrev pub is_usable : ModelNode → Bool
is_usable n = n.enabled && not (is_some n.deleted_at)

-- The row of node_models that a JOIN with the node finds.
abbrev pub offers_model : String → NodeModel → Bool
offers_model model m = m.model_id == model && (m.enabled && m.present)

abbrev pub offers_in : String → Option ModelCatalog → Bool
offers_in model none = false
offers_in model (some c) = any (offers_model model) c.items

abbrev pub catalog_of : Db → ModelNode → Option ModelCatalog
catalog_of db n = first_where (λ (c : ModelCatalog). c.node_id == n.id) db.catalogs

-- The protocols of the nodes that offer the model.
unfoldable pub offered_protocols : Db → String → List String
offered_protocols db model = distinct (
    map (λ (n : ModelNode). coalesce n.protocol_version "")
      (select_where (λ n. is_usable n && offers_in model (catalog_of db n)) db.nodes))

abbrev pub has_stages : List NewTaskStage → Bool
has_stages [] = false
has_stages (s ∷ rest) = true

unfoldable pub only_protocol : List String → List NewTaskStage → Query String
only_protocol [] stages = ok (if has_stages stages then protocol_h3 else protocol_legacy)
only_protocol (p ∷ []) stages = ok p
only_protocol (p ∷ q ∷ rest) stages = err Error.route_ambiguous

unfoldable pub choose_protocol : Db → NewTask → Query String
choose_protocol db t =
    if t.protocol_version == ""
    then only_protocol (offered_protocols db t.model) t.stages
    else ok t.protocol_version

abbrev pub default_normalizer : String → String
default_normalizer n = if n == "" then "legacy-h3-v1" else n

-- The snapshot that is made where the task brings none; its JSON text decodes to the same.
abbrev pub default_snapshot : NewTask → String → String → RouteSnapshot
default_snapshot t protocol normalizer = record {
  schema_version = 1;
  model = t.model;
  protocol_version = protocol;
  route_version = 0;
  routing_revision = 0;
  selection_mode = "";
  parameter_plan = "";
  normalizer_version = normalizer;
  requirements = record {
    scenario = t.scenario;
    duration = t.duration;
    resolution = t.resolution;
    roles = [];
    input_sources = [];
    media_count = 0;
  };
}

unfoldable pub snapshot_of : NewTask → String → String → Query RouteSnapshot
snapshot_of t protocol normalizer =
    if is_some t.routing_snapshot
    then decode_snapshot t.routing_snapshot
    else ok (default_snapshot t protocol normalizer)

-- `c.source<>'discovered' OR c.valid_until>?`; the comparison with NULL is not true.
abbrev pub is_fresh : ℕ → ModelCatalog → Bool
is_fresh now c = not (c.source == "discovered") || ltb now (coalesce c.valid_until 0)

abbrev pub fresh_in : ℕ → String → Option ModelCatalog → Bool
fresh_in now model none = false
fresh_in now model (some c) = any (offers_model model) c.items && is_fresh now c

abbrev pub is_candidate : Db → ℕ → String → String → ModelNode → Bool
is_candidate db now protocol model n =
    is_usable n
    && (coalesce n.protocol_version "" == protocol && fresh_in now model (catalog_of db n))

-- The loop over the candidates: every catalog is read, and one model that accepts is enough.
unfoldable pub some_accepts : Db → String → RouteSnapshot → List ModelNode → Bool → Query Bool
some_accepts db model s [] found = ok found
some_accepts db model s (n ∷ nodes) found =
    catalog_with db n.id >>=? λ r. some_accepts db model s nodes (found || any (serves model s) r.1)

unfoldable pub accept_route : Db → NewTask → RouteSnapshot → List ModelNode → Query (Unit {0})
accept_route db t s [] = err Error.route_unavailable
accept_route db t s (n ∷ nodes) = some_accepts db t.model s (n ∷ nodes) false >>=? λ found.
    if found then ok tt else err Error.model_input

-- A route that was resolved against a revision must still stand.
unfoldable pub check_revision : Db → ℕ → NewTask → String → RouteSnapshot → Query (Unit {0})
check_revision db now t protocol s =
    if ltb 0 t.routing_revision
    then (if db.routing_revision == t.routing_revision
        then accept_route db t s (select_where (is_candidate db now protocol t.model) db.nodes)
        else err Error.route_changed)
    else ok tt

-- The columns of the route that `prepareTaskRouting` fills in: protocol, snapshot and normalizer.
pub record Prepared : Type 0 where
  pub protocol : String
  pub snapshot : RouteSnapshot
  pub normalizer : String

unfoldable pub prepare_with : Db → ℕ → NewTask → String → Query Prepared
prepare_with db now t protocol =
    if not (is_some (lookup protocol))
    then err Error.route_unavailable
    else (snapshot_of t protocol (default_normalizer t.request_normalizer) >>=? λ s.
        if not (s.protocol_version == protocol) || not (s.model == t.model)
        then err Error.route_changed
        else (check_revision db now t protocol s >>=? λ _. ok (record {
          protocol = protocol;
          snapshot = s;
          normalizer = default_normalizer t.request_normalizer;
        })))

unfoldable pub prepare_task_routing : Db → ℕ → NewTask → Query Prepared
prepare_task_routing db now t = choose_protocol db t >>=? prepare_with db now t
