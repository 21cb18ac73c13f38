-- ===== src/Routing.antt =====
-- internal/routing/service.go: which protocol a request takes, and the request as that protocol's
-- normaliser leaves it. The store of the service is an interface of the program, and a record here.
pub mod Laws
use minimax_proxy.Domain.Capability.{ModelCapability}
use minimax_proxy.Domain.Request.{GenerationRequest, NormalizedRequest}
use minimax_proxy.Store.Tables.{RouteSnapshot}
use minimax_proxy.Store.Db.{Error}
use minimax_proxy.Protocol.Media.{Decoders, InputError}
use minimax_proxy.Protocol.Normalize.{Definition, lookup, normalize}
use minimax_proxy.Base.{
  ok, err, ℕ, String, Bool, List, Option, Result, [], after, any, false, if◌then◌else◌, leb, none,
  not, some, true, ◌&&◌, ◌==◌, ◌||◌, ◌∷◌, string_eq, nat_eq,
}

-- The types of internal/domain/model_routing.go and model_node.go, as far as the service reads them.
pub record RouteCandidate : Type 0 where
  pub protocol_version : String
  pub node_ids : List String
  pub healthy_nodes : ℕ

pub record ModelRoute : Type 0 where
  pub model : String
  pub protocol_version : String
  pub selection_mode : String
  pub version : ℕ
  pub candidates : List RouteCandidate

pub record RoutingNode : Type 0 where
  pub id : String
  pub enabled : Bool
  pub protocol_version : String

pub record CatalogModel : Type 0 where
  pub model_id : String
  pub enabled : Bool
  pub present : Bool
  pub capabilities : ModelCapability

pub record NodeCatalog : Type 0 where
  pub source : String
  pub last_success_at : ℕ
  pub valid_until : ℕ
  pub items : List CatalogModel

-- `Service`. `healthy` is none where the function is nil.
pub record Service : Type 0 where
  pub get_model_route : String → Result Error (ModelRoute × ℕ)
  pub list_model_nodes : Result Error (List RoutingNode)
  pub get_model_catalog : String → Result Error NodeCatalog
  pub healthy : Option (String → Bool)
  pub now : ℕ
  pub decoders : Decoders

pub record Decision : Type 0 where
  pub snapshot : RouteSnapshot
  pub normalized : NormalizedRequest

pub data RouteError : Type 0 where
  store_error : Error → RouteError
  ambiguous unavailable : RouteError
  refused : InputError → RouteError

-- The protocol of every candidate is the route's.
unfoldable pub agrees : ModelRoute → Bool
agrees route = not (
    any (λ (c : RouteCandidate). not (c.protocol_version == route.protocol_version))
      route.candidates)

-- The node takes part, and its catalog is not out of date.
abbrev pub takes_part : ModelRoute → RoutingNode → Bool
takes_part route n = n.enabled && n.protocol_version == route.protocol_version

abbrev pub is_stale : ℕ → NodeCatalog → Bool
is_stale now c = c.source == "discovered" && (leb c.valid_until now || c.last_success_at == 0)

abbrev pub offers : String → CatalogModel → Bool
offers model m = m.model_id == model && (m.enabled && m.present)

abbrev pub is_healthy : Option (String → Bool) → String → Bool
is_healthy none id = true
is_healthy (some h) id = h id

-- Where the loops stand: decided, stopped by an error of the store, or going on with what they know.
pub data Search : Type 0 where
  decided : Decision → Search
  stopped : Error → Search
  going : Bool → Option InputError → Search

unfoldable pub decide :
    ModelRoute → ℕ → Definition → GenerationRequest → NormalizedRequest → Decision
decide route revision d r n = record {
  normalized = n;
  snapshot = record {
    schema_version = 1;
    model = r.model;
    protocol_version = route.protocol_version;
    route_version = route.version;
    routing_revision = revision;
    selection_mode = route.selection_mode;
    parameter_plan = d.parameter_plan;
    normalizer_version = n.normalizer_version;
    requirements = n.requirements;
  };
}

module _ (s : Service) (route : ModelRoute) (revision : ℕ) (d : Definition)
    (r : GenerationRequest) where
  -- The inner loop: the models of one node.
  unfoldable pub search_models : String → List CatalogModel → Bool → Option InputError → Search
  search_models id [] capable refusal = going capable refusal
  search_models id (m ∷ models) capable refusal =
      if offers r.model m
      then elim (normalize s.decoders route.protocol_version r m.capabilities) [
        | err e ↦ search_models id models capable (some e)
        | ok n ↦
            if is_healthy s.healthy id
            then decided (decide route revision d r n)
            else search_models id models true refusal
      ]
      else search_models id models capable refusal

  -- The rest of the outer loop, behind one node.
  abbrev pub go_on : Search → (Bool → Option InputError → Search) → Search
  go_on (decided x) f = decided x
  go_on (stopped e) f = stopped e
  go_on (going capable refusal) f = f capable refusal

  unfoldable pub search_catalog :
      String → Result Error NodeCatalog → Bool → Option InputError → Search
  search_catalog id (err e) capable refusal = stopped e
  search_catalog id (ok c) capable refusal =
      if is_stale s.now c then going capable refusal else search_models id c.items capable refusal

  unfoldable pub search_nodes : List RoutingNode → Bool → Option InputError → Search
  search_nodes [] capable refusal = going capable refusal
  search_nodes (n ∷ nodes) capable refusal =
      go_on
        (if takes_part route n
          then search_catalog n.id (s.get_model_catalog n.id) capable refusal
          else going capable refusal)
        (search_nodes nodes)

  abbrev pub conclude : Search → Result RouteError Decision
  conclude (decided x) = ok x
  conclude (stopped e) = err (store_error e)
  conclude (going false (some e)) = err (refused e)
  conclude (going false none) = err unavailable
  conclude (going true refusal) = err unavailable

abbrev pub from_store : {A : Type 0} → Result Error A → Result RouteError A
from_store (ok a) = ok a
from_store (err e) = err (store_error e)

unfoldable pub search_for :
    Service → GenerationRequest → ModelRoute → ℕ → Option Definition → Result RouteError Decision
search_for s r route revision none = err unavailable
search_for s r route revision (some d) =
    after (from_store s.list_model_nodes)
      (λ nodes. conclude s route revision d r (search_nodes s route revision d r nodes false none))

unfoldable pub resolve_route :
    Service → GenerationRequest → ModelRoute → ℕ → Result RouteError Decision
resolve_route s r route revision =
    if route.protocol_version == "" || route.selection_mode == "unresolved"
    then err ambiguous
    else if not (route.selection_mode == "manual") && not (agrees route)
    then err ambiguous
    else search_for s r route revision (lookup route.protocol_version)

unfoldable pub resolve : Service → GenerationRequest → Result RouteError Decision
resolve s r =
    after (from_store (s.get_model_route r.model)) (λ found. resolve_route s r found.0 found.1)
