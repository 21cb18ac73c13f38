-- ===== src/Routing/Laws.antt =====
-- What a decision of the routing service rests on, and when there is none.
use minimax_proxy.Domain.Capability.{accepts}
use minimax_proxy.Domain.Request.{GenerationRequest, NormalizedRequest}
use minimax_proxy.Store.Db.{Error}
use minimax_proxy.Protocol.Media.{InputError}
use minimax_proxy.Protocol.Normalize.{Definition, lookup, normalize}
use minimax_proxy.Protocol.Normalize.Laws.{normalize_again}
use minimax_proxy.Routing.{
  Service, ModelRoute, RoutingNode, CatalogModel, NodeCatalog, Decision, RouteError, Search,
  decided, stopped, going, agrees, takes_part, is_stale, offers, is_healthy, decide, search_models,
  search_catalog, search_nodes, go_on, conclude, from_store, search_for, resolve_route, resolve,
}
use minimax_proxy.Base.{
  ok, err, ℕ, String, All, Bool, In, List, Option, Result, [], false, if_cases, if◌then◌else◌, inl,
  inr, refl, some, true, ◌∷◌, ◌≡◌, after_ok, ap, none, subst, ◌==◌, ◌||◌, string_eq, nat_eq, arith,
  not, ◌&&◌, ◌∙◌,
}

module _ (s : Service) (route : ModelRoute) (revision : ℕ) (d : Definition)
    (r : GenerationRequest) where
  -- The model of the node takes the request, and the decision is the one for it.
  pub record Serves (id : String) (m : CatalogModel) (x : Decision) : Type 0 where
    pub offered : offers r.model m ≡ true
    pub normal : normalize s.decoders route.protocol_version r m.capabilities ≡ ok x.normalized
    pub well : is_healthy s.healthy id ≡ true
    pub made : x ≡ decide route revision d r x.normalized

  -- The model of the node takes the request only while the node is not healthy.
  abbrev pub TurnsAway : String → CatalogModel → Type 0
  TurnsAway id m =
      (n : NormalizedRequest)
      → offers r.model m ≡ true
      → normalize s.decoders route.protocol_version r m.capabilities ≡ ok n
      → is_healthy s.healthy id ≡ false

  -- What the inner loop finds.
  abbrev pub Found : String → List CatalogModel → Search → Type 0
  Found id models (decided x) = (m : CatalogModel) × In m models × Serves id m x
  Found id models (stopped e) = ⊥
  Found id models (going capable refusal) = All (TurnsAway id) models

  Found-later :
      (id : String) (m : CatalogModel) (models : List CatalogModel) (q : Search)
      → TurnsAway id m
      → Found id models q
      → Found id (m ∷ models) q
  Found-later id m models (decided x) t (k, there, serves) = (k, inr there, serves)
  Found-later id m models (stopped e) t f = f
  Found-later id m models (going capable refusal) t f = (t, f)

  decide-Serves :
      (id : String) (m : CatalogModel) (n : NormalizedRequest)
      → offers r.model m ≡ true
      → normalize s.decoders route.protocol_version r m.capabilities ≡ ok n
      → is_healthy s.healthy id ≡ true
      → Serves id m (decide route revision d r n)
  unfolding decide
  decide-Serves id m n a b c = record { offered = a; normal = b; well = c; made = refl }

  search_models-Found :
      (id : String) (models : List CatalogModel) (capable : Bool) (refusal : Option InputError)
      → Found id models (search_models s route revision d r id models capable refusal)
  unfolding search_models
  search_models-Found id [] capable refusal = tt
  search_models-Found id (m ∷ models) capable refusal =
      let rest = λ (c : Bool) (e : Option InputError). search_models-Found id models c e in
      if_cases (Found id (m ∷ models)) (offers r.model m) _ _
        (λ a. go rest a (normalize s.decoders route.protocol_version r m.capabilities) refl)
        (λ a. Found-later id m models _ (λ n b c. absurd (cc)) (rest capable refusal))
    where
      go :
          ((c : Bool) (e : Option InputError)
            → Found id models (search_models s route revision d r id models c e))
          → offers r.model m ≡ true
          → (q : Result InputError NormalizedRequest)
          → normalize s.decoders route.protocol_version r m.capabilities ≡ q
          → Found id (m ∷ models) (elim q [
            | err e ↦ search_models s route revision d r id models capable (some e)
            | ok n ↦
                if is_healthy s.healthy id
                then decided (decide route revision d r n)
                else search_models s route revision d r id models true refusal
          ])
      go rest a (err e) k = Found-later id m models _ (λ n b c. absurd (cc)) (rest capable (some e))
      go rest a (ok n) k =
          if_cases (Found id (m ∷ models)) (is_healthy s.healthy id) _ _
            (λ h. (m, inl refl, decide-Serves id m n a k h))
            (λ h. Found-later id m models _ (λ n' b c. h) (rest true refusal))

  -- A node of the list takes part with a fresh catalog, and a model of it takes the request.
  pub record Serving (n : RoutingNode) (x : Decision) : Type 0 where
    pub part : takes_part route n ≡ true
    pub catalog : NodeCatalog
    pub read : s.get_model_catalog n.id ≡ ok catalog
    pub fresh : is_stale s.now catalog ≡ false
    pub model : CatalogModel
    pub listed : In model catalog.items
    pub serves : Serves n.id model x

  -- No model of the node takes the request while the node is healthy.
  abbrev pub Refuses : RoutingNode → Type 0
  Refuses n =
      (c : NodeCatalog)
      → takes_part route n ≡ true
      → s.get_model_catalog n.id ≡ ok c
      → is_stale s.now c ≡ false
      → All (TurnsAway n.id) c.items

  -- What the two loops find among the nodes.
  abbrev pub Answer : List RoutingNode → Search → Type 0
  Answer nodes (decided x) = (n : RoutingNode) × In n nodes × Serving n x
  Answer nodes (stopped e) =
      (n : RoutingNode) × In n nodes
      × (takes_part route n ≡ true)
      × (s.get_model_catalog n.id ≡ err e)
  Answer nodes (going capable refusal) = All Refuses nodes

  abbrev OneNode : RoutingNode → Search → Type 0
  OneNode n (decided x) = Serving n x
  OneNode n (stopped e) = (takes_part route n ≡ true) × (s.get_model_catalog n.id ≡ err e)
  OneNode n (going capable refusal) = Refuses n

  Answer-later :
      (n : RoutingNode) (nodes : List RoutingNode) (q : Search)
      → Refuses n
      → Answer nodes q
      → Answer (n ∷ nodes) q
  Answer-later n nodes (decided x) t (k, there, a) = (k, inr there, a)
  Answer-later n nodes (stopped e) t (k, there, a, b) = (k, inr there, a, b)
  Answer-later n nodes (going capable refusal) t a = (t, a)

  go_on-Answer :
      (n : RoutingNode) (nodes : List RoutingNode) (q : Search)
      (f : Bool → Option InputError → Search)
      → OneNode n q
      → ((capable : Bool) (refusal : Option InputError) → Answer nodes (f capable refusal))
      → Answer (n ∷ nodes) (go_on s route revision d r q f)
  go_on-Answer n nodes (decided x) f one rest = (n, inl refl, one)
  go_on-Answer n nodes (stopped e) f one rest = (n, inl refl, one.0, one.1)
  go_on-Answer n nodes (going capable refusal) f one rest =
      Answer-later n nodes (f capable refusal) one (rest capable refusal)

  from_models :
      (n : RoutingNode) (c : NodeCatalog) (q : Search)
      → takes_part route n ≡ true
      → s.get_model_catalog n.id ≡ ok c
      → is_stale s.now c ≡ false
      → Found n.id c.items q
      → OneNode n q
  from_models n c (decided x) a b e (m, there, k) = record {
    part = a;
    catalog = c;
    read = b;
    fresh = e;
    model = m;
    listed = there;
    serves = k;
  }
  from_models n c (stopped e) a b f g = absurd g
  from_models n c (going capable refusal) a b e f =
      λ c' _ b' _. let same : c ≡ c' = cc in subst (λ z. All (TurnsAway n.id) z.items) same f

  search_catalog-OneNode :
      (n : RoutingNode) (q : Result Error NodeCatalog) (capable : Bool)
      (refusal : Option InputError)
      → takes_part route n ≡ true
      → s.get_model_catalog n.id ≡ q
      → OneNode n (search_catalog s route revision d r n.id q capable refusal)
  unfolding search_catalog
  search_catalog-OneNode n (err e) capable refusal a b = (a, b)
  search_catalog-OneNode n (ok c) capable refusal a b =
      if_cases (OneNode n) (is_stale s.now c) _ _
        (λ e. λ c' _ b' f.
          absurd (let same : c ≡ c' = cc in let g = ap (λ z. is_stale s.now z) same in cc))
        (λ e.
          from_models n c (search_models s route revision d r n.id c.items capable refusal) a b e
            (search_models-Found n.id c.items capable refusal))

  -- The loops decide for a node that takes the request, stop at a catalog that cannot be read, or come
  -- to the end only if no node takes it.
  pub search_nodes-Answer :
      (nodes : List RoutingNode) (capable : Bool) (refusal : Option InputError)
      → Answer nodes (search_nodes s route revision d r nodes capable refusal)
  unfolding search_nodes
  search_nodes-Answer [] capable refusal = tt
  search_nodes-Answer (n ∷ nodes) capable refusal =
      go_on-Answer n nodes
        (if takes_part route n
          then search_catalog s route revision d r n.id (s.get_model_catalog n.id) capable refusal
          else going capable refusal)
        (search_nodes s route revision d r nodes)
        (if_cases (OneNode n) (takes_part route n) _ _
          (λ a. search_catalog-OneNode n (s.get_model_catalog n.id) capable refusal a refl)
          (λ a. λ c b _ _. absurd (cc)))
        (search_nodes-Answer nodes)

-- What a resolved request rests on.
pub record Resolved (s : Service) (r : GenerationRequest) (x : Decision) : Type 0 where
  pub route : ModelRoute
  pub revision : ℕ
  pub found : s.get_model_route r.model ≡ ok (route, revision)
  pub chosen : (route.selection_mode == "unresolved") ≡ false
  pub single : (route.selection_mode == "manual" || agrees route) ≡ true
  pub definition : Definition
  pub known : lookup route.protocol_version ≡ some definition
  pub nodes : List RoutingNode
  pub listed : s.list_model_nodes ≡ ok nodes
  pub node : RoutingNode
  pub there : In node nodes
  pub serving : Serving s route revision definition r node x

conclude_ok :
    (s : Service) (route : ModelRoute) (revision : ℕ) (d : Definition) (r : GenerationRequest)
    (q : Search) (x : Decision)
    → conclude s route revision d r q ≡ ok x
    → q ≡ decided x
conclude_ok s route revision d r (decided y) x h = cc
conclude_ok s route revision d r (stopped e) x h = absurd (cc)
conclude_ok s route revision d r (going false none) x h = absurd (cc)
conclude_ok s route revision d r (going false (some e)) x h = absurd (cc)
conclude_ok s route revision d r (going true refusal) x h = absurd (cc)

from_store_ok :
    {A : Type 0} (q : Result Error A) (a : A)
    → Path (Result RouteError A) (from_store q) (ok a)
    → q ≡ ok a
from_store_ok (ok b) a h = cc
from_store_ok (err e) a h = absurd (cc)

search_for_ok :
    (s : Service) (r : GenerationRequest) (route : ModelRoute) (revision : ℕ)
    (o : Option Definition) (x : Decision)
    → search_for s r route revision o ≡ ok x
    → (d : Definition) × (o ≡ some d)
      × (nodes : List RoutingNode) × (s.list_model_nodes ≡ ok nodes)
      × (n : RoutingNode) × In n nodes
      × Serving s route revision d r n x
unfolding search_for
search_for_ok s r route revision none x h = absurd (cc)
search_for_ok s r route revision (some d) x h =
    let (nodes, a, k) = after_ok (from_store s.list_model_nodes) _ x h in
    let (n, there, serving) =
      subst (Answer s route revision d r nodes) (conclude_ok s route revision d r _ x k)
        (search_nodes-Answer s route revision d r nodes false none) in
    (d, refl, nodes, from_store_ok s.list_model_nodes nodes a, n, there, serving)

resolve_ok :
    (s : Service) (r : GenerationRequest) (x : Decision) → resolve s r ≡ ok x → Resolved s r x
unfolding resolve resolve_route
resolve_ok s r x h =
    let ((route, revision), a, k) = after_ok (from_store (s.get_model_route r.model)) _ x h in
    let clear : (route.protocol_version == "" || route.selection_mode == "unresolved") ≡ false =
      ground arith in
    let single : (not (route.selection_mode == "manual") && not (agrees route)) ≡ false =
      ground arith in
    let (d, b, nodes, e, n, there, serving) =
      search_for_ok s r route revision (lookup route.protocol_version) x
        (rw (clear, single) at k) in
    record {
      route = route;
      revision = revision;
      found = from_store_ok (s.get_model_route r.model) (route, revision) a;
      chosen = ground arith;
      single = ground arith;
      definition = d;
      known = b;
      nodes = nodes;
      listed = e;
      node = n;
      there = there;
      serving = serving;
    }

made_requirements :
    (route : ModelRoute) (revision : ℕ) (d : Definition) (r : GenerationRequest) (x : Decision)
    → x ≡ decide route revision d r x.normalized
    → x.snapshot.requirements ≡ x.normalized.requirements
unfolding decide
made_requirements route revision d r x e = ap (λ (z : Decision). z.snapshot.requirements) e

Serving-accepts :
    (s : Service) (route : ModelRoute) (revision : ℕ) (d : Definition) (r : GenerationRequest)
    (n : RoutingNode) (x : Decision) (k : Serving s route revision d r n x)
    → accepts k.model.capabilities x.snapshot.requirements ≡ true
Serving-accepts s route revision d r n x k =
    let made = made_requirements route revision d r x k.serves.made in
    let (_, normal_x) =
      normalize_again s.decoders k.model.capabilities route.protocol_version r x.normalized
        k.serves.normal in
    ap (accepts k.model.capabilities) made ∙ normal_x.accepted

-- A request is resolved only to a protocol that the administrator chose or that every candidate has,
-- by an enabled, healthy node of that protocol whose fresh catalog offers the model and whose
-- capability takes the normalised request; the snapshot holds what that capability accepted.
pub resolve-Resolved :
    (s : Service) (r : GenerationRequest) (x : Decision)
    → resolve s r ≡ ok x
    → (f : Resolved s r x) × (accepts f.serving.model.capabilities x.snapshot.requirements ≡ true)
resolve-Resolved s r x h =
    let f = resolve_ok s r x h in
    (f, Serving-accepts s f.route f.revision f.definition r f.node x f.serving)
