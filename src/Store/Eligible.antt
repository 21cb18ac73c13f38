-- ===== src/Store/Eligible.antt =====
-- task_routing_store.go and model_catalog_store.go: which queued task a node may take next. The rows
-- of video_tasks stand in the order of queue_seq, the table's integer key.
pub mod Paging
use Prim.Native.Char.{code}
use Prim.Native.String.{◌++◌ as str_append}
use minimax_proxy.Domain.Status.{protocol_legacy, protocol_official}
use minimax_proxy.Domain.Capability.{ModelCapability, accepts}
use minimax_proxy.Store.Tables.{
  Task, NodeModel, ModelNode, ModelCatalog, Json, decoded, undecodable, SpoolFile, RouteSnapshot,
}
use minimax_proxy.Store.Db.{Db, Error, node_not_found, json_error, queue_empty, constraint}
use minimax_proxy.Store.Queue.{is_ranked}
use minimax_proxy.Base.{
  Bool, List, Option, Result, String, [], any, coalesce, count_where, err, false, first_where,
  if◌then◌else◌, is_some, is_value, leb, length, ltb, map, none, not, ok, select_where, some, suc,
  take, true, zero, ℕ, ◌&&◌, ◌+◌, ◌/◌, ◌==◌, ◌||◌, ◌∷◌, string_eq, nat_eq,
}
use minimax_proxy.Domain.Request.{media, GenerationContent}

-- A value or an error, of a query that changes nothing.
abbrev pub Query : Type 0 → Type 0
Query A = Result Error A

infixl 5 ◌>>=?◌
abbrev pub ◌>>=?◌ : {A B : Type 0} → Query A → (A → Query B) → Query B
ok a >>=? f = f a
err e >>=? f = err e

-- A scanned model of a catalog.
pub record CatalogItem : Type 0 where
  pub model_id : String
  pub enabled : Bool
  pub present : Bool
  pub capabilities : ModelCapability

unfoldable pub scan_model :
    NodeModel → Json ModelCapability → Query (List CatalogItem) → Query (List CatalogItem)
scan_model m (undecodable text) rest = err json_error
scan_model m (decoded c) rest = rest >>=? λ items. ok (
    record { model_id = m.model_id; enabled = m.enabled; present = m.present; capabilities = c }
    ∷ items)

-- The loop of `catalogWith` over node_models.
unfoldable pub scan_models : List NodeModel → Query (List CatalogItem)
scan_models [] = ok []
scan_models (m ∷ ms) = scan_model m m.capabilities (scan_models ms)

unfoldable pub catalog_with : Db → String → Query (ModelCatalog × List CatalogItem)
catalog_with db node_id = elim (first_where (λ c. c.node_id == node_id) db.catalogs) [
  | none ↦ err node_not_found
  | some c ↦ scan_models c.items >>=? λ items. ok (c, items)
]

-- The test that the last loop makes of a model.
abbrev pub serves : String → RouteSnapshot → CatalogItem → Bool
serves model snapshot item =
    item.model_id == model
    && (item.enabled && (item.present && accepts item.capabilities snapshot.requirements))

-- `json.Unmarshal` of the snapshot; the column is empty where it is NULL, which does not decode.
abbrev pub decode_snapshot : Option (Json RouteSnapshot) → Query RouteSnapshot
decode_snapshot none = err json_error
decode_snapshot (some (undecodable text)) = err json_error
decode_snapshot (some (decoded s)) = ok s

abbrev pub find_node : Db → String → Option ModelNode
find_node db node_id = first_where (λ n. n.id == node_id && not (is_some n.deleted_at)) db.nodes

-- The part of `taskEligibleForNode` behind the catalogue.
unfoldable pub eligible_in : Task → ℕ → ModelCatalog → List CatalogItem → Query Bool
eligible_in t now c items =
    if c.source == "discovered" && leb (coalesce c.valid_until 0) now
    then ok false
    else (decode_snapshot t.routing_snapshot >>=? λ s. ok (any (serves t.model s) items))

unfoldable pub eligible_on : Db → Task → String → ℕ → Option ModelNode → Query Bool
eligible_on db t node_id now none = ok (is_value t.protocol_version protocol_legacy)
eligible_on db t node_id now (some n) =
    if not n.enabled || not (coalesce n.protocol_version "" == coalesce t.protocol_version "")
    then ok false
    else (catalog_with db node_id >>=? λ r. eligible_in t now r.0 r.1)

unfoldable pub task_eligible_for_node : Db → Task → String → ℕ → Query Bool
task_eligible_for_node db t node_id now =
    if not (t.route_state == "ready") || coalesce t.protocol_version "" == ""
    then ok false
    else eligible_on db t node_id now (find_node db node_id)

-- The code points of a text.
abbrev pub codes : String → List ℕ
codes String.[] = []
codes (String.◌∷◌ c s) = code c ∷ codes s

-- `strings.Cut(url, ":")`: what stands before the first colon and what behind it.
unfoldable pub cut : List ℕ → List ℕ × List ℕ
cut [] = ([], [])
cut (c ∷ cs) = let (source, tail) = cut cs in if c == b':' then ([], cs) else (c ∷ source, tail)

-- `strings.ToLower` of a code point, where the result may be ASCII: also U+0130 and U+212A.
unfoldable pub to_lower : ℕ → ℕ
to_lower c =
    if leb b'A' c && leb c b'Z'
    then c + 32
    else if c == 0x130
    then b'i'
    else if c == 0x212a
    then b'k'
    else c

unfoldable pub same_codes : List ℕ → List ℕ → Bool
same_codes [] [] = true
same_codes [] (d ∷ ds) = false
same_codes (c ∷ cs) [] = false
same_codes (c ∷ cs) (d ∷ ds) = c == d && same_codes cs ds

-- `strings.HasPrefix(tail, "//") && len(tail) > 2`.
abbrev pub has_authority : List ℕ → Bool
has_authority [] = false
has_authority (a ∷ []) = false
has_authority (a ∷ b ∷ []) = false
has_authority (a ∷ b ∷ c ∷ rest) = a == b'/' && b == b'/'

abbrev pub proxy_reference : String → String → String
proxy_reference task_id id = str_append "proxy-input://" (str_append task_id (str_append "/" id))

-- The number of spool files that the reference of an item of the request names.
unfoldable pub spool_count : Db → String → ℕ → GenerationContent → String → ℕ
spool_count db task_id index item url =
    count_where
      (λ (f : SpoolFile).
        f.task_id == task_id
        && (f.content_index == index
            && (f.content_type == item.type
                && (f.role == item.role && proxy_reference f.task_id f.id == url))))
      db.spool_files

-- The `switch` on the source of a media URL.
unfoldable pub valid_media : Db → Task → ℕ → GenerationContent → String → Bool
valid_media db t index item url =
    let (source, tail) = cut (codes url) in
    let lower = map to_lower source in
    if same_codes lower (codes "http")
      || same_codes lower (codes "https")
      || same_codes lower (codes "data")
    then true
    else if same_codes lower (codes "mm_file")
    then is_value t.protocol_version protocol_official && has_authority tail
    else if same_codes lower (codes "proxy-input")
    then spool_count db t.task_id index item url == 1
    else false

abbrev pub valid_item : Db → Task → ℕ → GenerationContent → Bool
valid_item db t index item = elim (media item) [
  | none ↦ true
  | some url ↦ valid_media db t index item url
]

-- The loop over the content, which stops at the first item that is not valid.
unfoldable pub valid_content : Db → Task → ℕ → List GenerationContent → Bool
valid_content db t index [] = true
valid_content db t index (item ∷ items) =
    valid_item db t index item && valid_content db t (index + 1) items

abbrev pub valid_request : Db → Task → Json (List GenerationContent) → Bool
valid_request db t (undecodable text) = false
valid_request db t (decoded content) = valid_content db t 0 content

-- One round of the inner loop of `nextEligibleTask`: may the node take the task?
unfoldable pub takes : Db → String → ℕ → Task → Query Bool
takes db node_id now t = task_eligible_for_node db t node_id now >>=? λ eligible.
    ok (eligible && valid_request db t t.request_content)

-- The inner loop, over one page.
unfoldable pub scan_page : Db → String → ℕ → List Task → Query (Option Task)
scan_page db node_id now [] = ok none
scan_page db node_id now (t ∷ ts) =
    let rest = scan_page db node_id now ts in
    takes db node_id now t >>=? λ taken. if taken then ok (some t) else rest

-- The rows behind `after`, in the order of the queue.
abbrev pub behind : ℕ → List Task → List Task
behind after tasks = select_where (λ (t : Task). is_ranked t && ltb after t.queue_seq) tasks

-- The position of the last row of a page: `after` once the inner loop is done.
abbrev pub last_seq : ℕ → List Task → ℕ
last_seq after [] = after
last_seq after (t ∷ ts) = last_seq t.queue_seq ts

-- The end of a round of the outer loop: what the page gave, or the next round.
unfoldable pub next_round : Query (Option Task) → Bool → Option (Query Task) → Option (Query Task)
next_round (err e) is_last rest = some (err e)
next_round (ok (some t)) is_last rest = some (ok t)
next_round (ok none) true rest = some (err queue_empty)
next_round (ok none) false rest = rest

-- The outer loop over pages of `limit` rows. A page that is not full is the last one. `none` would
-- mean that the fuel ran out.
unfoldable pub next_from : ℕ → ℕ → Db → String → ℕ → ℕ → Option (Query Task)
next_from limit zero db node_id now after = none
next_from limit (suc fuel) db node_id now after =
    let page = take limit (behind after db.tasks) in
    let rest = next_from limit fuel db node_id now (last_seq after page) in
    next_round (scan_page db node_id now page) (ltb (length page) limit) rest

-- Each full page moves on, so a round for each row and one more are enough.
unfoldable pub next_eligible_task : Db → String → ℕ → Query Task
next_eligible_task db node_id now =
    coalesce (next_from 100 (suc (length db.tasks)) db node_id now 0) (err constraint)
