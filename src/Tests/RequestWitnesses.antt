-- ===== src/Tests/RequestWitnesses.antt =====
-- The theorems on requests and routes at concrete ones.
use minimax_proxy.Tests.Requests.{
  decoders, h3_request, validated, tk2sd_request, tk2sd_normalized, frame_capability, service,
  frame_node, frame_route, decision, direct,
}
use minimax_proxy.Protocol.Media.{validate_image_source, validate_address}
use minimax_proxy.Protocol.H3.{
  validate_create, validate_items, validate_item, validate_text, validate_image, count_role,
  finish_request, check_tally, choose_scenario, valid_ratio, find_dimension,
}
use minimax_proxy.Protocol.H3 as H3
use minimax_proxy.Protocol.H3.Admitted.{IsAdmitted, validate_create-IsAdmitted}
use minimax_proxy.Protocol.Tk2sd.{
  take_items, take_item, take_text, take_media, take_by_type, take_image, fill_role, scenario_of,
}
use minimax_proxy.Protocol.Tk2sd as Tk2sd
use minimax_proxy.Protocol.Normalize.{
  normalize, normalize_tk2sd, normalize_filled, lookup, definitions, valid_model_id, normalized,
  accepted, requirements_of, roles_of, sources_of,
}
use minimax_proxy.Protocol.Normalize.Laws.{Normal, normalize_again}
use minimax_proxy.Domain.Capability.{
  accepts, refuses, first_mode, contains, contains_nat, supports, has_mode,
}
use minimax_proxy.Routing.{
  resolve, resolve_route, search_for, search_nodes, search_catalog, search_models, decide, agrees,
}
use minimax_proxy.Routing.Laws.{Answer, Resolved, resolve-Resolved, search_nodes-Answer}
use minimax_proxy.Base.{
  ok, none, refl, ◌≡◌, has_prefix, is_blank, is_space, cut, has_text, no_rune, is_control,
  trim_suffix, [], ◌∷◌, false, true,
}

h3_taken : validate_create decoders none h3_request ≡ ok validated
unfolding validate_create H3.check_request validate_items validate_item validate_text validate_image
    count_role finish_request check_tally choose_scenario valid_ratio find_dimension
    validate_image_source validate_address has_prefix is_blank is_space
h3_taken = refl

validate_create-IsAdmitted_example : IsAdmitted validated
validate_create-IsAdmitted_example =
    validate_create-IsAdmitted decoders none h3_request validated h3_taken

tk2sd_taken : normalize decoders "tk2sd-v1" tk2sd_request frame_capability ≡ ok tk2sd_normalized
unfolding normalize normalize_tk2sd normalize_filled Tk2sd.check_request lookup definitions
    valid_model_id normalized accepted requirements_of roles_of sources_of take_items take_item
    take_text take_media take_by_type take_image fill_role scenario_of accepts refuses first_mode
    contains contains_nat supports validate_image_source validate_address has_prefix is_blank
    is_space cut has_text no_rune is_control trim_suffix has_mode
tk2sd_taken = refl

normalize_again_example :
    (normalize decoders "tk2sd-v1" tk2sd_normalized.request frame_capability ≡ ok tk2sd_normalized)
    × Normal "tk2sd-v1" frame_capability tk2sd_normalized
normalize_again_example =
    normalize_again decoders frame_capability "tk2sd-v1" tk2sd_request tk2sd_normalized tk2sd_taken

resolved : resolve service tk2sd_request ≡ ok decision
unfolding resolve resolve_route search_for search_nodes search_catalog search_models decide agrees
    lookup definitions
resolved = rw tk2sd_taken refl

resolve-Resolved_example :
    (f : Resolved service tk2sd_request decision) × (accepts f.serving.model.capabilities
        decision.snapshot.requirements
      ≡ true)
resolve-Resolved_example = resolve-Resolved service tk2sd_request decision resolved

search_nodes-Answer_example :
    Answer service frame_route 7 direct tk2sd_request
      (frame_node ∷ [])
      (search_nodes service frame_route 7 direct tk2sd_request (frame_node ∷ []) false none)
search_nodes-Answer_example =
    search_nodes-Answer service frame_route 7 direct tk2sd_request (frame_node ∷ []) false none
