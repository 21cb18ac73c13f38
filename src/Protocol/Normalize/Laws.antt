-- ===== src/Protocol/Normalize/Laws.antt =====
-- The normalisers: what they give, and that they change nothing the second time. The proxy normalises a
-- request when it is created and again when an administrator gives an old task its protocol.
use minimax_proxy.Protocol.Media.{Decoders}
use minimax_proxy.Protocol.H3.{validate_create, ValidatedRequest}
use minimax_proxy.Protocol.H3.Stable.{validate_create_again, validate_create_ok, finish_request_ok}
use minimax_proxy.Protocol.Tk2sd
use minimax_proxy.Protocol.Tk2sd.{take_items, Tally, default_duration, scenario_of, is_media}
use minimax_proxy.Protocol.Tk2sd.Stable.{take_items_again}
use minimax_proxy.Protocol.Normalize.{
  normalize, normalize_tk2sd, normalize_filled, accepted, normalized, renamed, default_model,
  requirements_of, lookup, valid_model_id,
}
use minimax_proxy.Domain.Capability.{ModelCapability, accepts, has_mode}
use minimax_proxy.Domain.Request.{GenerationContent, GenerationRequest, NormalizedRequest}
use minimax_proxy.Base.{
  String, Bool-cases, List, arith, false, inl, inr, length, ok, refl, true, ℕ, ◌==◌, ◌≡◌, string_eq,
  nat_eq, after_ok, count_where, subst, sym, ap, none, not, ◌&&◌, ◌∙◌, eq_iff, is_some,
}
use minimax_proxy.Protocol.H3.Admitted.{images}
use minimax_proxy.Domain.Status.{protocol_tk2sd, protocol_official}
use minimax_proxy.Domain.Status.Laws.{same}

accepted_ok :
    (c : ModelCapability) (x n : NormalizedRequest)
    → accepted c x ≡ ok n
    → (n ≡ x) × (accepts c x.requirements ≡ true)
unfolding accepted
accepted_ok c x n h = elim (Bool-cases (accepts c x.requirements)) [
  | inl e ↦ (let k = rw e at h in cc, e)
  | inr e ↦ absurd (let k = rw e at h in cc)
]

check_request-content :
    (r : GenerationRequest) (items : List GenerationContent)
    → length items ≡ length r.content
    → Tk2sd.check_request (record r { content = items }) ≡ Tk2sd.check_request r
unfolding Tk2sd.check_request
check_request-content r items e = rw e refl

check_request-duration :
    (r : GenerationRequest) → Tk2sd.check_request r ≡ ok tt → (r.duration == 0) ≡ false
unfolding Tk2sd.check_request
check_request-duration r h = ground arith

-- What a normalised request is, whatever the protocol.
pub record Normal (id : String) (c : ModelCapability) (n : NormalizedRequest) : Type 0 where
  pub accepted : accepts c n.requirements ≡ true
  pub described : n.requirements ≡ requirements_of n.request n.scenario
  pub version : n.normalizer_version ≡ id

normal :
    (id : String) (c : ModelCapability) (r : GenerationRequest) (scenario prompt : String)
    (images : ℕ) (n : NormalizedRequest)
    → accepted c (normalized r scenario prompt images id) ≡ ok n
    → Normal id c n
unfolding normalized
normal id c r scenario prompt images n h =
    let (e, a) = accepted_ok c (normalized r scenario prompt images id) n h in
    subst (λ z. Normal id c z) (sym e) (record { accepted = a; described = refl; version = refl })

module _ (m : Decoders) (c : ModelCapability) where
  -- What `normalize_filled` went through.
  normalize_filled_ok :
      (r : GenerationRequest) (n : NormalizedRequest)
      → normalize_filled m r c ≡ ok n
      → (items : List GenerationContent) × (t : Tally) × (scenario : String) × (Tk2sd.check_request
            r
          ≡ ok tt)
        × (take_items m
              (has_mode c "i2va")
              (count_where is_media r.content)
              r.content
              Tk2sd.empty_tally
            ≡ ok (items, t))
        × (scenario_of (count_where is_media r.content) t ≡ ok scenario)
        × (accepted c
              (normalized (record r { content = items }) scenario t.prompt t.images protocol_tk2sd)
            ≡ ok n)
  unfolding normalize_filled
  normalize_filled_ok r n h =
      let (_, a, h1) = after_ok (Tk2sd.check_request r) _ n h in
      let ((items, t), b, h2) =
        after_ok
          (take_items m (has_mode c "i2va") (count_where is_media r.content) r.content
            Tk2sd.empty_tally)
          _ n h1 in
      let (scenario, d, e) = after_ok (scenario_of (count_where is_media r.content) t) _ n h2 in
      (items, t, scenario, a, b, d, e)

  filled_again :
      (r : GenerationRequest) (items : List GenerationContent) (t : Tally) (scenario : String)
      (n : NormalizedRequest)
      → Tk2sd.check_request r ≡ ok tt
      → take_items m
          (has_mode c "i2va")
          (count_where is_media r.content)
          r.content
          Tk2sd.empty_tally
        ≡ ok (items, t)
      → scenario_of (count_where is_media r.content) t ≡ ok scenario
      → accepted c
          (normalized (record r { content = items }) scenario t.prompt t.images protocol_tk2sd)
        ≡ ok n
      → normalize_tk2sd m (record r { content = items }) c ≡ ok n
  unfolding normalize_tk2sd normalize_filled
  filled_again r items t scenario n a b d e =
      let (again, size, media_count) =
        take_items_again m (has_mode c "i2va") (count_where is_media r.content) r.content items
          Tk2sd.empty_tally t b in
      let known = check_request-duration r a in
      rw (known, check_request-content r items size, a, media_count, again, d) e

  tk2sd_filled :
      (r : GenerationRequest) → normalize_tk2sd m r c ≡ normalize_filled m (default_duration r) c
  unfolding normalize_tk2sd
  tk2sd_filled r = refl

  request_of :
      (r : GenerationRequest) (scenario prompt id : String) (images : ℕ) (n : NormalizedRequest)
      → accepted c (normalized r scenario prompt images id) ≡ ok n
      → n.request ≡ r
  unfolding normalized
  request_of r scenario prompt id images n h =
      ap (λ z. z.request) (accepted_ok c (normalized r scenario prompt images id) n h).0

  default_duration-model : (r : GenerationRequest) → (default_duration r).model ≡ r.model
  default_duration-model r = elim (Bool-cases (r.duration == 0 && not r.duration_present)) [
    | inl e ↦ rw e refl
    | inr e ↦ rw e refl
  ]

  normalize_tk2sd_again :
      (r : GenerationRequest) (n : NormalizedRequest)
      → normalize_tk2sd m r c ≡ ok n
      → (normalize_tk2sd m n.request c ≡ ok n)
        × Normal protocol_tk2sd c n
        × (n.request.model ≡ r.model)
  normalize_tk2sd_again r n h =
      let f = default_duration r in
      let (items, t, scenario, a, b, d, e) = normalize_filled_ok f n (sym (tk2sd_filled r) ∙ h) in
      let done : GenerationRequest = record f { content = items } in
      let same = request_of done scenario t.prompt protocol_tk2sd t.images n e in
      (
        subst (λ z. normalize_tk2sd m z c ≡ ok n) (sym same)
            (filled_again f items t scenario n a b d e),
        normal protocol_tk2sd c done scenario t.prompt t.images n e,
        ap (λ z. z.model) same ∙ default_duration-model r,
      )

  -- The path of every other protocol, behind the checks of the model.
  renamed_again :
      (id : String) (r : GenerationRequest) (v : ValidatedRequest) (n : NormalizedRequest)
      → validate_create m none (record r { model = default_model }) ≡ ok v
      → accepted c (renamed id r.model v) ≡ ok n
      → (validate_create m none (record n.request { model = default_model }) ≡ ok v)
        × Normal id c n
        × (n.request.model ≡ r.model)
        × (n.request.resolution ≡ r.resolution)
  renamed_again id r v n h a =
      let base : GenerationRequest = record r { model = default_model } in
      let (items, t, _, _, k) = validate_create_ok m none base v h in
      let (chosen, _, _, e, _, _, _, _) = finish_request_ok none base items t v k in
      let same =
        request_of (record v.request { model = r.model }) v.scenario v.prompt id v.input_image_count
          n a in
      let back : record n.request { model = default_model } ≡ v.request =
        ap
          (λ (z : GenerationRequest).
            let x : GenerationRequest = record z { model = default_model } in x)
          same
        ∙ ap (λ (z : String). let x : GenerationRequest = record v.request { model = z } in x)
            (sym (ap (λ z. z.model) e)) in
      (
        subst (λ z. validate_create m none z ≡ ok v) (sym back)
            (validate_create_again m none base v h),
        normal id c (record v.request { model = r.model }) v.scenario v.prompt v.input_image_count n
            a,
        ap (λ z. z.model) same,
        ap (λ z. z.resolution) same ∙ ap (λ z. z.resolution) e,
      )

  -- The request that a normaliser gives is one that it takes, and gives again: the roles, the ratio, the
  -- duration and the scenario that the first run fills in are final.
  pub normalize_again :
      (id : String) (r : GenerationRequest) (n : NormalizedRequest)
      → normalize m id r c ≡ ok n
      → (normalize m id n.request c ≡ ok n) × Normal id c n
  unfolding normalize
  normalize_again id r n h =
      let known : not (is_some (lookup id)) ≡ false = ground arith in
      let model : not (valid_model_id r.model) ≡ false = ground arith in
      elim (Bool-cases (id == protocol_tk2sd)) [
        | inl e ↦
            let (again, normal_n, same) = normalize_tk2sd_again r n (rw (known, model, e) at h) in
            let model' : not (valid_model_id n.request.model) ≡ false =
              ap (λ z. not (valid_model_id z)) same ∙ model in
            (
              rw (known, model', e) again,
              subst (λ z. Normal z c n) (sym ((eq_iff id protocol_tk2sd).0 e)) normal_n,
            )
        | inr e ↦
            let sized : (r.resolution == "") ≡ false = ground arith in
            let open_model : (not (id == protocol_official) && not (r.model == default_model))
                ≡ false =
              ground arith in
            let (v, f, g) =
              after_ok (validate_create m none (record r { model = default_model })) _ n
                (rw (known, model, e, sized, open_model) at h) in
            let (again, normal_n, same, resolution) = renamed_again id r v n f g in
            let model' : not (valid_model_id n.request.model) ≡ false =
              ap (λ z. not (valid_model_id z)) same ∙ model in
            let sized' : (n.request.resolution == "") ≡ false =
              ap (λ z. z == "") resolution ∙ sized in
            let open_model' : (not (id == protocol_official)
                  && not (n.request.model == default_model))
                ≡ false =
              ap (λ z. not (id == protocol_official) && not (z == default_model)) same
              ∙ open_model in
            (
              rw (known, model', e, sized', open_model', again)
                  (subst (λ z. accepted c (renamed id z v) ≡ ok n) (sym same) g),
              normal_n,
            )
      ]
