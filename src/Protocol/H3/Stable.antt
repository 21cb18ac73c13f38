-- ===== src/Protocol/H3/Stable.antt =====
-- Validating a request that was validated changes nothing.
use minimax_proxy.Protocol.Media.{Decoders, Checked, in_front}
use minimax_proxy.Protocol.H3.{
  validate_items, Tally, choose_scenario, validate_create, check_request, finish_request,
  check_tally, ValidatedRequest, Profiles, has_frames, has_references, empty_tally, validate_item,
  find_dimension, valid_ratio,
}
use minimax_proxy.Protocol.H3.Items.{validate_item-filled, validate_item-Counted}
use minimax_proxy.Domain.Request.{GenerationContent, GenerationRequest}
use minimax_proxy.Base.{
  String, List, [], err, ok, ◌∷◌, ◌≡◌, after_ok, ap, length, refl, suc, ◌∙◌, Bool-cases, Option,
  arith, false, if◌then◌else◌, inl, inr, ◌==◌, string_eq, nat_eq, subst, sym, true, ◌+◌,
}
use minimax_proxy.Domain.Status.Laws.{same}

pub in_front_ok :
    {A T : Type 0} (a : A) (r : Checked (List A × T)) (items : List A) (t : T)
    → in_front a r ≡ ok (items, t)
    → (rest : List A) × (r ≡ ok (rest, t)) × (items ≡ a ∷ rest)
in_front_ok a (ok (rest, s)) items t h = (rest, cc, cc)
in_front_ok a (err e) items t h = absurd (cc)

-- A run of the loop that ends well: its first step and the rest.
pub validate_items-cons :
    (m : Decoders) (i : GenerationContent) (items done : List GenerationContent) (s t : Tally)
    → validate_items m (i ∷ items) s ≡ ok (done, t)
    → (j : GenerationContent) × (u : Tally) × (rest : List GenerationContent) × (validate_item m i s
        ≡ ok (j, u))
      × (validate_items m items u ≡ ok (rest, t))
      × (done ≡ j ∷ rest)
unfolding validate_items
validate_items-cons m i items done s t h =
    let ((j, u), e, k) = after_ok (validate_item m i s) _ (done, t) h in
    let (rest, f, g) = in_front_ok j (validate_items m items u) done t k in (j, u, rest, e, f, g)

-- The loop runs on the items that it leaves as it ran before.
pub validate_items_again :
    (m : Decoders) (items done : List GenerationContent) (s t : Tally)
    → validate_items m items s ≡ ok (done, t)
    → validate_items m done s ≡ ok (done, t)
unfolding validate_items
validate_items_again m [] done s t h = let e : done ≡ [] = cc in rw e (rw e at h)
validate_items_again m (i ∷ items) done s t h =
    let (j, u, rest, e, f, g) = validate_items-cons m i items done s t h in
    let again = validate_items_again m items rest u t f in
    let (same, _, _) = validate_item-Counted m i j s u e in
    let step : validate_item m j s ≡ ok (j, u) =
      ap (λ z. validate_item m z s) same ∙ validate_item-filled m i s ∙ e in
    rw (g, step, again) refl

pub length-validate_items :
    (m : Decoders) (items done : List GenerationContent) (s t : Tally)
    → validate_items m items s ≡ ok (done, t)
    → length done ≡ length items
unfolding validate_items
length-validate_items m [] done s t h = let e : done ≡ [] = cc in rw e refl
length-validate_items m (i ∷ items) done s t h =
    let (j, u, rest, e, f, g) = validate_items-cons m i items done s t h in
    rw g (ap suc (length-validate_items m items rest u t f))

not_blank : (r : String) → ((if r == "" then "adaptive" else r) == "") ≡ false
not_blank r = elim (Bool-cases (r == "")) [ inl e ↦ rw e refl | inr e ↦ rw e e ]

choose_scenario_again :
    (t : Tally) (ratio : String) (chosen : String × String)
    → choose_scenario t ratio ≡ ok chosen
    → choose_scenario t chosen.1 ≡ ok chosen
unfolding choose_scenario
choose_scenario_again t ratio (scenario, chosen) h = elim (Bool-cases (has_frames t)) [
  | inl f ↦ rw f (rw f at h)
  | inr f ↦ elim (Bool-cases (has_references t)) [
    | inl g ↦
        let e : chosen ≡ (if ratio == "" then "adaptive" else ratio) = ground arith in
        let k : (chosen == "") ≡ false = ap (λ z. z == "") e ∙ not_blank ratio in
        let n : scenario ≡ "r2va" = ground arith in rw (f, g, k, n) refl
    | inr g ↦ let e : chosen ≡ ratio = ground arith in rw e (rw e at h)
  ]
]

-- What `finish_request` went through.
pub finish_request_ok :
    (profiles : Option Profiles) (r : GenerationRequest) (items : List GenerationContent)
    (t : Tally) (v : ValidatedRequest)
    → finish_request profiles r items t ≡ ok v
    → (chosen : String × String) × (check_tally t ≡ ok tt)
      × (choose_scenario t r.ratio ≡ ok chosen)
      × (v.request ≡ record r { content = items; ratio = chosen.1 })
      × (finish_request profiles (record r { content = items; ratio = chosen.1 }) items t ≡ ok v)
      × (valid_ratio chosen.1 ≡ true)
      × (v.scenario ≡ chosen.0)
      × (v.input_image_count ≡ t.firsts + t.lasts + t.images)
unfolding finish_request
finish_request_ok profiles r items t v h =
    let (u, a, h') = after_ok (check_tally t) _ v h in
    let (chosen, b, h'') = after_ok (choose_scenario t r.ratio) _ v h' in
    let again = choose_scenario_again t r.ratio chosen b in
    elim (Bool-cases (valid_ratio chosen.1)) [
      | inl e ↦
          let (d, k, l) =
            after_ok (find_dimension profiles r.resolution chosen.1) _ v (rw e at h'') in
          let x : v.request ≡ record r { content = items; ratio = chosen.1 } = cc in
          (chosen, a, b, x, rw (a, again, e, k) l, e, cc, cc)
      | inr e ↦ absurd (let k = rw e at h'' in cc)
    ]

check_request-content :
    (r : GenerationRequest) (items : List GenerationContent) (ratio : String)
    → length items ≡ length r.content
    → check_request (record r { content = items; ratio = ratio }) ≡ check_request r
unfolding check_request
check_request-content r items ratio e = rw e refl

-- What `validate_create` went through.
pub validate_create_ok :
    (m : Decoders) (profiles : Option Profiles) (r : GenerationRequest) (v : ValidatedRequest)
    → validate_create m profiles r ≡ ok v
    → (items : List GenerationContent) × (t : Tally) × (check_request r ≡ ok tt)
      × (validate_items m r.content empty_tally ≡ ok (items, t))
      × (finish_request profiles r items t ≡ ok v)
unfolding validate_create
validate_create_ok m profiles r v h =
    let (u, a, h') = after_ok (check_request r) _ v h in
    let ((items, t), b, h'') = after_ok (validate_items m r.content empty_tally) _ v h' in
    (items, t, a, b, h'')

-- A validated request is valid, and validating it again gives the same: the defaults that were filled
-- in are final.
pub validate_create_again :
    (m : Decoders) (profiles : Option Profiles) (r : GenerationRequest) (v : ValidatedRequest)
    → validate_create m profiles r ≡ ok v
    → validate_create m profiles v.request ≡ ok v
unfolding validate_create
validate_create_again m profiles r v h =
    let (items, t, a, b, c) = validate_create_ok m profiles r v h in
    let (chosen, _, _, e, d, _, _, _) = finish_request_ok profiles r items t v c in
    let size = length-validate_items m r.content items empty_tally t b in
    let again = validate_items_again m r.content items empty_tally t b in
    subst (λ z. validate_create m profiles z ≡ ok v) (sym e)
      (rw (check_request-content r items chosen.1 size, a, again) d)
