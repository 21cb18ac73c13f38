-- ===== src/Protocol/H3/Admitted.antt =====
-- What a validated request is, told without the loop.
use minimax_proxy.Protocol.Media.{Decoders}
use minimax_proxy.Protocol.H3.{
  validate_items, Tally, validate_create, check_request, check_tally, ValidatedRequest, Profiles,
  empty_tally, choose_scenario, valid_ratio, has_frames,
}
use minimax_proxy.Protocol.H3.Items.{is_text, plays, total, added, validate_item-Counted}
use minimax_proxy.Protocol.H3.Stable.{
  validate_items-cons, validate_create_ok, finish_request_ok, length-validate_items,
}
use minimax_proxy.Domain.Request.{GenerationContent, GenerationRequest}
use minimax_proxy.Base.{
  String, List, [], arith, count_where, length, ok, subst, suc, sym, ℕ, ◌+◌, ◌∷◌, ◌≡◌, Bool-cases,
  false, inl, inr, ◌<◌, ◌==◌, ◌≤◌, ◌⊎◌, string_eq, nat_eq, Option, ap, true,
}

abbrev pub firsts : List GenerationContent → ℕ
firsts items = count_where (plays "image_url" "first_frame") items

abbrev pub lasts : List GenerationContent → ℕ
lasts items = count_where (plays "image_url" "last_frame") items

abbrev pub images : List GenerationContent → ℕ
images items = count_where (plays "image_url" "reference_image") items

abbrev pub videos : List GenerationContent → ℕ
videos items = count_where (plays "video_url" "reference_video") items

abbrev pub audios : List GenerationContent → ℕ
audios items = count_where (plays "audio_url" "reference_audio") items

abbrev pub frames : List GenerationContent → ℕ
frames items = firsts items + lasts items

abbrev pub references : List GenerationContent → ℕ
references items = images items + videos items + audios items

-- The counters after the loop, by the items that it leaves.
record Counts (done : List GenerationContent) (s t : Tally) : Type 0 where
  pub texts : t.texts ≡ s.texts + count_where is_text done
  pub firsts : t.firsts ≡ s.firsts + count_where (plays "image_url" "first_frame") done
  pub lasts : t.lasts ≡ s.lasts + count_where (plays "image_url" "last_frame") done
  pub images : t.images ≡ s.images + count_where (plays "image_url" "reference_image") done
  pub videos : t.videos ≡ s.videos + count_where (plays "video_url" "reference_video") done
  pub audios : t.audios ≡ s.audios + count_where (plays "audio_url" "reference_audio") done
  pub all : total t ≡ total s + length done

Counts-nil : (s t : Tally) → s ≡ t → Counts [] s t
Counts-nil s t e = ground arith

Counts-cons :
    (j : GenerationContent) (rest : List GenerationContent) (s u t : Tally)
    → u ≡ added j s
    → total u ≡ suc (total s)
    → Counts rest u t
    → Counts (j ∷ rest) s t
Counts-cons j rest s u t e n c = ground arith

validate_items-Counts :
    (m : Decoders) (items done : List GenerationContent) (s t : Tally)
    → validate_items m items s ≡ ok (done, t)
    → Counts done s t
unfolding validate_items
validate_items-Counts m [] done s t h =
    let e : done ≡ [] = cc in
    let f : s ≡ t = cc in subst (λ z. Counts z s t) (sym e) (Counts-nil s t f)
validate_items-Counts m (i ∷ items) done s t h =
    let (j, u, rest, e, f, g) = validate_items-cons m i items done s t h in
    let (_, a, n) = validate_item-Counted m i j s u e in
    subst (λ z. Counts z s t) (sym g)
      (Counts-cons j rest s u t a n (validate_items-Counts m items rest u t f))

check_tally_ok :
    (t : Tally)
    → check_tally t ≡ ok tt
    → (t.texts ≡ 1)
      × (t.firsts ≤ 1)
      × (t.lasts ≤ 1)
      × (t.images ≤ 9)
      × (t.videos ≤ 3)
      × (t.audios ≤ 3)
      × ((t.firsts + t.lasts ≡ 0) ⊎ (t.images + t.videos + t.audios ≡ 0))
unfolding check_tally
check_tally_ok t h = (
  ground arith,
  ground arith,
  ground arith,
  ground arith,
  ground arith,
  ground arith,
  elim (Bool-cases (has_frames t)) [ inl e ↦ inr (ground arith) | inr e ↦ inl (ground arith) ],
)

check_request_ok :
    (r : GenerationRequest)
    → check_request r ≡ ok tt
    → (0 < length r.content) × (length r.content ≤ 16) × (4 ≤ r.duration) × (r.duration ≤ 15)
unfolding check_request
check_request_ok r h = (ground arith, ground arith, ground arith, ground arith)

-- The scenario that the items make, and the ratio that goes with it.
abbrev pub Scenario : List GenerationContent → String → String → Type 0
Scenario items scenario ratio =
    (0 < frames items → (scenario ≡ "i2va") × (ratio ≡ "adaptive"))
    × (frames items ≡ 0 → 0 < references items → scenario ≡ "r2va")
    × (frames items ≡ 0
        → references items ≡ 0
        → (scenario ≡ "t2va") × ((ratio == "adaptive") ≡ false))

choose_scenario-Scenario :
    (t : Tally) (items : List GenerationContent) (ratio : String) (chosen : String × String)
    → t.firsts + t.lasts ≡ frames items
    → t.images + t.videos + t.audios ≡ references items
    → choose_scenario t ratio ≡ ok chosen
    → Scenario items chosen.0 chosen.1
unfolding choose_scenario
choose_scenario-Scenario t items ratio (scenario, chosen) f g h = (
  (λ k. (ground arith, ground arith)),
  (λ k l. ground arith),
  (λ k l. (ground arith, ground arith)),
)

-- A request that MiniMax-H3 takes, by its items alone.
pub record Admitted (items : List GenerationContent) (duration : ℕ) (ratio scenario : String)
    (input_images : ℕ) : Type 0 where
  pub some_items : 0 < length items
  pub few_items : length items ≤ 16
  pub duration_least : 4 ≤ duration
  pub duration_most : duration ≤ 15
  pub one_text : count_where is_text items ≡ 1
  pub one_first : firsts items ≤ 1
  pub one_last : lasts items ≤ 1
  pub few_images : images items ≤ 9
  pub few_videos : videos items ≤ 3
  pub few_audios : audios items ≤ 3
  pub exclusive : (frames items ≡ 0) ⊎ (references items ≡ 0)
  pub nothing_else : length items ≡ count_where is_text items + frames items + references items
  pub ratio_known : valid_ratio ratio ≡ true
  pub scenario_fits : Scenario items scenario ratio
  pub images_counted : input_images ≡ frames items + images items

abbrev pub IsAdmitted : ValidatedRequest → Type 0
IsAdmitted v =
    Admitted v.request.content v.request.duration v.request.ratio v.scenario v.input_image_count

-- The parts of `Admitted` that the counters give.
tally_admitted :
    (items : List GenerationContent) (t : Tally)
    → Counts items empty_tally t
    → check_tally t ≡ ok tt
    → (count_where is_text items ≡ 1)
      × (firsts items ≤ 1)
      × (lasts items ≤ 1)
      × (images items ≤ 9)
      × (videos items ≤ 3)
      × (audios items ≤ 3)
      × ((frames items ≡ 0) ⊎ (references items ≡ 0))
      × (length items ≡ count_where is_text items + frames items + references items)
      × (t.firsts + t.lasts ≡ frames items)
      × (t.images + t.videos + t.audios ≡ references items)
      × (t.images ≡ images items)
tally_admitted items t c h =
    let (a, b, d, e, f, g, k) = check_tally_ok t h in
    (
      omega arith,
      omega arith,
      omega arith,
      omega arith,
      omega arith,
      omega arith,
      elim k [ inl z ↦ inl (omega arith) | inr z ↦ inr (omega arith) ],
      omega arith,
      omega arith,
      omega arith,
      omega arith,
    )

same-Admitted :
    (items : List GenerationContent) (duration : ℕ) (ratio scenario : String) (n : ℕ)
    (v : ValidatedRequest)
    → v.request.content ≡ items
    → v.request.duration ≡ duration
    → v.request.ratio ≡ ratio
    → v.scenario ≡ scenario
    → v.input_image_count ≡ n
    → Admitted items duration ratio scenario n
    → IsAdmitted v
same-Admitted items duration ratio scenario n v a b c d e h =
    subst (λ z. Admitted z v.request.duration v.request.ratio v.scenario v.input_image_count)
      (sym a)
      (subst (λ z. Admitted items z v.request.ratio v.scenario v.input_image_count) (sym b)
        (subst (λ z. Admitted items duration z v.scenario v.input_image_count) (sym c)
          (subst (λ z. Admitted items duration ratio z v.input_image_count) (sym d)
            (subst (λ z. Admitted items duration ratio scenario z) (sym e) h))))

-- A request that passes ValidateCreate has between 1 and 16 items, each of them a text, a frame or a
-- reference in its role, with one text and within the limits on media; frames and references
-- exclude one another, and decide the scenario and the ratio that comes with it. The duration is
-- between 4 and 15 seconds, and the images are counted.
pub validate_create-IsAdmitted :
    (m : Decoders) (profiles : Option Profiles) (r : GenerationRequest) (v : ValidatedRequest)
    → validate_create m profiles r ≡ ok v
    → IsAdmitted v
validate_create-IsAdmitted m profiles r v h =
    let (items, t, a, b, c) = validate_create_ok m profiles r v h in
    let (chosen, d, e, f, _, g, k, l) = finish_request_ok profiles r items t v c in
    let (p1, p2, p3, p4) = check_request_ok r a in
    let size = length-validate_items m r.content items empty_tally t b in
    let (q1, q2, q3, q4, q5, q6, q7, q8, q9, q10, q11) =
      tally_admitted items t (validate_items-Counts m r.content items empty_tally t b) d in
    same-Admitted items r.duration chosen.1 chosen.0 (t.firsts + t.lasts + t.images) v
      (ap (λ z. z.content) f) (ap (λ z. z.duration) f) (ap (λ z. z.ratio) f) k l
      (record {
        some_items = omega arith;
        few_items = omega arith;
        duration_least = p3;
        duration_most = p4;
        one_text = q1;
        one_first = q2;
        one_last = q3;
        few_images = q4;
        few_videos = q5;
        few_audios = q6;
        exclusive = q7;
        nothing_else = q8;
        ratio_known = g;
        scenario_fits = choose_scenario-Scenario t items r.ratio chosen q9 q10 e;
        images_counted = omega arith;
      })
