-- ===== src/Protocol/H3/Items.antt =====
-- One item of the request: what the loop leaves of it.
use minimax_proxy.Protocol.Media.{Decoders}
use minimax_proxy.Protocol.H3.{
  validate_item, validate_text, validate_image, validate_video, validate_audio, count_role,
  default_role, Tally,
}
use minimax_proxy.Domain.Request.{GenerationContent}
use minimax_proxy.Base.{
  String, Bool-cases, Option, arith, eq_iff, if◌then◌else◌, inl, inr, none, refl, some, ◌&&◌, ◌==◌,
  ◌≡◌, ◌⊎◌, string_eq, nat_eq, ok, Bool, eq_refl, false, true, ℕ, ◌+◌, ap, sym, ◌∙◌, suc,
}

-- The item with its default filled in.
pub filled : GenerationContent → GenerationContent
filled i = if i.type == "image_url" && i.role == "" then record i { role = "first_frame" } else i

filled_cases :
    (i : GenerationContent)
    → (filled i ≡ i)
      ⊎ ((i.type ≡ "image_url") × (i.role ≡ "") × (filled i ≡ record i { role = "first_frame" }))
unfolding filled
filled_cases i = elim (Bool-cases (i.type == "image_url" && i.role == "")) [
  | inl e ↦ inr (
    ground (arith, eq_iff i.type "image_url"),
    ground (arith, eq_iff i.role "", eq_iff i.type "image_url"),
    ground arith,
  )
  | inr e ↦ inl (ground arith)
]

image_again :
    (m : Decoders) (i : GenerationContent) (t : Tally) (o : Option String)
    → i.role ≡ ""
    → validate_image m (record i { role = "first_frame" }) t o ≡ validate_image m i t o
unfolding validate_image
image_again m i t none e = refl
image_again m i t (some url) e = rw e refl

pub validate_item-filled :
    (m : Decoders) (i : GenerationContent) (t : Tally)
    → validate_item m (filled i) t ≡ validate_item m i t
unfolding validate_item
validate_item-filled m i t = elim (filled_cases i) [
  | inl e ↦ rw e refl
  | inr (ty, role, e) ↦
      rw (e, ty) (image_again m (record i { type = "image_url" }) t i.image_url role)
]

abbrev pub is_text : GenerationContent → Bool
is_text i = i.type == "text"

-- A media item of the type in the role.
abbrev pub plays : String → String → GenerationContent → Bool
plays type role i = i.type == type && i.role == role

abbrev pub one_if : Bool → ℕ
one_if b = if b then 1 else 0

-- What an item in its final form adds to the counters.
abbrev pub added : GenerationContent → Tally → Tally
added j s = record {
  texts = s.texts + one_if (is_text j);
  firsts = s.firsts + one_if (plays "image_url" "first_frame" j);
  lasts = s.lasts + one_if (plays "image_url" "last_frame" j);
  images = s.images + one_if (plays "image_url" "reference_image" j);
  videos = s.videos + one_if (plays "video_url" "reference_video" j);
  audios = s.audios + one_if (plays "audio_url" "reference_audio" j);
  prompt = if is_text j then j.text else s.prompt;
}

-- The number of items that were counted.
abbrev pub total : Tally → ℕ
total t = t.texts + t.firsts + t.lasts + t.images + t.videos + t.audios

abbrev Added : GenerationContent → Tally → GenerationContent → Tally → Type 0
Added i s j t = (j ≡ i) × (t ≡ added i s) × (total t ≡ suc (total s))

-- What a text equals decides its comparison with another one.
pub is_other : (s a b : String) → s ≡ a → (a == b) ≡ false → (s == b) ≡ false
is_other s a b e h = rw e h

is_same : (s a : String) → s ≡ a → (s == a) ≡ true
is_same s a e = rw e (eq_refl a)

text-Added :
    (i j : GenerationContent) (s t : Tally)
    → i.type ≡ "text"
    → validate_text i s ≡ ok (j, t)
    → Added i s j t
unfolding validate_text
text-Added i j s t e h =
    let a = is_same i.type "text" e in
    let b = is_other i.type "text" "image_url" e refl in
    let c = is_other i.type "text" "video_url" e refl in
    let d = is_other i.type "text" "audio_url" e refl in (ground arith, ground arith, ground arith)

role-Added :
    (i j : GenerationContent) (s t : Tally)
    → i.type ≡ "image_url"
    → count_role i s ≡ ok (j, t)
    → Added i s j t
unfolding count_role
role-Added i j s t e h =
    let a = is_same i.type "image_url" e in
    let b = is_other i.type "image_url" "text" e refl in
    let c = is_other i.type "image_url" "video_url" e refl in
    let d = is_other i.type "image_url" "audio_url" e refl in
    let f = λ (k : i.role ≡ "first_frame"). is_other i.role "first_frame" "last_frame" k refl in
    let g =
      λ (k : i.role ≡ "first_frame"). is_other i.role "first_frame" "reference_image" k refl in
    let l = λ (k : i.role ≡ "last_frame"). is_other i.role "last_frame" "reference_image" k refl in
    elim (Bool-cases (i.role == "first_frame")) [
      | inl r ↦
          let p = (eq_iff i.role "first_frame").0 r in
          let q = f p in let u = g p in (ground arith, ground arith, ground arith)
      | inr r ↦ elim (Bool-cases (i.role == "last_frame")) [
        | inl v ↦
            let q = l ((eq_iff i.role "last_frame").0 v) in
            (ground arith, ground arith, ground arith)
        | inr v ↦ (ground arith, ground arith, ground arith)
      ]
    ]

image-Added :
    (m : Decoders) (i j : GenerationContent) (s t : Tally) (o : Option String)
    → i.type ≡ "image_url"
    → validate_image m i s o ≡ ok (j, t)
    → Added (default_role i) s j t
unfolding validate_image
image-Added m i j s t none e h = absurd (cc)
image-Added m i j s t (some url) e h =
    role-Added (default_role i) j s t (ground arith) (ground arith)

video-Added :
    (m : Decoders) (i j : GenerationContent) (s t : Tally) (o : Option String)
    → i.type ≡ "video_url"
    → validate_video m i s o ≡ ok (j, t)
    → Added i s j t
unfolding validate_video
video-Added m i j s t none e h = absurd (cc)
video-Added m i j s t (some url) e h =
    let a = is_same i.type "video_url" e in
    let b = is_other i.type "video_url" "text" e refl in
    let c = is_other i.type "video_url" "image_url" e refl in
    let d = is_other i.type "video_url" "audio_url" e refl in
    (ground arith, ground arith, ground arith)

audio-Added :
    (m : Decoders) (i j : GenerationContent) (s t : Tally) (o : Option String)
    → i.type ≡ "audio_url"
    → validate_audio m i s o ≡ ok (j, t)
    → Added i s j t
unfolding validate_audio
audio-Added m i j s t none e h = absurd (cc)
audio-Added m i j s t (some url) e h =
    let a = is_same i.type "audio_url" e in
    let b = is_other i.type "audio_url" "text" e refl in
    let c = is_other i.type "audio_url" "image_url" e refl in
    let d = is_other i.type "audio_url" "video_url" e refl in
    (ground arith, ground arith, ground arith)

filled-image : (i : GenerationContent) → (i.type == "image_url") ≡ true → filled i ≡ default_role i
unfolding filled
filled-image i e = ground arith

filled-other : (i : GenerationContent) → (i.type == "image_url") ≡ false → filled i ≡ i
unfolding filled
filled-other i e = ground arith

-- The final form of an item, and what it adds to the counters.
abbrev pub Counted : GenerationContent → Tally → GenerationContent → Tally → Type 0
Counted i s j t = (j ≡ filled i) × (t ≡ added j s) × (total t ≡ suc (total s))

counted : (i j x : GenerationContent) (s t : Tally) → Added x s j t → filled i ≡ x → Counted i s j t
counted i j x s t (e, f, n) g = (e ∙ sym g, f ∙ ap (λ z. added z s) (sym e), n)

pub validate_item-Counted :
    (m : Decoders) (i j : GenerationContent) (s t : Tally)
    → validate_item m i s ≡ ok (j, t)
    → Counted i s j t
unfolding validate_item
validate_item-Counted m i j s t h = elim (Bool-cases (i.type == "text")) [
  | inl e ↦
      let y = (eq_iff i.type "text").0 e in
      counted i j i s t (text-Added i j s t y (rw e at h))
        (filled-other i (is_other i.type "text" "image_url" y refl))
  | inr e ↦ elim (Bool-cases (i.type == "image_url")) [
    | inl f ↦
        counted i j (default_role i) s t
          (image-Added m i j s t i.image_url ((eq_iff i.type "image_url").0 f) (rw (e, f) at h))
          (filled-image i f)
    | inr f ↦ elim (Bool-cases (i.type == "video_url")) [
      | inl g ↦
          counted i j i s t
            (video-Added m i j s t i.video_url ((eq_iff i.type "video_url").0 g)
              (rw (e, f, g) at h))
            (filled-other i f)
      | inr g ↦ elim (Bool-cases (i.type == "audio_url")) [
        | inl k ↦
            counted i j i s t
              (audio-Added m i j s t i.audio_url ((eq_iff i.type "audio_url").0 k)
                (rw (e, f, g, k) at h))
              (filled-other i f)
        | inr k ↦ absurd (ground arith)
      ]
    ]
  ]
]
