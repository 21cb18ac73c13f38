-- ===== src/Protocol/Tk2sd/Stable.antt =====
-- The loop of normalizeTK2SD runs on the items that it leaves as it ran before.
use Prim.Native.String.{◌++◌ as str_append}
use minimax_proxy.Protocol.Media.{Decoders}
use minimax_proxy.Protocol.H3.Stable.{in_front_ok}
use minimax_proxy.Protocol.H3.Items.{is_other}
use minimax_proxy.Protocol.Tk2sd.{
  take_items, take_item, take_text, take_media, take_by_type, take_image, take_video, take_audio,
  fill_role, Tally, is_media, is_node_reference,
}
use minimax_proxy.Domain.Request.{GenerationContent, media}
use minimax_proxy.Base.{
  String, Bool, Bool-cases, Option, arith, eq_iff, false, inl, inr, none, ok, refl, some, true, ℕ,
  ◌&&◌, ◌==◌, ◌≡◌, string_eq, nat_eq, List, [], after_ok, ap, count_where, length, not, subst, sym,
  trim_suffix, ◌∙◌, ◌∷◌,
}
use minimax_proxy.Domain.Status.Laws.{same}

take_text_kept : (i j : GenerationContent) (s t : Tally) → take_text i s ≡ ok (j, t) → j ≡ i
unfolding take_text
take_text_kept i j s t h = ground arith

-- A media item is taken as it is, and only with a role.
abbrev Kept : GenerationContent → GenerationContent → Type 0
Kept i j = (j ≡ i) × ((i.role == "") ≡ false)

has_role :
    (i : GenerationContent) (a : String)
    → (i.role == a) ≡ true
    → (a == "") ≡ false
    → (i.role == "") ≡ false
has_role i a e f = is_other i.role a "" ((eq_iff i.role a).0 e) f

image-Kept :
    (m : Decoders) (i j : GenerationContent) (s t : Tally) (url : String)
    → take_image m i s url ≡ ok (j, t)
    → Kept i j
unfolding take_image
image-Kept m i j s t url h = elim (Bool-cases (i.role == "first_frame")) [
  | inl e ↦ (ground arith, has_role i "first_frame" e refl)
  | inr e ↦ elim (Bool-cases (i.role == "reference_image")) [
    | inl f ↦ (ground arith, has_role i "reference_image" f refl)
    | inr f ↦ absurd (ground arith)
  ]
]

video-Kept :
    (m : Decoders) (i j : GenerationContent) (s t : Tally) (url : String)
    → take_video m i s url ≡ ok (j, t)
    → Kept i j
unfolding take_video
video-Kept m i j s t url h = (ground arith, has_role i "reference_video" (ground arith) refl)

audio-Kept :
    (m : Decoders) (i j : GenerationContent) (s t : Tally) (url : String)
    → take_audio m i s url ≡ ok (j, t)
    → Kept i j
unfolding take_audio
audio-Kept m i j s t url h = (ground arith, has_role i "reference_audio" (ground arith) refl)

take_by_type-Kept :
    (m : Decoders) (i j : GenerationContent) (s t : Tally) (url : String)
    → take_by_type m i s url ≡ ok (j, t)
    → Kept i j
unfolding take_by_type
take_by_type-Kept m i j s t url h = elim (Bool-cases (i.type == "image_url")) [
  | inl e ↦ image-Kept m i j s t url (rw e at h)
  | inr e ↦ elim (Bool-cases (i.type == "video_url")) [
    | inl f ↦ video-Kept m i j s t url (rw (e, f) at h)
    | inr f ↦ elim (Bool-cases (i.type == "audio_url")) [
      | inl g ↦ audio-Kept m i j s t url (rw (e, f, g) at h)
      | inr g ↦ absurd (ground arith)
    ]
  ]
]

-- `fill_role` writes the role only, and only where there is none.
fill_role_cases :
    (b : Bool) (n : ℕ) (i : GenerationContent)
    → (role : String) × (fill_role b n i ≡ record i { role = role })
unfolding fill_role
fill_role_cases b n i = elim (Bool-cases (i.role == "")) [
  | inl e ↦ elim (Bool-cases (i.type == "image_url" && (n == 1 && b))) [
    | inl f ↦ ("first_frame", rw (e, f) refl)
    | inr f ↦ (str_append "reference_" (trim_suffix i.type "_url"), rw (e, f) refl)
  ]
  | inr e ↦ (i.role, rw e refl)
]

fill_role_kept :
    (b : Bool) (n : ℕ) (i : GenerationContent) → (i.role == "") ≡ false → fill_role b n i ≡ i
unfolding fill_role
fill_role_kept b n i e = rw e refl

-- What a media item was taken for.
take_media_ok :
    (m : Decoders) (b : Bool) (n : ℕ) (i j : GenerationContent) (s t : Tally) (url : String)
    → take_media m b n i s (some url) ≡ ok (j, t)
    → ((i.text == "") ≡ true)
      × (is_node_reference url ≡ false)
      × (take_by_type m (fill_role b n i) s url ≡ ok (j, t))
unfolding take_media
take_media_ok m b n i j s t url h = (ground arith, ground arith, ground arith)

abbrev SameBut : GenerationContent → GenerationContent → Type 0
SameBut i j = (role : String) × (j ≡ record i { role = role })

take_media_again :
    (m : Decoders) (b : Bool) (n : ℕ) (i j : GenerationContent) (s t : Tally) (o : Option String)
    → take_media m b n i s o ≡ ok (j, t)
    → (take_media m b n j s o ≡ ok (j, t)) × SameBut i j
unfolding take_media
take_media_again m b n i j s t none h = absurd (cc)
take_media_again m b n i j s t (some url) h =
    let (e, f, k) = take_media_ok m b n i j s t url h in
    let (same, role) = take_by_type-Kept m (fill_role b n i) j s t url k in
    let (ρ, x) = fill_role_cases b n i in
    let y : j ≡ record i { role = ρ } = same ∙ x in
    let text : (j.text == "") ≡ true = ap (λ z. z.text == "") y ∙ e in
    let again : fill_role b n j ≡ fill_role b n i =
      fill_role_kept b n j (ap (λ z. z.role == "") same ∙ role) ∙ same in
    (rw (text, f, again) k, (ρ, y))

-- The item that the loop leaves is taken again, and its type is the item's.
take_item_again :
    (m : Decoders) (b : Bool) (n : ℕ) (i j : GenerationContent) (s t : Tally)
    → take_item m b n i s ≡ ok (j, t)
    → (take_item m b n j s ≡ ok (j, t)) × (j.type ≡ i.type)
unfolding take_item
take_item_again m b n i j s t h = elim (Bool-cases (i.type == "text")) [
  | inl e ↦
      let k = take_text_kept i j s t (rw e at h) in
      (subst (λ z. take_item m b n z s ≡ ok (j, t)) (sym k) h, ap (λ z. z.type) k)
  | inr e ↦
      let (again, (ρ, y)) = take_media_again m b n i j s t (media i) (rw e at h) in
      let type : (j.type == "text") ≡ false = ap (λ z. z.type == "text") y ∙ e in
      let same : media j ≡ media i = ap media y in (rw (type, same) again, ap (λ z. z.type) y)
]

-- A run of the loop that ends well: its first step and the rest.
take_items-cons :
    (m : Decoders) (b : Bool) (n : ℕ) (i : GenerationContent) (items done : List GenerationContent)
    (s t : Tally)
    → take_items m b n (i ∷ items) s ≡ ok (done, t)
    → (j : GenerationContent) × (u : Tally) × (rest : List GenerationContent) × (take_item m b n i s
        ≡ ok (j, u))
      × (take_items m b n items u ≡ ok (rest, t))
      × (done ≡ j ∷ rest)
unfolding take_items
take_items-cons m b n i items done s t h =
    let ((j, u), e, k) = after_ok (take_item m b n i s) _ (done, t) h in
    let (rest, f, g) = in_front_ok j (take_items m b n items u) done t k in (j, u, rest, e, f, g)

-- The counts of items that the checks in front of the loop and behind it read.
abbrev SameCounts : List GenerationContent → List GenerationContent → Type 0
SameCounts items done =
    (length done ≡ length items) × (count_where is_media done ≡ count_where is_media items)

SameCounts-cons :
    (i j : GenerationContent) (items rest : List GenerationContent)
    → j.type ≡ i.type
    → SameCounts items rest
    → SameCounts (i ∷ items) (j ∷ rest)
SameCounts-cons i j items rest e h =
    let f : is_media j ≡ is_media i = ap (λ z. not (z == "text")) e in (ground arith, ground arith)

pub take_items_again :
    (m : Decoders) (b : Bool) (n : ℕ) (items done : List GenerationContent) (s t : Tally)
    → take_items m b n items s ≡ ok (done, t)
    → (take_items m b n done s ≡ ok (done, t))
      × (length done ≡ length items)
      × (count_where is_media done ≡ count_where is_media items)
unfolding take_items
take_items_again m b n [] done s t h =
    let e : done ≡ [] = cc in (rw e (rw e at h), rw e refl, rw e refl)
take_items_again m b n (i ∷ items) done s t h =
    let (j, u, rest, e, f, g) = take_items-cons m b n i items done s t h in
    let (step, type) = take_item_again m b n i j s u e in
    let (again, size, media_count) = take_items_again m b n items rest u t f in
    let (x, y) =
      subst (λ z. SameCounts (i ∷ items) z) (sym g)
        (SameCounts-cons i j items rest type (size, media_count)) in
    (rw (g, step, again) refl, x, y)
