-- ===== src/Store/Callbacks/Laws.antt =====
-- The deliveries of callback_store.go: their leases and their settled states.
use minimax_proxy.Base.{
  ℕ, ◌<◌, String, ◌≡◌, ◌≢◌, refl, sym, ◌∙◌, ap, subst, inl, inr, Bool, true, false, ◌==◌, ◌&&◌,
  string_eq, nat_eq, List, [], ◌∷◌, ◌++◌, Option, none, some, ok, arith, eq_iff, if◌then◌else◌,
  null_or_leb, count_where, update_where, All, In, All-In, In-update, unique_row, least_where-In,
  least_where_holds, Bool-cases, settle, ok_inj, ok≢err,
}
use minimax_proxy.Store.Tables.{Task, CallbackDelivery, DeliveryStatus, sending}
use minimax_proxy.Store.Db.{Db}
use minimax_proxy.Store.Callbacks.{
  insert_callback, breaks_constraint, is_open_status, is_sending, is_claimable, before,
  ClaimedDelivery, with_target, target_of, lease_row, may_lease, lease_delivery, select_delivery,
  claim_callback_delivery, finish_delivery,
}
use minimax_proxy.Store.Barriers.{later}

-- Every settled delivery (succeeded or failed) of the first table stands unchanged in the second.
abbrev pub KeepsSettled : List CallbackDelivery → List CallbackDelivery → Type 0
KeepsSettled [] es = Unit
KeepsSettled (d ∷ ds) [] = ⊥
KeepsSettled (d ∷ ds) (e ∷ es) = (is_open_status d.status ≡ false → e ≡ d) × KeepsSettled ds es

pub KeepsSettled-refl : (ds : List CallbackDelivery) → KeepsSettled ds ds
KeepsSettled-refl [] = tt
KeepsSettled-refl (d ∷ ds) = ((λ _. refl), KeepsSettled-refl ds)

KeepsSettled-update :
    (p : CallbackDelivery → Bool) (f : CallbackDelivery → CallbackDelivery)
    (all ds : List CallbackDelivery)
    → ((d : CallbackDelivery) → In d all → p d ≡ true → is_open_status d.status ≡ true)
    → ((d : CallbackDelivery) → In d ds → In d all)
    → KeepsSettled ds (update_where p f ds)
KeepsSettled-update p f all [] h i = tt
KeepsSettled-update p f all (d ∷ ds) h i = (
  (λ closed. elim (Bool-cases (p d)) [
    | inl e ↦ let open_ = h d (i d (inl refl)) e in absurd (cc)
    | inr e ↦ rw e
  ]),
  KeepsSettled-update p f all ds h (λ e m. i e (inr m)),
)

KeepsSettled-append : (ds es : List CallbackDelivery) → KeepsSettled ds (ds ++ es)
KeepsSettled-append [] es = tt
KeepsSettled-append (d ∷ ds) es = ((λ _. refl), KeepsSettled-append ds es)

pub sending→open : (s : DeliveryStatus) → is_sending s ≡ true → is_open_status s ≡ true
sending→open sending h = refl
sending→open _ h = absurd (cc)

pub finish_delivery-KeepsSettled :
    (id : String) (f : CallbackDelivery → CallbackDelivery) (db : Db)
    → KeepsSettled db.callbacks (finish_delivery id f db).0.callbacks
unfolding finish_delivery
finish_delivery-KeepsSettled id f db =
    let p = λ (d : CallbackDelivery). d.id == id && is_sending d.status in
    let kept =
      KeepsSettled-update p f db.callbacks db.callbacks
        (λ d m e. sending→open d.status (ground arith)) (λ d m. m) in
    elim (Bool-cases (count_where p db.callbacks == 1)) [ inl e ↦ rw e kept | inr e ↦ rw e kept ]

with_target-delivery :
    (tasks : List Task) (d : CallbackDelivery) (c : ClaimedDelivery)
    → with_target tasks d ≡ some c
    → c.delivery ≡ d
with_target-delivery tasks d c h = ground arith

target_of-some :
    (tasks : List Task) (o : Option CallbackDelivery) (c : ClaimedDelivery)
    → target_of tasks o ≡ some c
    → o ≡ some c.delivery
target_of-some tasks none c h = absurd (cc)
target_of-some tasks (some d) c h = ap some (sym (with_target-delivery tasks d c h))

-- What the SELECT of the claim says of the delivery that it returns.
pub select_delivery_lem :
    (now : ℕ) (db : Db) (c : ClaimedDelivery)
    → select_delivery now db ≡ some c
    → In c.delivery db.callbacks × (is_claimable db.tasks now c.delivery ≡ true)
select_delivery_lem now db c h =
    let e = target_of-some db.tasks _ c h in
    (
      least_where-In before (is_claimable db.tasks now) db.callbacks c.delivery e,
      least_where_holds before (is_claimable db.tasks now) db.callbacks c.delivery e,
    )

-- What a successful claim has done.
abbrev leased : ℕ → ℕ → ClaimedDelivery → Db → Db
leased now lease_until c db = record db {
  callbacks = update_where (may_lease c.delivery.id now) (lease_row now lease_until) db.callbacks;
}

pub record Claimed (now lease_until : ℕ) (db db' : Db) (c : ClaimedDelivery) : Type 0 where
  pub selected : select_delivery now db ≡ some c
  pub only : count_where (may_lease c.delivery.id now) db.callbacks ≡ 1
  pub result : db' ≡ leased now lease_until c db

lease-Claimed :
    (now lease_until : ℕ) (o : Option ClaimedDelivery) (db db' : Db) (c : ClaimedDelivery)
    → select_delivery now db ≡ o
    → settle db (lease_delivery now lease_until o db) ≡ (db', ok c)
    → Claimed now lease_until db db' c
unfolding lease_delivery
lease-Claimed now lease_until none db db' c s h = absurd (ok≢err h)
lease-Claimed now lease_until (some b) db db' c s h =
    elim (Bool-cases (count_where (may_lease b.delivery.id now) db.callbacks == 1)) [
      | inl e ↦
          let (same_db, same_c) = ok_inj (rw e at h) in
          subst (Claimed now lease_until db db') same_c
            (record { selected = s; only = ground arith; result = sym same_db })
      | inr e ↦ absurd (ok≢err (rw e at h))
    ]

pub claim-Claimed :
    (now lease_until : ℕ) (db db' : Db) (c : ClaimedDelivery)
    → claim_callback_delivery now lease_until db ≡ (db', ok c)
    → Claimed now lease_until db db' c
unfolding claim_callback_delivery
claim-Claimed now lease_until db db' c h =
    lease-Claimed now lease_until (select_delivery now db) db db' c refl h

pub claimable→open :
    (tasks : List Task) (now : ℕ) (d : CallbackDelivery)
    → is_claimable tasks now d ≡ true
    → (is_open_status d.status ≡ true) × (null_or_leb d.lease_expires_at now ≡ true)
claimable→open tasks now d h = ground arith

-- The update of a claim that found one row touches the selected delivery alone.
pub may_lease→selected :
    (now : ℕ) (db : Db) (c : ClaimedDelivery)
    → select_delivery now db ≡ some c
    → count_where (may_lease c.delivery.id now) db.callbacks ≡ 1
    → (d : CallbackDelivery) → In d db.callbacks
    → may_lease c.delivery.id now d ≡ true
    → d ≡ c.delivery
may_lease→selected now db c s one d m e =
    let (there, claimable) = select_delivery_lem now db c s in
    let free = (claimable→open db.tasks now c.delivery claimable).1 in
    unique_row (may_lease c.delivery.id now) db.callbacks c.delivery d one there
      (ground (arith, eq_iff c.delivery.id c.delivery.id)) m e

claim_option-KeepsSettled :
    (now lease_until : ℕ) (db : Db) (o : Option ClaimedDelivery)
    → select_delivery now db ≡ o
    → KeepsSettled db.callbacks (settle db (lease_delivery now lease_until o db)).0.callbacks
unfolding lease_delivery
claim_option-KeepsSettled now lease_until db none s = KeepsSettled-refl db.callbacks
claim_option-KeepsSettled now lease_until db (some c) s =
    elim (Bool-cases (count_where (may_lease c.delivery.id now) db.callbacks == 1)) [
      | inr e ↦ rw e (KeepsSettled-refl db.callbacks)
      | inl e ↦ rw e (
          KeepsSettled-update (may_lease c.delivery.id now) (lease_row now lease_until) db.callbacks
            db.callbacks
            (λ d m k.
              rw (may_lease→selected now db c s (ground arith) d m k)
                (claimable→open db.tasks now c.delivery (select_delivery_lem now db c s).1).0)
            (λ d m. m))
    ]

pub claim-KeepsSettled :
    (now lease_until : ℕ) (db : Db)
    → KeepsSettled db.callbacks (claim_callback_delivery now lease_until db).0.callbacks
unfolding claim_callback_delivery
claim-KeepsSettled now lease_until db =
    claim_option-KeepsSettled now lease_until db (select_delivery now db) refl

pub insert-KeepsSettled :
    (d : CallbackDelivery) (db : Db) → KeepsSettled db.callbacks (insert_callback d db).0.callbacks
unfolding insert_callback
insert-KeepsSettled d db = elim (Bool-cases (breaks_constraint d db)) [
  | inl e ↦ rw e (KeepsSettled-refl db.callbacks)
  | inr e ↦ rw e (KeepsSettled-append db.callbacks (d ∷ []))
]

-- The identifiers are distinct, as the primary key has it.
abbrev pub HasDistinctIds : List CallbackDelivery → Type 0
HasDistinctIds [] = Unit
HasDistinctIds (d ∷ ds) = All (λ (e : CallbackDelivery). d.id ≢ e.id) ds × HasDistinctIds ds

same_id→same :
    (ds : List CallbackDelivery) (d e : CallbackDelivery)
    → HasDistinctIds ds
    → In d ds
    → In e ds
    → d.id ≡ e.id
    → d ≡ e
same_id→same [] d e u m n h = absurd m
same_id→same (x ∷ ds) d e u (inl a) (inl b) h = sym a ∙ b
same_id→same (x ∷ ds) d e u (inl a) (inr n) h = absurd (
    All-In (λ (y : CallbackDelivery). x.id ≢ y.id) ds e u.0 n
      (ap (λ (y : CallbackDelivery). y.id) a ∙ h))
same_id→same (x ∷ ds) d e u (inr m) (inl b) h = absurd (
    All-In (λ (y : CallbackDelivery). x.id ≢ y.id) ds d u.0 m
      (ap (λ (y : CallbackDelivery). y.id) b ∙ sym h))
same_id→same (x ∷ ds) d e u (inr m) (inr n) h = same_id→same ds d e u.1 m n h

leased_row :
    (now lease_until later : ℕ) (c : ClaimedDelivery) (d e : CallbackDelivery)
    → later < lease_until
    → (if may_lease c.delivery.id now d then lease_row now lease_until d else d) ≡ e
    → null_or_leb e.lease_expires_at later ≡ true
    → may_lease c.delivery.id now d ≡ true
    → ⊥
leased_row now lease_until later c d e l h free m = ground arith

updated-id :
    (now lease_until : ℕ) (id : String) (d e : CallbackDelivery)
    → (if may_lease id now d then lease_row now lease_until d else d) ≡ e
    → d.id ≡ e.id
updated-id now lease_until id d e h = ground arith

-- Until its lease has run out, no second claim returns a delivery that a worker has claimed.
pub claim_exclusive :
    (now lease_until later later_until : ℕ) (db db' db'' : Db) (c c' : ClaimedDelivery)
    → HasDistinctIds db.callbacks
    → later < lease_until
    → claim_callback_delivery now lease_until db ≡ (db', ok c)
    → claim_callback_delivery later later_until db' ≡ (db'', ok c')
    → c'.delivery.id ≢ c.delivery.id
claim_exclusive now lease_until later later_until db db' db'' c c' distinct l h h' same =
    let first = claim-Claimed now lease_until db db' c h in
    let second = claim-Claimed later later_until db' db'' c' h' in
    let (there, claimable) = select_delivery_lem now db c first.selected in
    let (there', claimable') = select_delivery_lem later db' c' second.selected in
    let (d, m, e) =
      In-update (may_lease c.delivery.id now) (lease_row now lease_until) db.callbacks c'.delivery
        (subst (λ (s : Db). In c'.delivery s.callbacks) first.result there') in
    let is_c =
      same_id→same db.callbacks d c.delivery distinct m there
        (updated-id now lease_until c.delivery.id d c'.delivery e ∙ same) in
    leased_row now lease_until later c d c'.delivery l e
      (claimable→open db'.tasks later c'.delivery claimable').1
      (rw is_c (
        ground (
          arith,
          eq_iff c.delivery.id c.delivery.id,
          claimable→open db.tasks now c.delivery claimable,
        )))
