-- ===== src/Callback/Attempts.antt =====
-- The number of attempts at a delivery.
use minimax_proxy.Store.Tables.{CallbackDelivery}
use minimax_proxy.Store.Db.{Db, Env, Error}
use minimax_proxy.Base.{
  ok, err, All, All-In, All-update, Bool-cases, String, arith, count_where, inl, inr, ltb, true, ℕ,
  ◌&&◌, ◌+◌, ◌<◌, ◌==◌, ◌≡◌, ◌≤◌, string_eq, nat_eq, Result, and_then, ok≢err, refl, ok_inj,
  settle_err, subst,
}
use minimax_proxy.Callback.{
  DeliveryResult, Worker, attempt_limit, settle_delivery, lease_of, milliseconds, process_claim,
  process_one,
}
use minimax_proxy.Store.Callbacks.{
  ClaimedDelivery, finish_delivery, is_open_status, is_sending, mark_callback_failed,
  mark_callback_succeeded, schedule_callback_retry, claim_callback_delivery, lease_row, may_lease,
  lease_delivery, select_delivery,
}
use minimax_proxy.Store.Callbacks.Laws.{
  Claimed, claimable→open, may_lease→selected, select_delivery_lem, claim-Claimed, sending→open,
}

-- At most `limit` attempts, and fewer while another one may follow.
abbrev pub Within : ℕ → CallbackDelivery → Type 0
Within limit d =
    (d.attempt_count ≤ limit) × (is_open_status d.status ≡ true → d.attempt_count < limit)

abbrev pub AllWithin : ℕ → Db → Type 0
AllWithin limit db = All (Within limit) db.callbacks

finish-AllWithin :
    (limit : ℕ) (id : String) (f : CallbackDelivery → CallbackDelivery) (db : Db)
    → ((d : CallbackDelivery)
        → Within limit d
        → is_open_status d.status ≡ true
        → Within limit (f d))
    → AllWithin limit db
    → AllWithin limit (finish_delivery id f db).0
unfolding finish_delivery
finish-AllWithin limit id f db h a =
    let p = λ (d : CallbackDelivery). d.id == id && is_sending d.status in
    let kept =
      All-update (Within limit) p f db.callbacks
        (λ d m e w. h d w (sending→open d.status (ground arith))) a in
    elim (Bool-cases (count_where p db.callbacks == 1)) [ inl e ↦ rw e kept | inr e ↦ rw e kept ]

settle_delivery-AllWithin :
    (env : Env) (w : Worker) (now : ℕ) (c : ClaimedDelivery) (r : DeliveryResult) (db : Db)
    → c.delivery.attempt_count < attempt_limit w
    → AllWithin (attempt_limit w) db
    → AllWithin (attempt_limit w) (settle_delivery env w now c r db).0
unfolding settle_delivery mark_callback_succeeded schedule_callback_retry mark_callback_failed
settle_delivery-AllWithin env w now c r db l a = elim (Bool-cases r.success) [
  | inl e ↦ rw e (
      finish-AllWithin (attempt_limit w) c.delivery.id _ db
        (λ d k o. let more = k.1 o in (omega arith, λ z. absurd (cc))) a)
  | inr e ↦
      elim (Bool-cases (r.retryable && ltb (c.delivery.attempt_count + 1) (attempt_limit w))) [
        | inl k ↦
            rw (e, k)
              (finish-AllWithin (attempt_limit w) c.delivery.id _ db
                (λ d x o. (ground (arith, k), λ z. ground (arith, k))) a)
        | inr k ↦
            rw (e, k)
              (finish-AllWithin (attempt_limit w) c.delivery.id _ db
                (λ d x o. (omega arith, λ z. absurd (cc))) a)
      ]
]

claim-AllWithin :
    (limit now lease_until : ℕ) (db db' : Db) (c : ClaimedDelivery)
    → Claimed now lease_until db db' c
    → AllWithin limit db
    → (c.delivery.attempt_count < limit) × AllWithin limit db'
claim-AllWithin limit now lease_until db db' c k a =
    let (there, claimable) = select_delivery_lem now db c k.selected in
    let open_ = (claimable→open db.tasks now c.delivery claimable).0 in
    let few = (All-In (Within limit) db.callbacks c.delivery a there).1 open_ in
    (
      few,
      rw k.result (
          All-update (Within limit) (may_lease c.delivery.id now) (lease_row now lease_until)
            db.callbacks
            (λ d m e w.
              let same = may_lease→selected now db c k.selected k.only d m e in
              let less : d.attempt_count < limit = rw same few in (omega arith, λ z. less))
            a),
    )

claim_rolls_back :
    (now lease_until : ℕ) (db db' : Db) (x : Error)
    → claim_callback_delivery now lease_until db ≡ (db', err x)
    → db' ≡ db
unfolding claim_callback_delivery
claim_rolls_back now lease_until db db' x h =
    settle_err db db' (lease_delivery now lease_until (select_delivery now db) db) x h

process-AllWithin :
    (env : Env) (w : Worker) (deliver : ClaimedDelivery → DeliveryResult) (now : ℕ) (db : Db)
    (r : Db × Result Error ClaimedDelivery)
    → ((c : ClaimedDelivery) → r ≡ (r.0, ok c) → c.delivery.attempt_count < attempt_limit w)
    → AllWithin (attempt_limit w) r.0
    → AllWithin (attempt_limit w) (process_claim env w deliver now r).0
process-AllWithin env w deliver now db (s, err e) h a = elim (Bool-cases (w.is_empty e)) [
  | inl k ↦ rw k a
  | inr k ↦ rw k a
]
process-AllWithin env w deliver now db (s, ok c) h a =
    after (settle_delivery env w now c (deliver c) s)
      (settle_delivery-AllWithin env w now c (deliver c) s (h c refl) a)
  where
    after :
        (q : Db × Result Error (Unit {0}))
        → AllWithin (attempt_limit w) q.0
        → AllWithin (attempt_limit w) (and_then q (λ _ z. (z, ok true))).0
    after (z, ok u) b = b
    after (z, err x) b = b

-- Whatever the receiver answers, no delivery is attempted more often than the worker's limit, and
-- one that may be attempted again has been attempted less often.
pub process_one-AllWithin :
    (env : Env) (w : Worker) (deliver : ClaimedDelivery → DeliveryResult) (now : ℕ) (db : Db)
    → AllWithin (attempt_limit w) db
    → AllWithin (attempt_limit w) (process_one env w deliver now db).0
unfolding process_one
process_one-AllWithin env w deliver now db a =
    go (claim_callback_delivery (milliseconds now) (milliseconds (now + lease_of w)) db) refl
  where
    go :
        (r : Db × Result Error ClaimedDelivery)
        → claim_callback_delivery (milliseconds now) (milliseconds (now + lease_of w)) db ≡ r
        → AllWithin (attempt_limit w) (process_claim env w deliver now r).0
    go (s, ok c) e =
        let k = claim-AllWithin (attempt_limit w) _ _ db s c (claim-Claimed _ _ db s c e) a in
        process-AllWithin env w deliver now db (s, ok c)
          (λ d same.
            subst (λ (x : ClaimedDelivery). x.delivery.attempt_count < attempt_limit w)
              (ok_inj same).1 k.0)
          k.1
    go (s, err x) e =
        process-AllWithin env w deliver now db (s, err x) (λ d same. absurd (ok≢err same))
          (rw (claim_rolls_back _ _ db s x e) a)
