-- ===== src/Store/Callbacks/Frame.antt =====
-- What an event changes: the table callback_deliveries.
use minimax_proxy.Store.Tables.{Task, CallbackDelivery}
use minimax_proxy.Store.Db.{Db, Env, Error}
use minimax_proxy.Base.{
  err, Bool-cases, List, Option, Result, String, [], any, inl, inr, is_some, none, not, refl, some,
  ℕ, ◌++◌, ◌∷◌, ◌≡◌,
}
use minimax_proxy.Store.Callbacks.{
  breaks_constraint, create_callback_delivery_with_conn, deliver_event, find_task, insert_callback,
  same_event,
}

-- The two databases differ in the deliveries only.
pub record Framed (db db' : Db) : Type 0 where
  pub deliveries : List CallbackDelivery
  pub rest : db' ≡ record db { callbacks = deliveries }

pub Framed-refl : (db : Db) → Framed db db
Framed-refl db = record { deliveries = db.callbacks; rest = refl }

pub insert-Framed : (d : CallbackDelivery) (db : Db) → Framed db (insert_callback d db).0
unfolding insert_callback
insert-Framed d db = elim (Bool-cases (breaks_constraint d db)) [
  | inl e ↦ rw e (Framed-refl db)
  | inr e ↦ rw e (record { deliveries = db.callbacks ++ d ∷ []; rest = refl })
]

deliver-Framed :
    (env : Env) (id status : String) (now : ℕ) (t : Task) (db : Db)
    → Framed db (deliver_event env id status now t db).0
unfolding deliver_event
deliver-Framed env id status now t db =
    elim (Bool-cases (not (is_some t.callback_url_ciphertext))) [
      | inl e ↦ rw e (Framed-refl db)
      | inr e ↦ rw e (elim (Bool-cases (any (same_event id t.version) db.callbacks)) [
        | inl k ↦ rw k (Framed-refl db)
        | inr k ↦ rw k (insert-Framed _ db)
      ])
    ]

pub event-Framed :
    (env : Env) (id status : String) (now : ℕ) (db : Db)
    → Framed db (create_callback_delivery_with_conn env id status now db).0
unfolding create_callback_delivery_with_conn
event-Framed env id status now db = go (find_task id db.tasks)
  where
    go :
        (o : Option Task)
        → Framed db
            (elim o as (λ _. Db × Result Error (Unit {0})) [
              | none ↦ (db, err Error.no_rows)
              | some t ↦ deliver_event env id status now t db
            ]).0
    go none = Framed-refl db
    go (some t) = deliver-Framed env id status now t db
