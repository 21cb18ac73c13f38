-- ===== src/Store/Create/Steps.antt =====
-- The steps of Create that leave the tables of tasks and of keys alone.
use minimax_proxy.Store.Routes.{NewTask, InputSpoolFile, NewTaskStage}
use minimax_proxy.Base.{
  Bool, List, Result, String, [], and_then, ap, err, false, if◌then◌else◌, not, ok, refl, true, ◌*◌,
  ◌++◌, ◌∙◌, ◌∷◌, ◌≡◌,
}
use minimax_proxy.Protocol.Media.{Decoders}
use minimax_proxy.Store.Callbacks.{insert_callback}
use minimax_proxy.Store.Callbacks.Frame.{insert-Framed}
use minimax_proxy.Store.Create.{insert_details}
use minimax_proxy.Store.Db.{Db, Env, Error, M, now_unix}
use minimax_proxy.Store.Details.{
  breaks_spool_file, breaks_stage, insert_spool_file, insert_spool_files, insert_stage,
  insert_stages, is_invalid_stage, new_spool_file, new_stage, valid_spool_file, with_defaults,
}
use minimax_proxy.Store.NewTasks.{first_event, is_empty, is_incomplete_event, queued_event}
use minimax_proxy.Store.Tables.{CallbackDelivery}

abbrev pub Same : Db → Db → Type 0
Same s t = (t.tasks ≡ s.tasks) × (t.idempotency ≡ s.idempotency)

Same-then :
    (s : Db) (r : Db × Result Error (Unit {0})) (k : M (Unit {0}))
    → Same s r.0
    → ((u : Db) → Same u (k u).0)
    → Same s (and_then r (λ _. k)).0
Same-then s (u, ok a) k h f = ((f u).0 ∙ h.0, (f u).1 ∙ h.1)
Same-then s (u, err e) k h f = h

abbrev Keeps : M (Unit {0}) → Type 0
Keeps m = (s : Db) → Same s (m s).0

Same-if :
    (s : Db) (b : Bool) (x y : Db × Result Error (Unit {0}))
    → Same s x.0
    → Same s y.0
    → Same s (if b then x else y).0
Same-if s true x y h k = h
Same-if s false x y h k = k

insert_callback-Keeps : (d : CallbackDelivery) → Keeps (insert_callback d)
insert_callback-Keeps d s =
    let framed = insert-Framed d s in
    (ap (λ (u : Db). u.tasks) framed.rest, ap (λ (u : Db). u.idempotency) framed.rest)

first_event-Keeps : (env : Env) (t : NewTask) → Keeps (first_event env t)
unfolding first_event
first_event-Keeps env t s =
    let inserted = insert_callback (queued_event env t) s in
    let refused : Db × Result Error (Unit {0}) = (s, err Error.incomplete_callback) in
    Same-if s (is_empty t.callback_url_ciphertext) (s, ok tt)
      (if is_incomplete_event t then refused else inserted) (refl, refl)
      (Same-if s (is_incomplete_event t) refused inserted (refl, refl)
        (insert_callback-Keeps (queued_event env t) s))

insert_stage-Keeps : (env : Env) (id : String) (x : NewTaskStage) → Keeps (insert_stage env id x)
unfolding insert_stage
insert_stage-Keeps env id x s =
    let done : Db × Result Error (Unit {0}) =
      (record s { stages = s.stages ++ new_stage id (now_unix env * 1000) x ∷ [] }, ok tt) in
    let broken : Db × Result Error (Unit {0}) = (s, err Error.constraint) in
    Same-if s (is_invalid_stage x) (s, err Error.invalid_stage)
      (if breaks_stage env id x s then broken else done) (refl, refl)
      (Same-if s (breaks_stage env id x s) broken done (refl, refl) (refl, refl))

insert_stages-Keeps :
    (env : Env) (id : String) (xs : List NewTaskStage) → Keeps (insert_stages env id xs)
unfolding insert_stages
insert_stages-Keeps env id [] s = (refl, refl)
insert_stages-Keeps env id (x ∷ xs) s =
    Same-then s (insert_stage env id x s) (insert_stages env id xs) (insert_stage-Keeps env id x s)
      (insert_stages-Keeps env id xs)

insert_spool_file-Keeps :
    (m : Decoders) (env : Env) (f : InputSpoolFile) → Keeps (insert_spool_file m env f)
unfolding insert_spool_file
insert_spool_file-Keeps m env f s =
    let done : Db × Result Error (Unit {0}) = (
      record s { spool_files = s.spool_files ++ new_spool_file (now_unix env * 1000) f ∷ [] },
      ok tt,
    ) in
    let broken : Db × Result Error (Unit {0}) = (s, err Error.constraint) in
    Same-if s (not (valid_spool_file m f)) (s, err Error.invalid_spool_file)
      (if breaks_spool_file f s then broken else done) (refl, refl)
      (Same-if s (breaks_spool_file f s) broken done (refl, refl) (refl, refl))

insert_spool_files-Keeps :
    (m : Decoders) (env : Env) (id : String) (fs : List InputSpoolFile)
    → Keeps (insert_spool_files m env id fs)
unfolding insert_spool_files
insert_spool_files-Keeps m env id [] s = (refl, refl)
insert_spool_files-Keeps m env id (f ∷ fs) s =
    Same-then s (insert_spool_file m env (with_defaults id f) s) (insert_spool_files m env id fs)
      (insert_spool_file-Keeps m env (with_defaults id f) s) (insert_spool_files-Keeps m env id fs)

pub insert_details-Keeps : (m : Decoders) (env : Env) (t : NewTask) → Keeps (insert_details m env t)
unfolding insert_details
insert_details-Keeps m env t s =
    Same-then s (first_event env t s) _ (first_event-Keeps env t s) (λ u.
      Same-then u (insert_stages env t.task_id t.stages u)
        (insert_spool_files m env t.task_id t.input_spool_files)
        (insert_stages-Keeps env t.task_id t.stages u)
        (insert_spool_files-Keeps m env t.task_id t.input_spool_files))
