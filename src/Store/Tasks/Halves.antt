-- ===== src/Store/Tasks/Halves.antt =====
-- `MarkFailed` of store.go when its event cannot be recorded.
use minimax_proxy.Store.Db.{Db, Env, Error, now_unix}
use minimax_proxy.Base.{err, String, ap, count_where, update_where, ◌*◌, ◌≡◌, List}
use minimax_proxy.Store.Callbacks.{create_callback_delivery_with_conn}
use minimax_proxy.Store.Callbacks.Frame.{event-Framed}
use minimax_proxy.Store.Tasks.{failed_row, held_by, is_executing, mark_failed}
use minimax_proxy.Store.Tables.{Task}

-- The tasks once the update of `MarkFailed` is made.
abbrev pub failed_tasks : Env → String → String → String → String → List Task → List Task
failed_tasks env task_id upstream_id code message tasks =
    update_where (held_by task_id upstream_id is_executing) (failed_row env code message) tasks

-- Where `MarkFailed` finds its task and the event cannot be recorded, it returns the error of the
-- event, and yet the task is failed in the database that it leaves: the transaction commits.
pub mark_failed-half :
    (env : Env) (task_id upstream_id code message : String) (x : Error) (db : Db)
    → count_where (held_by task_id upstream_id is_executing) db.tasks ≡ 1
    → (create_callback_delivery_with_conn env task_id "failed"
        (now_unix env * 1000)
        (record db { tasks = failed_tasks env task_id upstream_id code message db.tasks })).1
      ≡ err x
    → ((mark_failed env task_id upstream_id code message db).1 ≡ err x)
      × ((mark_failed env task_id upstream_id code message db).0.tasks
          ≡ failed_tasks env task_id upstream_id code message db.tasks)
unfolding mark_failed
mark_failed-half env task_id upstream_id code message x db one lost =
    let f =
      event-Framed env task_id "failed" (now_unix env * 1000)
        (record db { tasks = failed_tasks env task_id upstream_id code message db.tasks }) in
    rw one (lost, ap (λ (s : Db). s.tasks) f.rest)
