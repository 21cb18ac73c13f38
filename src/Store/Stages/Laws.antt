-- ===== src/Store/Stages/Laws.antt =====
-- What the operations of stage_store.go leave behind when they fail half-way.
use minimax_proxy.Store.Db.{Db, Env, state_conflict}
use minimax_proxy.Base.{
  err, String, any, count_where, false, ◌&&◌, ◌≡◌, update_where, update_where_none,
}
use minimax_proxy.Store.Stages.{
  bind_attempt, bind_stage, bind_stage_execution, execution_taken, is_leased, leased_by, binds,
  bound_row, bound_stage,
}

-- `BindStageExecution` by a worker whose lease on the stage is lost returns a state conflict, and yet
-- the attempt that it names is bound to the execution and runs from then on: the transaction commits.
pub bind_stage_execution-half :
    (env : Env) (stage_id lease_token attempt_id execution_id : String) (db : Db)
    → count_where (binds stage_id attempt_id execution_id) db.attempts ≡ 1
    → any
        (λ a.
          binds stage_id attempt_id execution_id a
          && execution_taken attempt_id execution_id a db.attempts)
        db.attempts
      ≡ false
    → count_where (leased_by stage_id lease_token is_leased) db.stages ≡ 0
    → bind_stage_execution env stage_id lease_token attempt_id execution_id db ≡ (
      record db {
        attempts =
            update_where
              (binds stage_id attempt_id execution_id)
              (bound_row env execution_id)
              db.attempts;
      },
      err state_conflict,
    )
unfolding bind_stage_execution bind_attempt bind_stage
bind_stage_execution-half env stage_id lease_token attempt_id execution_id db one free lost = rw (
  free,
  one,
  lost,
  update_where_none (leased_by stage_id lease_token is_leased) (bound_stage env) db.stages lost,
)
