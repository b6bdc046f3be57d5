-- ===== src/Job/Pools.antt =====
-- `pool_configure`, `pool_get`, `pool_list`, `job_pause` and `job_resume` of src/vanth/server.py. The
-- types of the arguments are those of the model, so that a negative cap and a name that is no text
-- cannot be given.
use vanth.Prelude.{
  ℕ, Bool, true, false, not, String, Option, none, some, List, [], ◌∷◌, ◌++◌, ◌==◌, ◌&&◌, same,
  same_as, if◌then◌else◌,
}
use vanth.Prelude.Rows.{find, update, count}
use vanth.Job.{JobStatus, Job, is_queued, is_active, with_id}
use vanth.Job.Launch.{Pool, JobDb, of_pool}

pub data PoolError : Type 0 where
  unknown_pool : PoolError
  unknown_job : PoolError
  not_queued : JobStatus → PoolError

pub data Result (A : Type 0) : Type 0 where
  ok : A → Result A
  err : PoolError → Result A

-- (1 if paused else 0) if paused is not None else existing["paused"]
abbrev pub or_else : Option Bool → Bool → Bool
or_else none b = b
or_else (some a) b = a

unfoldable pub pool_row : ℕ → Option Bool → ℕ → Pool → Pool
pool_row max_parallel paused now p = record p {
  max_parallel = max_parallel;
  paused = or_else paused p.paused;
  updated_at = now;
}

unfoldable pub write_pool : String → ℕ → Option Bool → ℕ → Option Pool → List Pool → List Pool
unfolding pool_row
write_pool name max_parallel paused now none pools =
    pools
    ++ record {
      pool = name;
      max_parallel = max_parallel;
      paused = or_else paused false;
      created_at = now;
      updated_at = now;
    }
      ∷ []
write_pool name max_parallel paused now (some p) pools =
    update (of_pool name) (pool_row max_parallel paused now) pools

unfoldable pub pool_found : Option Pool → Result Pool
pool_found none = err unknown_pool
pool_found (some p) = ok p

unfoldable pub pool_get : String → JobDb → Result Pool
unfolding pool_found
pool_get name db = pool_found (find (of_pool name) db.pools)

-- `name` is the name once it is validated, which is stripped.
unfoldable pub pool_configure : String → ℕ → Option Bool → ℕ → JobDb → Result Pool × JobDb
unfolding write_pool pool_get
pool_configure name max_parallel paused now db =
    let db₁ = record db {
      pools = write_pool name max_parallel paused now (find (of_pool name) db.pools) db.pools;
    } in
    (pool_get name db₁, db₁)

pub record PoolView : Type 0 where
  pub pool : String
  pub max_parallel : ℕ
  pub paused : Bool
  pub queued : ℕ
  pub running : ℕ
  pub updated_at : ℕ

unfoldable pub pool_view : List Job → Pool → PoolView
pool_view jobs p = record {
  pool = p.pool;
  max_parallel = p.max_parallel;
  paused = p.paused;
  queued = count (λ (j : Job). same_as j.pool p.pool && is_queued j.status) jobs;
  running = count (λ (j : Job). same_as j.pool p.pool && is_active j.status) jobs;
  updated_at = p.updated_at;
}

-- job_id=? AND status='queued' AND paused=?
abbrev pub pausable : String → Bool → Job → Bool
pausable id now j =
    same j.job_id id && (is_queued j.status && (if now then not j.paused else j.paused))

unfoldable pub pause_row : Bool → ℕ → Job → Job
pause_row now stamp j = record j { paused = now; updated_at = stamp }

unfoldable pub pause_answer : Option Job → Result Bool
pause_answer none = err unknown_job
pause_answer (some j) = if not (is_queued j.status) then err (not_queued j.status) else ok true

-- `job_pause`, and `job_resume`, which is the same with the flag the other way.
unfoldable pub set_paused : Bool → String → ℕ → List Job → Result Bool × List Job
unfolding pause_answer pause_row
set_paused now id stamp jobs =
    if not (count (pausable id now) jobs == 0)
    then (ok true, update (pausable id now) (pause_row now stamp) jobs)
    else (pause_answer (find (with_id id) jobs), jobs)

unfoldable pub job_pause : String → ℕ → List Job → Result Bool × List Job
unfolding set_paused
job_pause id stamp jobs = set_paused true id stamp jobs

unfoldable pub job_resume : String → ℕ → List Job → Result Bool × List Job
unfolding set_paused
job_resume id stamp jobs = set_paused false id stamp jobs
