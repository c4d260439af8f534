-- ===== src/Pool.antt =====
-- The thread pool of app/src/main/cpp/simple-socks5.c that serves the handshakes: a bounded queue of
-- jobs and a flag to stop. Its lock makes each function below one step; `malloc`, threads and
-- condition variables are left out, so a thread's loop is the choice of what it does next.
pub mod Service
mod Tests
use g_proxy_pro.Base.{
  ℕ, ◌+◌, Bool, true, false, Option, none, some, List, [], ◌∷◌, ◌||◌, leb, ◌==◌, if◌then◌else◌,
  ◌>>=◌, replicate,
}
use g_proxy_pro.Ring.{Ring, enqueue, dequeue}

-- `pool_job_t`
pub record PoolJob : Type 0 where
  pub fd : ℕ
  pub cmd : ℕ

-- `job_pool_t`
pub record Pool : Type 0 where
  pub jobs : Ring PoolJob
  pub stop : Bool

-- `fill` is what `malloc` left in the array.
unfoldable pub init : PoolJob → ℕ → Pool
init fill cap = record {
  jobs = record { items = replicate cap fill; cap = cap; head = 0; tail = 0; count = 0 };
  stop = false;
}

-- Whether the job was taken on; `none` is a write outside the array.
unfoldable pub enqueue_job : Pool → ℕ → ℕ → Option (Bool × Pool)
enqueue_job p fd cmd = if p.stop || leb p.jobs.cap p.jobs.count then some (false, p) else (do
  (room, jobs') ← enqueue p.jobs (record { fd = fd; cmd = cmd })
  some (room, record p { jobs = jobs' }))

-- What a thread does next.
pub data Next : Type 0 where
  wait exit : Next
  serve : PoolJob → Pool → Next

unfoldable pub next : Pool → Option Next
next p =
    if p.jobs.count == 0
    then some (if p.stop then exit else wait)
    else (do (job, jobs') ← dequeue p.jobs; some (serve job (record p { jobs = jobs' })))

unfoldable pub shutdown : Pool → Pool
shutdown p = record p { stop = true }
