-- ===== src/Pool/Tests.antt =====
-- One handshake is taken on and served, and the pool is told to stop.
use g_proxy_pro.Base.{false, ◌≡◌, refl, arith, true, some, [], ◌∷◌}
use g_proxy_pro.Ring.{enqueue, dequeue}
use g_proxy_pro.Pool.{PoolJob, Pool, init, enqueue_job, serve, next, shutdown}
use g_proxy_pro.Pool.Service.{started, accepted, served, stopped, Serves, Chooses, Run-in_order}

abbrev nothing : PoolJob
nothing = record { fd = 0; cmd = 0 }

abbrev job : PoolJob
job = record { fd = 9; cmd = 0 }

abbrev one_queued : Pool
one_queued = record {
  jobs = record { items = job ∷ nothing ∷ []; cap = 2; head = 0; tail = 1; count = 1 };
  stop = false;
}

taken_on : enqueue_job (init nothing 2) 9 0 ≡ some (true, one_queued)
unfolding enqueue_job init enqueue
taken_on = refl

abbrev all_served : Pool
all_served = record one_queued {
  jobs = record { items = job ∷ nothing ∷ []; cap = 2; head = 1; tail = 1; count = 0 };
  stop = true;
}

took : next (shutdown one_queued) ≡ some (serve job all_served)
unfolding next shutdown dequeue
took = refl

run_example :
    Serves 2 (job ∷ []) (job ∷ []) all_served × Chooses nothing 2 (job ∷ []) (job ∷ []) all_served
run_example =
    Run-in_order nothing 2 (omega arith) (served job (stopped (accepted 9 0 started taken_on)) took)
