-- ===== src/Ring.antt =====
-- The two bounded queues of app/src/main/cpp/simple-socks5.c: the requests to the resolver threads
-- (`g_dns_queue`) and the jobs of a thread pool (`job_pool_t`). Both are an array with a head, a tail
-- and a count, used under a lock, so each function here is one step.
pub mod Fifo
mod Tests
use g_proxy_pro.Base.{
  ℕ, ◌+◌, ◌-◌, ◌%◌, Bool, true, false, Option, none, some, List, ltb, if◌then◌else◌, ◌>>=◌, length,
  get_elem?, set,
}

pub record Ring {ℓ} (A : Type ℓ) : Type ℓ where
  pub items : List A
  pub cap : ℕ
  pub head : ℕ
  pub tail : ℕ
  pub count : ℕ

-- Whether there was room, and the queue after; `none` is a write outside the array.
unfoldable pub enqueue {ℓ} : {A : Type ℓ} → Ring A → A → Option (Bool × Ring A)
enqueue r x =
    if ltb r.count r.cap
    then (if ltb r.tail (length r.items)
        then some (
          true,
          record r {
            items = set r.items r.tail x;
            tail = (r.tail + 1) % r.cap;
            count = r.count + 1;
          },
        )
        else none)
    else some (false, r)

-- The caller has seen that the count is not 0.
unfoldable pub dequeue {ℓ} : {A : Type ℓ} → Ring A → Option (A × Ring A)
dequeue r = do
  x ← get_elem? r.items r.head
  some (x, record r { head = (r.head + 1) % r.cap; count = r.count - 1 })
