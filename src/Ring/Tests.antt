-- ===== src/Ring/Tests.antt =====
-- A ring of two places with one in use, whose next write wraps around.
use g_proxy_pro.Base.{ℕ, ◌<◌, ◌≡◌, ◌⊎◌, refl, arith, true, false, some, List, [], ◌∷◌, length}
use g_proxy_pro.Ring.{Ring, enqueue, dequeue}
use g_proxy_pro.Ring.Fifo.{Holds, enqueue-Holds, dequeue-Holds}

abbrev one_left : Ring ℕ
one_left = record { items = 0 ∷ 7 ∷ []; cap = 2; head = 1; tail = 0; count = 1 }

one_left-Holds : Holds one_left (7 ∷ [])
one_left-Holds = record {
  whole = refl;
  head_in = omega arith;
  fits = omega arith;
  counted = refl;
  tail_at = refl;
  at = λ i lt. ground arith;
}

enqueue_example :
    let queued : List ℕ = 7 ∷ [] in
    ((length queued ≡ 2) × (enqueue one_left 8 ≡ some (false, one_left)))
    ⊎ ((length queued < 2)
        × ((r' : Ring ℕ) × (enqueue one_left 8 ≡ some (true, r'))
            × Holds r' (7 ∷ 8 ∷ [])
            × (r'.cap ≡ 2)))
enqueue_example = enqueue-Holds one_left (7 ∷ []) 8 one_left-Holds

dequeue_example : (r' : Ring ℕ) × (dequeue one_left ≡ some (7, r')) × Holds r' [] × (r'.cap ≡ 2)
dequeue_example = dequeue-Holds one_left 7 [] one_left-Holds
