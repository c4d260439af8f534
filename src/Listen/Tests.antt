-- ===== src/Listen/Tests.antt =====
-- The wireless interface has gone and come back: its listener was closed by the system.
use g_proxy_pro.Base.{
  ℕ, ◌≤◌, ◌≡◌, arith, Bool, true, false, Option, some, List, [], ◌∷◌, ◌++◌, ◌==◌, length,
}
use g_proxy_pro.Listen.{Listeners, max_listeners, loopback4, loopback6, reconcile}
use g_proxy_pro.Base.{◌↔◌}
use g_proxy_pro.Listen.Ours.{Sockets, inet, Listens, listener_is_ours, listener_is_ours_iff}
use g_proxy_pro.Listen.Ensure.{Live, All, Served}
use g_proxy_pro.Listen.Reconcile.{Wanted, Own, Shut, Retired, reconcile_lem}

abbrev wlan : List ℕ
wlan = 49 ∷ 48 ∷ 46 ∷ 48 ∷ []

abbrev ours : ℕ → List ℕ → Bool
ours fd ip = fd == 3

abbrev bind : ℕ → List ℕ → Option ℕ
bind n ip = some 9

abbrev listeners : Listeners
listeners = record {
  table = record { fd = 3; addr = loopback4 } ∷ record { fd = 4; addr = wlan } ∷ [];
  tries = 2;
  closed = [];
}

reconcile_example :
    let s' = reconcile true ours bind (wlan ∷ []) listeners in
    Served bind 2 (Wanted ours (wlan ∷ [])) (Own ours (wlan ∷ [])) loopback4 s'
    × Served bind 2 (Wanted ours (wlan ∷ [])) (Own ours (wlan ∷ [])) loopback6 s'
    × All (λ ip. Served bind 2 (Wanted ours (wlan ∷ [])) (Own ours (wlan ∷ [])) ip s') (wlan ∷ [])
    × All (Live bind 2 (Wanted ours (wlan ∷ [])) (Own ours (wlan ∷ [])) s') s'.table
    × (length s'.table ≤ max_listeners)
    × ((closed : List ℕ) × (s'.closed ≡ [] ++ closed)
        × All (Retired ours (wlan ∷ [])) closed
        × All (Shut ours (wlan ∷ []) closed) listeners.table)
    × (reconcile false ours bind (wlan ∷ []) listeners ≡ listeners)
reconcile_example = reconcile_lem ours (wlan ∷ []) bind listeners (omega arith) (omega arith, tt)

abbrev sockets : Sockets
sockets = record {
  accepting = λ fd. some true;
  name_of = λ fd. some (inet (127 ∷ 0 ∷ 0 ∷ 1 ∷ []) 1080);
  ntop = λ v6 addr. some loopback4;
}

ours_example :
    (listener_is_ours sockets (some 3) loopback4 1080 ≡ true)
    ↔ ((some true ≡ some true) × Listens sockets 3 loopback4 1080)
ours_example = listener_is_ours_iff sockets 3 loopback4 1080
