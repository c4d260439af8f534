-- ===== src/Ghost/Thresholds.antt =====
-- The purge threshold in closed form.
use g_proxy_pro.Base.{ℕ, ◌%◌, ◌<◌, ◌≡◌, ◌↔◌, arith, true}
use g_proxy_pro.Ghost.{should_purge, purge_threshold}

-- A count calls for a purge exactly if it is a positive multiple of 5000.
pub should_purge_iff :
    (count : ℕ) → (should_purge count ≡ true) ↔ ((0 < count) × (count % purge_threshold ≡ 0))
unfolding should_purge
should_purge_iff count = ((λ h. ground arith), λ h. ground arith)
