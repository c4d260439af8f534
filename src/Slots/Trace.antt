-- ===== src/Slots/Trace.antt =====
-- What a slot table goes through: the count is how often slot `idx` has been handed out on the way.
use g_proxy_pro.Base.{ℕ, zero, suc, ◌≡◌, ◌≢◌, true, some, none, get_elem?, set}
use g_proxy_pro.Slots.{Slotted, Table, acquire, release}

module _ {ℓ} {C : Type ℓ} ⦃ops : Slotted C⦄ (idx : ℕ) where
  pub data Trace : ℕ → Table C → Table C → Type ℓ where
    here : {t : Table C} → Trace zero t t
    again :
        {k : ℕ} {t u : Table C} (w : Table C)
        → Trace k t u
        → acquire u ≡ some (some idx, w)
        → Trace (suc k) t w
    other :
        {k : ℕ} {t u : Table C} (j : ℕ) (w : Table C)
        → Trace k t u
        → j ≢ idx
        → acquire u ≡ some (some j, w)
        → Trace k t w
    failed :
        {k : ℕ} {t u : Table C} (w : Table C)
        → Trace k t u
        → acquire u ≡ some (none, w)
        → Trace k t w
    gave :
        {k : ℕ} {t u : Table C} (j : ℕ) (w : Table C)
        → Trace k t u
        → get_elem? u.slot_state j ≡ some true
        → release u j ≡ some w
        → Trace k t w
    -- A connection's other fields are written; its generation is not.
    wrote :
        {k : ℕ} {t u : Table C} (j : ℕ) (c c' : C)
        → Trace k t u
        → get_elem? u.slots j ≡ some c
        → ops.gen_of c' ≡ ops.gen_of c
        → Trace k t (record u { slots = set u.slots j c' })
