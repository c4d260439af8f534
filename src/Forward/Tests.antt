-- ===== src/Forward/Tests.antt =====
-- A connection whose client has closed its side, with bytes pending for the target.
use g_proxy_pro.Base.{◌≡◌, true, false}
use g_proxy_pro.Forward.{fwd_rdhup, fwd_in, fwd_out, interest}
use g_proxy_pro.Forward.Interest.{has, interest_bits}

interest_example :
    let m = interest false true false true false in
    (has m.0 fwd_rdhup ≡ false)
    × (has m.0 fwd_in ≡ false)
    × (has m.0 fwd_out ≡ false)
    × (has m.1 fwd_rdhup ≡ true)
    × (has m.1 fwd_in ≡ true)
    × (has m.1 fwd_out ≡ true)
interest_example = interest_bits false true false true false
