-- ===== src/Dns/Cache.antt =====
-- The cache of resolved names of app/src/main/cpp/simple-socks5.c. Its lock makes each function one
-- step. Times are seconds.
pub mod Answers
use g_proxy_pro.Base.{
  ℕ, suc, ◌+◌, ◌-◌, Bool, true, not, ◌&&◌, ◌||◌, Option, none, some, List, [], ◌∷◌, ltb, leb,
  if◌then◌else◌, set, take, bytes_eq,
}
use g_proxy_pro.Dns.{host_max}
use g_proxy_pro.Sockaddr.{Sockaddr}

abbrev pub ttl_sec : ℕ
ttl_sec = 60

-- `dns_resolve_entry_t`; the address's length is that of its family.
pub record CacheEntry : Type 0 where
  pub host : List ℕ
  pub sa : Sockaddr
  pub expire : ℕ
  pub used : Bool

unfoldable pub cache_find : List CacheEntry → List ℕ → ℕ → Option Sockaddr
cache_find [] host now = none
cache_find (e ∷ es) host now =
    let rest = cache_find es host now in
    if e.used && (ltb now e.expire && bytes_eq e.host host) then some e.sa else rest

unfoldable pub cache_lookup : List CacheEntry → List ℕ → ℕ → Option Sockaddr
cache_lookup cache [] now = none
cache_lookup cache (c ∷ host) now = cache_find cache (c ∷ host) now

-- Whether an entry may be written over without loss.
abbrev pub idle : CacheEntry → ℕ → Bool
idle e now = not e.used || leb e.expire now

-- The entries from index `i` on; `slot` is the choice so far, and it expires at `first`.
pick_slot : List CacheEntry → ℕ → ℕ → ℕ → ℕ → ℕ
pick_slot [] i slot first now = slot
pick_slot (e ∷ es) i slot first now =
    let earlier = pick_slot es (suc i) i e.expire now in
    let same = pick_slot es (suc i) slot first now in
    if idle e now then i else if ltb e.expire first then earlier else same

-- The table has 64 entries, so there is a first one.
put_slot : List CacheEntry → ℕ → ℕ
unfolding pick_slot
put_slot [] now = 0
put_slot (e ∷ es) now = pick_slot (e ∷ es) 0 0 e.expire now

pub cache_put : List CacheEntry → List ℕ → Sockaddr → ℕ → List CacheEntry
cache_put cache [] sa now = cache
cache_put cache (c ∷ host) sa now =
    set cache (put_slot cache now) (record {
      host = take (host_max - 1) (c ∷ host);
      sa = sa;
      expire = now + ttl_sec;
      used = true;
    })
