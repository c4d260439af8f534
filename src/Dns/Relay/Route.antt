-- ===== src/Dns/Relay/Route.antt =====
-- Where a frame is sent.
use mathlib.Core.Option.{some_inj}
use g_proxy_pro.Dns.{Job}
use g_proxy_pro.Dns.Cache.{cache_put, ttl_sec}
use g_proxy_pro.Dns.Cache.Answers.{cache_lookup-cache_put}
use g_proxy_pro.Dns.Relay.{Worker, settle, flush_pending}
use g_proxy_pro.Sockaddr.{Pton, sockaddr_from_ip_port}
use g_proxy_pro.Base.{sym, ap, read_bytes_all}
use g_proxy_pro.Base.{
  ℕ, ◌+◌, ◌≤◌, ◌<◌, ◌≡◌, ◌⊎◌, inl, inr, refl, arith, true, false, Option, none, some, List, [], ◌∷◌,
  ◌++◌, length, read_bytes-append, read_bytes_total, ◌==◌, leb, get_elem?, Option-cases, Bool-cases,
}
use g_proxy_pro.Proto.{atyp_domain, atyp_ipv4, atyp_ipv6}
use g_proxy_pro.Sockaddr.{Sockaddr}
use g_proxy_pro.Sockaddr.Build.{build_sockaddr_total}
use g_proxy_pro.Ring.Fifo.{Holds}
use g_proxy_pro.Dns.Cache.{CacheEntry, cache_lookup}
use g_proxy_pro.Dns.Relay.{
  Sendto, Req, Deferred, send_5g, stored, defer, c_string, route_name, route_frame,
}
use g_proxy_pro.Dns.Relay.Defer.{defer_lem}

-- A frame for a name of 1 to 255 bytes is sent at once to the address in the cache if there is one, and
-- the port that the frame asks for plays no part in where it goes. If there is none, the frame waits.
route_frame_domain :
    (sendto : Sendto) (now widx : ℕ) (fd : Option ℕ) (cache : List CacheEntry) (s : Deferred)
    (name rest port payload : List ℕ)
    → 0 < length name
    → length name ≤ 255
    → let addr = length name ∷ (name ++ rest) in
      let r = route_frame sendto now widx fd cache s atyp_domain addr port payload in
      ((a : Sockaddr)
        → cache_lookup cache (c_string name) now ≡ some a
        → r ≡ some (record s { out = send_5g sendto fd payload a s.out }))
      × (cache_lookup cache (c_string name) now ≡ none
          → r ≡ defer widx s.jobs s.queue s.pend s.out (c_string name) port payload)
unfolding route_frame route_name
route_frame_domain sendto now widx fd cache s name rest port payload some_name short =
    rw (nonzero, in_range, read_bytes-append (length name ∷ []) name rest 1 (length name) refl refl)
      ((λ a hit. to_cached (c_string name) a hit), λ miss. to_wait (c_string name) miss)
  where
    to_cached :
        (host : List ℕ) (a : Sockaddr)
        → cache_lookup cache host now ≡ some a
        → route_name sendto now widx fd cache s host port payload
          ≡ some (record s { out = send_5g sendto fd payload a s.out })
    to_cached host a hit = rw (hit, route_name) refl

    to_wait :
        (host : List ℕ)
        → cache_lookup cache host now ≡ none
        → route_name sendto now widx fd cache s host port payload
          ≡ defer widx s.jobs s.queue s.pend s.out host port payload
    to_wait host miss = rw (miss, route_name) refl

    nonzero : (length name == 0) ≡ false
    nonzero = ground arith

    in_range : leb 256 (length name) ≡ false
    in_range = ground arith

port_of :
    (pton : Pton) (ip port : List ℕ) (a : Sockaddr)
    → length port ≡ 2
    → sockaddr_from_ip_port pton ip port ≡ some (some a)
    → a.port ≡ port
unfolding sockaddr_from_ip_port
port_of pton [] port a two e = absurd (cc (some_inj.0 e))
port_of pton (c ∷ ip) port a two e = elim (Option-cases (pton.v6 (c ∷ ip))) [
  | inr (a6, v6) ↦
      let found = rw (v6, sockaddr_from_ip_port, read_bytes_all port 2 two) at e in
      sym (ap (λ b. b.port) (some_inj.0 (some_inj.0 found)))
  | inl no6 ↦ elim (Option-cases (pton.v4 (c ∷ ip))) [
    | inr (a4, v4) ↦
        let found = rw (no6, sockaddr_from_ip_port, v4, read_bytes_all port 2 two) at e in
        sym (ap (λ b. b.port) (some_inj.0 (some_inj.0 found)))
    | inl no4 ↦ absurd (cc (some_inj.0 (rw (no6, sockaddr_from_ip_port, no4) at e)))
  ]
]

-- Let a job for a name that the cache does not know be answered with an IP literal. Once the worker has
-- dealt with the answer, for 60 seconds every frame for that name, of 1 to 255 bytes, is sent at once to
-- one address with the port of the frame that the job was claimed for, whatever port it asks for itself.
pub settled_port :
    (pton : Pton) (sendto : Sendto) (now later widx : ℕ) (fd : Option ℕ) (j : Job) (w : Worker)
    (s : Deferred) (a : Sockaddr) (c : ℕ) (host : List ℕ)
    → j.host ≡ c ∷ host
    → length host < 255
    → length j.port ≡ 2
    → 0 < length w.cache
    → cache_lookup w.cache (c ∷ host) now ≡ none
    → sockaddr_from_ip_port pton j.ip j.port ≡ some (some a)
    → now ≤ later
    → later < now + ttl_sec
    → (w' : Worker) × (settle pton sendto now j w ≡ some w')
      × (a.port ≡ j.port)
      × ((name rest port payload : List ℕ)
          → 0 < length name
          → length name ≤ 255
          → c_string name ≡ c ∷ host
          → route_frame sendto later widx fd w'.cache s atyp_domain
              (length name ∷ (name ++ rest))
              port
              payload
            ≡ some (record s { out = send_5g sendto fd payload a s.out }))
unfolding settle
settled_port pton sendto now later widx fd j w s a c host eh short two room miss ans le live =
    let (conns', out') = flush_pending sendto j.host a w.conns w.out in
    let known = (cache_lookup-cache_put w.cache c host a now later room short miss le).0 live in
    (
      record w { cache = cache_put w.cache j.host a now; conns = conns'; out = out' },
      rw ans refl,
      port_of pton j.ip j.port a two ans,
      λ name rest port payload some_name fits same.
          (route_frame_domain sendto later widx fd (cache_put w.cache j.host a now) s name rest port
              payload some_name fits).0
            a (rw (same, eh) known),
    )

-- What stands in a datagram from the address on, for a header that was accepted.
abbrev pub HasAddress : ℕ → List ℕ → Type 0
HasAddress atyp addr =
    (((atyp ≡ atyp_ipv4) × (4 ≤ length addr)) ⊎ ((atyp ≡ atyp_ipv6) × (16 ≤ length addr)))
    ⊎ ((atyp ≡ atyp_domain)
        × ((dl : ℕ) × (get_elem? addr 0 ≡ some dl) × (0 < dl) × (1 + dl ≤ length addr)))

-- The queue to the resolver threads is in order.
abbrev pub IsQueued : Deferred → Type 0
IsQueued s = (reqs : List Req) × Holds s.queue reqs

module _ (sendto : Sendto) (now widx : ℕ) (fd : Option ℕ) (cache : List CacheEntry) where
  route_name_total :
      (s : Deferred) (host port payload : List ℕ)
      → IsQueued s
      → (s' : Deferred) × (route_name sendto now widx fd cache s host port payload ≡ some s')
        × IsQueued s'
  unfolding route_name
  route_name_total s host port payload (reqs, h) =
      elim (Option-cases (cache_lookup cache host now)) [
        | inr (a, hit) ↦ (
          record s { out = send_5g sendto fd payload a s.out },
          rw (hit, route_name) refl,
          (reqs, h),
        )
        | inl miss ↦
            let (d, e, _, _, (index, asked, _, _)) =
              defer_lem widx s.jobs s.queue reqs s.out host port h s.pend payload in
            (
              d,
              rw (miss, route_name) e,
              elim asked [
                | inl (same, _) ↦ (reqs, same)
                | inr (ji, j, _, _, more, _, _, _, _, _) ↦ (
                  reqs ++ record { worker_idx = widx; job_idx = ji; host = stored host } ∷ [],
                  more,
                )
              ],
            )
      ]

  -- A frame whose header was accepted is routed without a read outside it, and the queue stays in order.
  pub route_frame_total :
      (s : Deferred) (atyp : ℕ) (addr port payload : List ℕ)
      → IsQueued s
      → length port ≡ 2
      → HasAddress atyp addr
      → (s' : Deferred) × (route_frame sendto now widx fd cache s atyp addr port payload ≡ some s')
        × IsQueued s'
  unfolding route_frame
  route_frame_total s atyp addr port payload q two (inl fixed) =
      let (a, e) = build_sockaddr_total atyp addr port two fixed in
      let literal : (atyp == atyp_domain) ≡ false = ground arith in
      (record s { out = send_5g sendto fd payload a s.out }, rw (literal, e) refl, q)
  route_frame_total s atyp addr port payload q two (inr (named, (dl, at, some_name, room))) =
      let name : (atyp == atyp_domain) ≡ true = ground arith in
      let nonzero : (dl == 0) ≡ false = ground arith in
      elim (Bool-cases (leb 256 dl)) [
        | inl long ↦ (s, rw (name, at, nonzero, long) refl, q)
        | inr short ↦
            let (bs, e, _) = read_bytes_total addr 1 dl room in
            let (s', r, q') = route_name_total s (c_string bs) port payload q in
            (s', rw (name, at, nonzero, short, e) r, q')
      ]
