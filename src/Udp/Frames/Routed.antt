-- ===== src/Udp/Frames/Routed.antt =====
-- The loop over the frames with `udp_route_frame` as what is done with a datagram.
use g_proxy_pro.Base.{
  sym, fun_ext, ◌++◌, ◌>>=◌, >>=_assoc, Bool-cases, read_bytes, read_bytes_total,
}
use g_proxy_pro.Proto.{udp_parse}
use g_proxy_pro.Proto.Parse.{Reads}
use g_proxy_pro.Udp.Frames.{Frame, deliver}
use g_proxy_pro.Base.{
  ℕ, zero, suc, ◌+◌, ◌-◌, ◌≤◌, ◌<◌, ◌≡◌, refl, ap, ◌∙◌, arith, inl, inr, Bool, true, false, ◌*◌,
  ltb, if◌then◌else◌, Option, none, some, List, [], ◌∷◌, length, drop, get_elem?,
}
use g_proxy_pro.Proto.{Parsed}
use g_proxy_pro.Proto.Parse.{IsSound}
use g_proxy_pro.Dns.Cache.{CacheEntry}
use g_proxy_pro.Dns.Relay.{Sendto, Deferred, route_frame}
use g_proxy_pro.Dns.Relay.Route.{HasAddress, IsQueued, route_frame_total}
use g_proxy_pro.Udp.Frames.{Stream, Input, Next, more, stop, Route, loop}
use g_proxy_pro.Udp.Frames.Held.{Framed, Ready}
use g_proxy_pro.Udp.Frames.Whole.{Stopped, loop_lem}

length-drop : (n : ℕ) (xs : List ℕ) → length (drop n xs) ≡ length xs - n
length-drop zero xs = omega arith
length-drop (suc n) [] = omega arith
length-drop (suc n) (x ∷ xs) = omega (arith, length-drop n xs)

get_elem?-drop : (n : ℕ) (xs : List ℕ) → get_elem? (drop n xs) 0 ≡ get_elem? xs n
get_elem?-drop zero [] = refl
get_elem?-drop zero (x ∷ xs) = refl
get_elem?-drop (suc n) [] = refl
get_elem?-drop (suc n) (x ∷ xs) = get_elem?-drop n xs

-- What a sound header says of its address is there.
pub has_address :
    (buf : List ℕ) (len : ℕ) (p : Parsed)
    → len ≤ length buf
    → IsSound buf len p
    → HasAddress p.atyp (drop p.addr buf)
has_address buf len p room s = elim s.types [
  | inl (t, h) ↦ inl (inl (t, omega (arith, length-drop p.addr buf, s.after_addr, s.inside)))
  | inr (inl (t, h)) ↦ inl (inr (t, omega (arith, length-drop p.addr buf, s.after_addr, s.inside)))
  | inr (inr (t, (dl, at, pos, h))) ↦ inr (
    t,
    (
      dl,
      get_elem?-drop p.addr buf ∙ ap (λ i. get_elem? buf i) s.after_addr ∙ at,
      pos,
      omega (arith, length-drop p.addr buf, s.after_addr, s.inside),
    ),
  )
]

module _ (now widx : ℕ) (sendto : Sendto) (fd : Option ℕ) (cache : List CacheEntry) where
  -- `udp_route_frame`
  abbrev pub relay : Route Deferred
  relay atyp addr port payload d = route_frame sendto now widx fd cache d atyp addr port payload

  -- A datagram whose header is sound is routed.
  pub relay_total :
      (buf : List ℕ) (len : ℕ) (p : Parsed) (payload : List ℕ) (d : Deferred)
      → len ≤ length buf
      → IsSound buf len p
      → IsQueued d
      → (d' : Deferred) × (relay p.atyp (drop p.addr buf) p.port payload d ≡ some d') × IsQueued d'
  relay_total buf len p payload d room s q =
      route_frame_total sendto now widx fd cache d p.atyp (drop p.addr buf) p.port payload q
        s.port_two (has_address buf len p room s)

-- What the frames of a session ask for, in order: each whose header is accepted and that has a payload
-- behind it is given to `route` once, with the type, what stands from the address on, the port and the
-- payload; the others to nothing.
abbrev given : {D : Type 0} → Route D → List ℕ → Option Parsed → D → Option D
given route body none d = some d
given route body (some p) d =
    if ltb p.header_len (length body)
    then (read_bytes body p.header_len (length body - p.header_len) >>= λ payload.
        route p.atyp (drop p.addr body) p.port payload d)
    else some d

abbrev pub all_given : {D : Type 0} → Route D → List Frame → D → Option D
all_given route [] d = some d
all_given route (f ∷ fs) d =
    udp_parse f.body (length f.body) >>= λ p. given route f.body p d >>= λ d1. all_given route fs d1

all_given-append :
    {D : Type 0} (route : Route D) (fs gs : List Frame) (d : D)
    → all_given route (fs ++ gs) d ≡ (all_given route fs d >>= λ e. all_given route gs e)
all_given-append route [] gs d = refl
all_given-append route (f ∷ fs) gs d =
    ap (λ k. udp_parse f.body (length f.body) >>= k)
      (fun_ext λ p.
        ap (λ k. given route f.body p d >>= k) (fun_ext λ e. all_given-append route fs gs e)
        ∙ sym (
            >>=_assoc (given route f.body p d) (λ e. all_given route fs e)
              (λ e. all_given route gs e)))
    ∙ sym (
        >>=_assoc (udp_parse f.body (length f.body))
          (λ p. given route f.body p d >>= λ e. all_given route fs e) (λ e. all_given route gs e))

module _ {K : Type 0} (str : Stream K) (now widx : ℕ) (sendto : Sendto) (fd : Option ℕ)
    (cache : List CacheEntry) (start : Deferred) where
  abbrev to : Route Deferred
  to = relay now widx sendto fd cache

  -- The queue is in order, and exactly the frames so far have been given to `udp_route_frame`.
  abbrev Served : List Frame → Deferred → Type 0
  Served fs d = IsQueued d × (all_given to fs start ≡ some d)

  give_total :
      (body : List ℕ) (p : Option Parsed) (d : Deferred)
      → Reads body (length body) (some p)
      → IsQueued d
      → (d' : Deferred) × (deliver str to now body (length body) p d ≡ some d')
        × (given to body p d ≡ some d')
        × IsQueued d'
  unfolding deliver
  give_total body none d reads q = (d, refl, refl, q)
  give_total body (some p) d reads q = elim (Bool-cases (ltb p.header_len (length body))) [
    | inr empty ↦ (d, rw empty refl, rw empty refl, q)
    | inl loaded ↦
        let (payload, e, _) =
          read_bytes_total body p.header_len (length body - p.header_len)
            (ground (arith, reads.inside)) in
        let (d', e', q') =
          relay_total now widx sendto fd cache body (length body) p payload d (omega arith) reads
            q in
        (d', rw (loaded, e) e', rw (loaded, e) e', q')
  ]

  serve_total :
      (fs : List Frame) (f : Frame) (p : Option Parsed) (d : Deferred)
      → udp_parse f.body (length f.body) ≡ some p
      → Reads f.body (length f.body) (some p)
      → Served fs d
      → (d' : Deferred) × (deliver str to now f.body (length f.body) p d ≡ some d')
        × Served (fs ++ f ∷ []) d'
  serve_total fs f p d ep reads (q, so_far) =
      let (d', e, g, q') = give_total f.body p d reads q in
      (
        d',
        e,
        (
          q',
          all_given-append to fs (f ∷ []) start
              ∙ ap (λ m. m >>= λ e. all_given to (f ∷ []) e) so_far
              ∙ ap (λ m. m >>= λ p. given to f.body p d >>= λ e. some e) ep
              ∙ ap (λ m. m >>= λ e. some e) g,
        ),
      )

  unpack :
      (r : Option (Next K Deferred))
      → Stopped str to now Served serve_total r
      → (ok : Bool) × (s : Input K Deferred) × (r ≡ some (stop ok s))
        × Framed s
        × (ok ≡ true → Ready s)
        × Served s.frames s.routed
  unpack none h = absurd h
  unpack (some (more s)) h = absurd h
  unpack (some (stop ok s)) (f, g, o) = (ok, s, refl, f, g, o)

  -- Let a session be between two rounds with its buffers in place, so that what was received is the
  -- frames so far and, behind them, what is held of the next one; let the queue to the resolver threads
  -- be in order, and let exactly these frames have been given to `udp_route_frame`. With more fuel than
  -- twice the bytes that come before `recv` would block, and one, the loop stops without any access
  -- outside a buffer, however the bytes are cut and whatever they are. What was received is again the
  -- frames so far, each of the length that its two bytes say, whole and in order, and behind them what
  -- is held. Each of these frames whose header is accepted and that has a payload has been given to
  -- `udp_route_frame`, once and in order, and no other. If the result is 0 the session is between two
  -- rounds again.
  pub reassembly_lem :
      (fuel : ℕ) (s : Input K Deferred)
      → Framed s
      → Ready s
      → IsQueued s.routed
      → all_given (relay now widx sendto fd cache) s.frames start ≡ some s.routed
      → str.left s.kernel * 2 + 1 < fuel
      → (ok : Bool) × (s' : Input K Deferred) × (loop str
            (relay now widx sendto fd cache)
            now
            fuel
            s
          ≡ some (stop ok s'))
        × Framed s'
        × (ok ≡ true → Ready s')
        × IsQueued s'.routed
        × (all_given (relay now widx sendto fd cache) s'.frames start ≡ some s'.routed)
  reassembly_lem fuel s f g q so_far h =
      let (ok, s', e, f', g', (q', given_all)) = unpack (loop str to now fuel s) (
        loop_lem str to now Served serve_total fuel s f g (q, so_far)
          (few (ltb s.conn.len_got 2) h)) in
      (ok, s', e, f', g', q', given_all)
    where
      few :
          (short : Bool)
          → str.left s.kernel * 2 + 1 < fuel
          → str.left s.kernel * 2 + (if short then 0 else 1) < fuel
      few true h = omega arith
      few false h = h
