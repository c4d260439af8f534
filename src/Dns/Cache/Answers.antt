-- ===== src/Dns/Cache/Answers.antt =====
-- What the cache answers after a write.
use g_proxy_pro.Base.{
  ℕ, zero, suc, ◌+◌, ◌≤◌, ◌<◌, ◌≡◌, ◌≢◌, inl, inr, refl, sym, ap, subst, ◌∙◌, arith, true, false,
  ◌&&◌, none, some, List, [], ◌∷◌, ltb, Bool-cases, length, get_elem?, set, take, bytes_eq,
  bytes_eq_sound, bytes_eq_refl,
}
use g_proxy_pro.Sockaddr.{Sockaddr}
use g_proxy_pro.Dns.Cache.{
  CacheEntry, ttl_sec, cache_find, cache_lookup, idle, pick_slot, put_slot, cache_put,
}

take_short : (xs : List ℕ) (n : ℕ) → length xs ≤ n → take n xs ≡ xs
take_short [] zero h = refl
take_short [] (suc n) h = refl
take_short (x ∷ xs) zero h = absurd (omega arith)
take_short (x ∷ xs) (suc n) h = ap (λ l. x ∷ l) (take_short xs n (omega arith))

-- Where a name is not found, a new entry of it is.
cache_find-set :
    (es : List CacheEntry) (i : ℕ) (e : CacheEntry) (now later : ℕ)
    → i < length es
    → cache_find es e.host now ≡ none
    → now ≤ later
    → later < e.expire
    → e.used ≡ true
    → cache_find (set es i e) e.host later ≡ some e.sa
unfolding cache_find
cache_find-set [] i e now later lt miss le live used = absurd (omega arith)
cache_find-set (x ∷ es) zero e now later lt miss le live used = ground (arith, bytes_eq_refl e.host)
cache_find-set (x ∷ es) (suc i) e now later lt miss le live used =
    elim (Bool-cases (x.used && (ltb now x.expire && bytes_eq x.host e.host))) [
      | inl hit ↦ ground arith
      | inr other ↦
          ground
            (arith, cache_find-set es i e now later (omega arith) (rw other at miss) le live used)
    ]

-- Writing over an idle entry changes no answer for another name.
cache_find-set_other :
    (es : List CacheEntry) (i : ℕ) (old e : CacheEntry) (host : List ℕ) (now later : ℕ)
    → get_elem? es i ≡ some old
    → idle old now ≡ true
    → now ≤ later
    → bytes_eq e.host host ≡ false
    → cache_find (set es i e) host later ≡ cache_find es host later
unfolding cache_find
cache_find-set_other [] i old e host now later at gone le ne = cc
cache_find-set_other (x ∷ es) zero old e host now later at gone le ne =
    let same : x ≡ old = cc in
    let gone' = subst (λ y. idle y now ≡ true) (sym same) gone in ground (arith, gone')
cache_find-set_other (x ∷ es) (suc i) old e host now later at gone le ne =
    rw (cache_find-set_other es i old e host now later at gone le ne) refl

-- The choice is in the table, and it is idle if any entry is.
pick_slot-lt :
    (es : List CacheEntry) (i slot first now : ℕ)
    → slot < i + length es
    → pick_slot es i slot first now < i + length es
unfolding pick_slot
pick_slot-lt [] i slot first now lt = lt
pick_slot-lt (e ∷ es) i slot first now lt = ground (
  arith,
  pick_slot-lt es (suc i) i e.expire now (omega arith),
  pick_slot-lt es (suc i) slot first now (omega arith),
)

pick_slot-idle :
    (es : List CacheEntry) (i slot first now j : ℕ) (e : CacheEntry)
    → get_elem? es j ≡ some e
    → idle e now ≡ true
    → (k : ℕ) × (old : CacheEntry) × (pick_slot es i slot first now ≡ i + k)
      × (get_elem? es k ≡ some old)
      × (idle old now ≡ true)
unfolding pick_slot
pick_slot-idle [] i slot first now j e at gone = absurd cc
pick_slot-idle (x ∷ es) i slot first now zero e at gone =
    let same : x ≡ e = cc in
    let gone' = subst (λ y. idle y now ≡ true) (sym same) gone in
    (0, x, rw (gone', pick_slot) (omega arith), refl, gone')
pick_slot-idle (x ∷ es) i slot first now (suc j) e at gone = elim (Bool-cases (idle x now)) [
  | inl here ↦ (0, x, rw (here, pick_slot) (omega arith), refl, here)
  | inr live ↦ elim (Bool-cases (ltb x.expire first)) [
    | inl early ↦
        let (k, old, p, found, g) = pick_slot-idle es (suc i) i x.expire now j e at gone in
        (suc k, old, rw (live, early, p, pick_slot) (omega arith), found, g)
    | inr late ↦
        let (k, old, p, found, g) = pick_slot-idle es (suc i) slot first now j e at gone in
        (suc k, old, rw (live, late, p, pick_slot) (omega arith), found, g)
  ]
]

put_slot-lt :
    (cache : List CacheEntry) (now : ℕ) → 0 < length cache → put_slot cache now < length cache
unfolding put_slot
put_slot-lt [] now some_entry = absurd (omega arith)
put_slot-lt (e ∷ es) now some_entry =
    omega (arith, pick_slot-lt (e ∷ es) 0 0 e.expire now (omega arith))

put_slot-idle :
    (cache : List CacheEntry) (now j : ℕ) (e : CacheEntry)
    → get_elem? cache j ≡ some e
    → idle e now ≡ true
    → (k : ℕ) × (old : CacheEntry) × (put_slot cache now ≡ k)
      × (get_elem? cache k ≡ some old)
      × (idle old now ≡ true)
unfolding put_slot
put_slot-idle [] now j e at gone = absurd cc
put_slot-idle (x ∷ es) now j e at gone =
    let (k, old, p, found, g) = pick_slot-idle (x ∷ es) 0 0 x.expire now j e at gone in
    (k, old, p ∙ omega arith, found, g)

-- A name of 1 to 255 bytes that the cache does not know, once written, is answered with its address
-- for the 60 seconds after; and if some entry was idle, what the cache answers for every other name,
-- from then on, is unchanged.
pub cache_lookup-cache_put :
    (cache : List CacheEntry) (c : ℕ) (host : List ℕ) (sa : Sockaddr) (now later : ℕ)
    → 0 < length cache
    → length host < 255
    → cache_lookup cache (c ∷ host) now ≡ none
    → now ≤ later
    → (later < now + ttl_sec
        → cache_lookup (cache_put cache (c ∷ host) sa now) (c ∷ host) later ≡ some sa)
      × ((j : ℕ) (old : CacheEntry) (other : List ℕ)
          → get_elem? cache j ≡ some old
          → idle old now ≡ true
          → (c ∷ host) ≢ other
          → cache_lookup (cache_put cache (c ∷ host) sa now) other later
            ≡ cache_lookup cache other later)
unfolding cache_lookup cache_put
cache_lookup-cache_put cache c host sa now later some_entry short miss le = (
  (λ live. rw whole (
      cache_find-set cache (put_slot cache now) entry now later (put_slot-lt cache now some_entry)
        miss le live refl)),
  λ j old other at gone ne. other_name j old other at gone ne,
)
  where
    whole : take 255 (c ∷ host) ≡ c ∷ host
    whole = take_short (c ∷ host) 255 (omega arith)

    entry : CacheEntry
    entry = record { host = c ∷ host; sa = sa; expire = now + ttl_sec; used = true }

    differ : (other : List ℕ) → (c ∷ host) ≢ other → bytes_eq (c ∷ host) other ≡ false
    differ other ne = elim (Bool-cases (bytes_eq (c ∷ host) other)) [
      | inl same ↦ absurd (ne (bytes_eq_sound (c ∷ host) other same))
      | inr apart ↦ apart
    ]

    other_name :
        (j : ℕ) (old : CacheEntry) (other : List ℕ)
        → get_elem? cache j ≡ some old
        → idle old now ≡ true
        → (c ∷ host) ≢ other
        → cache_lookup (cache_put cache (c ∷ host) sa now) other later
          ≡ cache_lookup cache other later
    other_name j old [] at gone ne = refl
    other_name j old (d ∷ other) at gone ne =
        let (k, was, chosen, found, g) = put_slot-idle cache now j old at gone in
        rw (whole, chosen)
          (cache_find-set_other cache k was entry (d ∷ other) now later found g le
            (differ (d ∷ other) ne))
