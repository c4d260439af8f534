-- ===== src/Listen/Ensure.antt =====
-- The second half of a pass: `ensure` for each address that has to be listened on.
use g_proxy_pro.Base.{some, sym, subst, ◌||◌, if◌then◌else◌}
use g_proxy_pro.Listen.{is_permanent_addr, addr_in_list}
use g_proxy_pro.Base.{
  ℕ, zero, suc, ◌+◌, ◌≤◌, ◌<◌, ◌≡◌, refl, ap, ◌∙◌, arith, Bool, true, false, Option, none, List, [],
  ◌∷◌, ◌++◌, leb, length, length-append, take, bytes_eq, bytes_eq_refl, Bool-cases, Option-cases,
  inl, inr, ◌⊎◌,
}
use g_proxy_pro.Listen.{
  Listener, Listeners, max_listeners, listens, is_wanted, add_listener_for_ip, ensure, ensure_all,
}

abbrev pub All {ℓ κ} : {A : Type ℓ} → (A → Type κ) → List A → Type κ
All P [] = Unit
All P (x ∷ xs) = P x × All P xs

take_short : (n : ℕ) (xs : List ℕ) → length xs ≤ n → take n xs ≡ xs
take_short zero [] h = refl
take_short zero (x ∷ xs) h = absurd (omega arith)
take_short (suc n) [] h = refl
take_short (suc n) (x ∷ xs) h = ap (λ l. x ∷ l) (take_short n xs (omega arith))

listens-append :
    (ip : List ℕ) (ls : List Listener) (l : Listener)
    → listens ip ls ≡ true
    → listens ip (ls ++ l ∷ []) ≡ true
unfolding listens
listens-append ip [] l h = cc
listens-append ip (x ∷ ls) l h = elim (Bool-cases (bytes_eq ip x.addr)) [
  | inl here ↦ rw here refl
  | inr later ↦ rw later (listens-append ip ls l (rw later at h))
]

listens-last :
    (ip : List ℕ) (ls : List Listener) (l : Listener)
    → bytes_eq ip l.addr ≡ true
    → listens ip (ls ++ l ∷ []) ≡ true
unfolding listens
listens-last ip [] l h = rw h refl
listens-last ip (x ∷ ls) l h = let rest = listens-last ip ls l h in ground (arith, rest)

pub All-map {ℓ κ κ'} :
    {A : Type ℓ} {P : A → Type κ} {Q : A → Type κ'} (xs : List A)
    → ((x : A) → P x → Q x)
    → All P xs
    → All Q xs
All-map [] f h = tt
All-map (x ∷ xs) f (h, hs) = (f x h, All-map xs f hs)

All-last {ℓ κ} :
    {A : Type ℓ} (P : A → Type κ) (xs : List A) (x : A) → All P xs → P x → All P (xs ++ x ∷ [])
All-last P [] x h p = (p, tt)
All-last P (y ∷ xs) x (h, hs) p = (h, All-last P xs x hs p)

-- `since` is the number of attempts before the pass; `Wants` says which addresses are wanted, and `Own`
-- which listeners still are ours.
module _ (bind : ℕ → List ℕ → Option ℕ) (since : ℕ) (Wants : List ℕ → Type 0)
    (Own : Listener → Type 0) where
  -- An attempt of the pass.
  abbrev pub Tried : ℕ → Listeners → Type 0
  Tried n s = (since ≤ n) × (n < s.tries)

  -- Listened on, or there is no place left, or an attempt of the pass to bind it failed.
  abbrev pub Served : List ℕ → Listeners → Type 0
  Served ip s =
      (listens ip s.table ≡ true)
      ⊎ ((length s.table ≡ max_listeners) ⊎ ((n : ℕ) × Tried n s × (bind n ip ≡ none)))

  -- A listener at a wanted address that still is ours, or that an attempt of the pass has bound.
  abbrev pub Live : Listeners → Listener → Type 0
  Live s l = Wants l.addr × (Own l ⊎ ((n : ℕ) × Tried n s × (bind n l.addr ≡ some l.fd)))

  -- One attempt, at an address not listened on yet: it is served then, the others still are, the table
  -- does not outgrow its array, and what is in it is live.
  abbrev pub Grows : List ℕ → Listeners → Listeners → Type 0
  Grows ip s s' =
      (length ip ≤ 45 → Served ip s')
      × ((other : List ℕ) → Served other s → Served other s')
      × (length s.table ≤ max_listeners → length s'.table ≤ max_listeners)
      × (s'.closed ≡ s.closed)
      × (s.tries ≤ s'.tries)
      × (length ip ≤ 45 → Wants ip → All (Live s) s.table → All (Live s') s'.table)

  same-Grows : (ip : List ℕ) (s : Listeners) → (length ip ≤ 45 → Served ip s) → Grows ip s s
  same-Grows ip s v = (v, (λ other w. w), (λ f. f), refl, omega arith, λ short wants live. live)

  -- One attempt more.
  later : (s s' : Listeners) → s'.tries ≡ s.tries + 1 → (n : ℕ) → Tried n s → Tried n s'
  later s s' e n (a, b) = (a, omega arith)

  add-Grows :
      (ip : List ℕ) (s : Listeners)
      → length s.table ≤ max_listeners
      → since ≤ s.tries
      → Grows ip s (add_listener_for_ip bind ip s)
  unfolding add_listener_for_ip
  add-Grows ip s fits old = elim (Bool-cases (leb max_listeners (length s.table))) [
    | inl full ↦
        rw (full, add_listener_for_ip)
          (same-Grows ip s (λ short. inr (inl (at_end (ground (arith, full))))))
    | inr room ↦ elim (Option-cases (bind s.tries ip)) [
      | inl fails ↦
          let s' : Listeners = record s { tries = s.tries + 1 } in
          rw (room, fails, add_listener_for_ip)
            (
              (λ short. inr (inr (s.tries, (old, omega arith), fails))),
              (λ other v. failed s' refl refl other v),
              (λ f. f),
              refl,
              omega arith,
              λ short wants live. older s' refl s.table live,
            )
      | inr (fd, e) ↦
          let l : Listener = record { fd = fd; addr = take 45 ip } in
          let s' : Listeners = record s { tries = s.tries + 1; table = s.table ++ l ∷ [] } in
          rw (room, e, add_listener_for_ip)
            (
              (λ short. inl (
                  listens-last ip s.table l
                    (ap (bytes_eq ip) (take_short 45 ip short) ∙ bytes_eq_refl ip))),
              (λ other v. still other l v (ground (arith, room))),
              (λ f. omega (arith, length-append s.table (l ∷ []), below (ground (arith, room)))),
              refl,
              omega arith,
              λ short wants live.
                  let whole = take_short 45 ip short in
                  All-last (Live s') s.table l (older s' refl s.table live) (
                    subst Wants (sym whole) wants,
                    inr (
                      s.tries,
                      (old, omega arith),
                      subst (λ a. bind s.tries a ≡ some fd) (sym whole) e,
                    ),
                  ),
            )
    ]
  ]
    where
      at_end : max_listeners ≤ length s.table → length s.table ≡ max_listeners
      at_end h = omega arith

      below : length s.table < max_listeners → length s.table < max_listeners
      below h = h

      older :
          (s' : Listeners)
          → s'.tries ≡ s.tries + 1
          → (ls : List Listener) → All (Live s) ls
          → All (Live s') ls
      older s' e ls = All-map ls (λ l (w, o).
          (w, elim o [ inl own ↦ inl own | inr (n, t, b) ↦ inr (n, later s s' e n t, b) ]))

      failed :
          (s' : Listeners)
          → s'.tries ≡ s.tries + 1
          → s'.table ≡ s.table
          → (other : List ℕ) → Served other s
          → Served other s'
      failed s' e same other (inl at) = inl (ap (λ t. listens other t) same ∙ at)
      failed s' e same other (inr (inl full)) = inr (inl (ap length same ∙ full))
      failed s' e same other (inr (inr (n, t, b))) = inr (inr (n, later s s' e n t, b))

      still :
          (other : List ℕ) (l : Listener)
          → Served other s
          → length s.table < max_listeners
          → Served other (record s { tries = s.tries + 1; table = s.table ++ l ∷ [] })
      still other l (inl at) room = inl (listens-append other s.table l at)
      still other l (inr (inl full)) room = absurd (omega arith)
      still other l (inr (inr (n, t, b))) room = inr (inr (n, (t.0, omega (arith, t.1)), b))

  -- One address of the pass.
  pub ensure-Grows :
      (ip : List ℕ) (s : Listeners)
      → length s.table ≤ max_listeners
      → since ≤ s.tries
      → Grows ip s (ensure bind ip s)
  unfolding ensure
  ensure-Grows ip s fits old = elim (Bool-cases (listens ip s.table)) [
    | inl at ↦ rw (at, ensure) (same-Grows ip s (λ short. inl at))
    | inr new ↦ rw (new, ensure) (add-Grows ip s fits old)
  ]

  -- All the wanted addresses of the pass.
  pub ensure_all-Served :
      (ips : List (List ℕ)) (s : Listeners)
      → All (λ ip. length ip ≤ 45) ips
      → All Wants ips
      → length s.table ≤ max_listeners
      → since ≤ s.tries
      → All (Live s) s.table
      → All (λ ip. Served ip (ensure_all bind ips s)) ips
        × ((other : List ℕ) → Served other s → Served other (ensure_all bind ips s))
        × (length (ensure_all bind ips s).table ≤ max_listeners)
        × ((ensure_all bind ips s).closed ≡ s.closed)
        × All (Live (ensure_all bind ips s)) (ensure_all bind ips s).table
  unfolding ensure_all
  ensure_all-Served [] s short wants fits old live = (tt, (λ other v. v), fits, refl, live)
  ensure_all-Served (ip ∷ ips) s (one, short) (want, wants) fits old live =
      let (served, keeps, grows, same, more, lives) = ensure-Grows ip s fits old in
      let (all, still, end, same', live') =
        ensure_all-Served ips (ensure bind ip s) short wants (grows fits) (omega (arith, more))
          (lives one want live) in
      (
        (still ip (served one), all),
        (λ other v. still other (keeps other v)),
        end,
        same' ∙ same,
        live',
      )

-- Each address of a list is in it.
pub in_list :
    (ips list : List (List ℕ))
    → ((ip : List ℕ) → addr_in_list ip ips ≡ true → addr_in_list ip list ≡ true)
    → All (λ ip. is_wanted list ip ≡ true) ips
unfolding addr_in_list
in_list [] list f = tt
in_list (ip ∷ ips) list f = (
  or_true (is_permanent_addr ip) (addr_in_list ip list) (f ip (rw (bytes_eq_refl ip) refl)),
  in_list ips list (λ other h. f other (later_on other h (bytes_eq other ip))),
)
  where
    or_true : (a b : Bool) → b ≡ true → (a || b) ≡ true
    or_true true b h = refl
    or_true false b h = h

    later_on :
        (other : List ℕ)
        → addr_in_list other ips ≡ true
        → (b : Bool) → (if b then true else addr_in_list other ips) ≡ true
    later_on other h true = refl
    later_on other h false = h
