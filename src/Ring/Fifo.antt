-- ===== src/Ring/Fifo.antt =====
-- The rings are queues: first in, first out.
use native.Mathlib.Nat.{mod-eq_of_lt, mod-eq-sub-mod, mod-lt}
use native.Mathlib.Decide.{ℕ_discrete, dec_lt}
use g_proxy_pro.Base.{
  ℕ, zero, suc, ◌+◌, ◌-◌, ◌%◌, ◌≤◌, ◌<◌, ◌≡◌, ◌≢◌, ◌⊎◌, inl, inr, refl, sym, ap, ◌∙◌, arith, true,
  false, some, List, [], ◌∷◌, ◌++◌, ltb, Bool-cases, length, length-set, length-append, get_elem?,
  get_elem?-set_self, get_elem?-set_ne, set,
}
use g_proxy_pro.Ring.{Ring, enqueue, dequeue}

wrap :
    (a size : ℕ)
    → a < size + size
    → ((a < size) × (a % size ≡ a)) ⊎ ((size ≤ a) × (a % size ≡ a - size))
wrap a size lt = elim (dec_lt a size) [
  | yes p ↦ inl (p, mod-eq_of_lt p)
  | no n ↦
      let e = mod-eq-sub-mod {n = a} {m = size} (omega arith) in
      inr (omega arith, e ∙ mod-eq_of_lt {n = a - size} {m = size} (omega arith))
]

tail-ne :
    (head i n size : ℕ) → head < size → i < n → n < size → (head + n) % size ≢ (head + i) % size
tail-ne head i n size h lt room e = elim (wrap (head + n) size (omega arith)) [
  | inl (a, ea) ↦ elim (wrap (head + i) size (omega arith)) [
    | inl (b, eb) ↦ omega arith
    | inr (b, eb) ↦ omega arith
  ]
  | inr (a, ea) ↦ elim (wrap (head + i) size (omega arith)) [
    | inl (b, eb) ↦ omega arith
    | inr (b, eb) ↦ omega arith
  ]
]

next-shift :
    (head n size : ℕ)
    → head < size
    → n < size
    → ((head + 1) % size + n) % size ≡ (head + suc n) % size
next-shift head n size h room = elim (wrap (head + 1) size (omega arith)) [
  | inl (a, ea) ↦ ap (λ k. k % size) (omega arith)
  | inr (a, ea) ↦
      let back : head + suc n ≡ n + size = omega arith in
      let first : (head + 1) % size ≡ 0 = omega arith in
      rw (first, back)
        (sym (
          mod-eq-sub-mod {n = n + size} {m = size} (omega arith)
          ∙ ap (λ k. k % size) (omega arith)))
]

tail-next :
    (head n size : ℕ)
    → head < size
    → n < size
    → ((head + n) % size + 1) % size ≡ (head + suc n) % size
tail-next head n size h room = elim (wrap (head + n) size (omega arith)) [
  | inl (a, ea) ↦ ap (λ k. k % size) (omega arith)
  | inr (a, ea) ↦
      ap (λ k. k % size) (omega arith)
      ∙ sym (mod-eq-sub-mod {n = head + suc n} {m = size} (omega arith))
]

module _ {ℓ} {A : Type ℓ} where
  get_elem?-append_left :
      (xs : List A) (x : A) (i : ℕ) → i < length xs → get_elem? (xs ++ x ∷ []) i ≡ get_elem? xs i
  get_elem?-append_left [] x i lt = absurd (omega arith)
  get_elem?-append_left (y ∷ xs) x zero lt = refl
  get_elem?-append_left (y ∷ xs) x (suc i) lt = get_elem?-append_left xs x i (omega arith)

  get_elem?-append_last : (xs : List A) (x : A) → get_elem? (xs ++ x ∷ []) (length xs) ≡ some x
  get_elem?-append_last [] x = refl
  get_elem?-append_last (y ∷ xs) x = get_elem?-append_last xs x

  -- The ring holds the list, oldest first.
  pub record Holds (r : Ring A) (xs : List A) : Type ℓ where
    pub whole : length r.items ≡ r.cap
    pub head_in : r.head < r.cap
    pub fits : length xs ≤ r.cap
    pub counted : r.count ≡ length xs
    pub tail_at : r.tail ≡ (r.head + r.count) % r.cap
    pub at : (i : ℕ) → i < length xs → get_elem? r.items ((r.head + i) % r.cap) ≡ get_elem? xs i

  -- A queue that holds `xs` and has room takes one more at its end, inside its array; a full one stays as
  -- it is and says so.
  pub enqueue-Holds :
      (r : Ring A) (xs : List A) (x : A)
      → Holds r xs
      → ((length xs ≡ r.cap) × (enqueue r x ≡ some (false, r)))
        ⊎ ((length xs < r.cap)
            × ((r' : Ring A) × (enqueue r x ≡ some (true, r'))
                × Holds r' (xs ++ x ∷ [])
                × (r'.cap ≡ r.cap)))
  unfolding enqueue
  enqueue-Holds r xs x h = elim (Bool-cases (ltb r.count r.cap)) [
    | inr full ↦ inl (ground (arith, h.counted, h.fits), rw full refl)
    | inl room ↦ inr (
      ground (arith, h.counted),
      (r', rw (room, inside) refl, held (ground (arith, h.counted)), refl),
    )
  ]
    where
      r' : Ring A
      r' = record r {
        items = set r.items r.tail x;
        tail = (r.tail + 1) % r.cap;
        count = r.count + 1;
      }

      tail_in : r.tail < r.cap
      tail_in = rw h.tail_at (mod-lt (r.head + r.count) (omega (arith, h.head_in)))

      inside : ltb r.tail (length r.items) ≡ true
      inside = ground (arith, tail_in, h.whole)

      held : length xs < r.cap → Holds r' (xs ++ x ∷ [])
      held room = record {
        whole = length-set r.items r.tail x ∙ h.whole;
        head_in = h.head_in;
        fits = omega (arith, length-append xs (x ∷ []));
        counted = omega (arith, length-append xs (x ∷ []), h.counted);
        tail_at =
            rw (h.tail_at, h.counted)
              (tail-next r.head (length xs) r.cap h.head_in room
                ∙ ap (λ k. (r.head + k) % r.cap) (omega arith));
        at = λ i lt. elim (ℕ_discrete i (length xs)) [
          | yes last ↦
              rw (last, get_elem?-append_last xs x, sym h.counted, sym h.tail_at)
                (get_elem?-set_self r.items r.tail x (omega (arith, tail_in, h.whole)))
          | no before ↦
              let below : i < length xs = omega (arith, length-append xs (x ∷ [])) in
              get_elem?-set_ne r.items r.tail ((r.head + i) % r.cap) x (λ e.
                tail-ne r.head i (length xs) r.cap h.head_in below room
                  (ap (λ k. (r.head + k) % r.cap) (sym h.counted) ∙ (sym h.tail_at ∙ e)))
              ∙ (h.at i below ∙ sym (get_elem?-append_left xs x i below))
        ];
      }

  -- A queue that is not empty gives its oldest, inside its array, and keeps the rest in order.
  pub dequeue-Holds :
      (r : Ring A) (x : A) (xs : List A)
      → Holds r (x ∷ xs)
      → (r' : Ring A) × (dequeue r ≡ some (x, r')) × Holds r' xs × (r'.cap ≡ r.cap)
  unfolding dequeue
  dequeue-Holds r x xs h = (
    record r { head = (r.head + 1) % r.cap; count = r.count - 1 },
    rw first refl,
    record {
      whole = h.whole;
      head_in = mod-lt (r.head + 1) (omega (arith, h.head_in));
      fits = omega (arith, h.fits);
      counted = omega (arith, h.counted);
      tail_at =
          h.tail_at
          ∙ (ap (λ k. (r.head + k) % r.cap) (omega (arith, h.counted))
              ∙ sym (
                  next-shift r.head (r.count - 1) r.cap h.head_in
                    (omega (arith, h.counted, h.fits))));
      at = λ i lt.
          ap (λ k. get_elem? r.items k)
            (next-shift r.head i r.cap h.head_in (omega (arith, h.fits)))
          ∙ h.at (suc i) (omega arith);
    },
    refl,
  )
    where
      first : get_elem? r.items r.head ≡ some x
      first =
          ap (λ k. get_elem? r.items k)
            (sym (ap (λ k. k % r.cap) (omega arith) ∙ mod-eq_of_lt h.head_in))
          ∙ h.at 0 (omega arith)
