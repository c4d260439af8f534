-- ===== src/Ghost/Purge.antt =====
-- What a purge takes out of the epoll sets.
use g_proxy_pro.Base.{
  ℕ, ◌+◌, ◌≡◌, ◌≢◌, ◌⊎◌, inl, inr, refl, arith, false, not, ◌&&◌, ◌||◌, Option, none, some, List,
  [], ◌∷◌, ◌++◌, ltb, ◌==◌, Bool-cases, Option-cases,
}
use g_proxy_pro.Ghost.{
  Stamp, Ghost, Env, fd_id, find_stamp, still_open, delete_one, fast_deletes, delete_everywhere,
  scan_entry, scan, purge_stamp, stamp_purge,
}

-- A descriptor that now is what the stamp's client or target was at registration.
abbrev pub IsRecorded : Env → Stamp → ℕ → Type 0
IsRecorded env s fd =
    (id : ℕ) × (fd_id env fd ≡ some id) × (id ≢ 0) × ((id ≡ s.c_ino) ⊎ (id ≡ s.t_ino))

abbrev pub All {ℓ κ} : {A : Type ℓ} → (A → Type κ) → List A → Type κ
All P [] = Unit
All P (x ∷ xs) = P x × All P xs

All-append {ℓ κ} :
    {A : Type ℓ} (P : A → Type κ) (xs ys : List A) → All P xs → All P ys → All P (xs ++ ys)
All-append P [] ys hx hy = hy
All-append P (x ∷ xs) ys hx hy = (hx.0, All-append P xs ys hx.1 hy)

find_stamp-u64 :
    (ring : List Stamp) (u64 : ℕ) (s : Stamp) → find_stamp ring u64 ≡ some s → s.u64 ≡ u64
unfolding find_stamp
find_stamp-u64 [] u64 s h = cc
find_stamp-u64 (x ∷ ring) u64 s h = ground (arith, find_stamp-u64 ring u64 s)

module _ (env : Env) (s : Stamp) where
  abbrev Target : ℕ × ℕ → Type 0
  Target d = IsRecorded env s d.1

  -- What `still_open` lets through.
  abbrev Open : Option ℕ → Type 0
  Open none = Unit {0}
  Open (some fd) = IsRecorded env s fd

  still_open-Open :
      (fd : Option ℕ) (ino : ℕ) → (ino ≡ s.c_ino) ⊎ (ino ≡ s.t_ino) → Open (still_open env fd ino)
  unfolding still_open
  still_open-Open none ino h = tt
  still_open-Open (some fd) ino h = elim (Bool-cases (ino == 0)) [
    | inl zero_id ↦ rw zero_id tt
    | inr real ↦ rw real (elim (Option-cases (fd_id env fd)) [
      | inl n ↦ rw n tt
      | inr (id, e) ↦ rw e (elim (Bool-cases (id == ino)) [
        | inl same ↦ rw same (id, e, ground arith, ground arith)
        | inr other ↦ rw other tt
      ])
    ])
  ]

  delete_one-All : (o : Option ℕ) (w : ℕ) → Open o → All Target (delete_one o w)
  unfolding delete_one
  delete_one-All none w h = tt
  delete_one-All (some fd) w h = (h, tt)

  fast_deletes-All :
      (ws : List ℕ) (c t : Option ℕ) → Open c → Open t → All Target (fast_deletes ws c t)
  unfolding fast_deletes
  fast_deletes-All [] c t hc ht = tt
  fast_deletes-All (w ∷ ws) c t hc ht =
      All-append Target (delete_one c w) _ (delete_one-All c w hc) (
        All-append Target (delete_one t w) _ (delete_one-All t w ht)
          (fast_deletes-All ws c t hc ht))

  delete_everywhere-All :
      (ws : List ℕ) (fd : ℕ) → IsRecorded env s fd → All Target (delete_everywhere ws fd)
  unfolding delete_everywhere
  delete_everywhere-All [] fd h = tt
  delete_everywhere-All (w ∷ ws) fd h = (h, delete_everywhere-All ws fd h)

  scan_entry-All : (ws name : List ℕ) → All Target (scan_entry env ws s.c_ino s.t_ino name)
  unfolding scan_entry
  scan_entry-All ws [] = tt
  scan_entry-All ws (c ∷ name) = elim (Bool-cases (ltb c b'0' || ltb b'9' c)) [
    | inl skip ↦ rw skip tt
    | inr digit ↦ rw digit (elim (Option-cases (env.atoi (c ∷ name))) [
      | inl negative ↦ rw negative tt
      | inr (fd, number) ↦ rw number (elim (Option-cases (fd_id env fd)) [
        | inl n ↦ rw n tt
        | inr (id, e) ↦
            rw e
              (elim (Bool-cases (
                (not (s.c_ino == 0) && (id == s.c_ino))
                || (not (s.t_ino == 0) && (id == s.t_ino)))) [
                  | inl same ↦
                      rw same (delete_everywhere-All ws fd (id, e, ground arith, ground arith))
                  | inr other ↦ rw other tt
                ])
      ])
    ])
  ]

  scan-All :
      (ws : List ℕ) (entries : List (List ℕ)) → All Target (scan env ws s.c_ino s.t_ino entries)
  unfolding scan
  scan-All ws [] = tt
  scan-All ws (e ∷ entries) =
      All-append Target (scan_entry env ws s.c_ino s.t_ino e) _ (scan_entry-All ws e)
        (scan-All ws entries)

  purge_stamp-All : (g : Ghost) → All Target (purge_stamp env g s).deletes
  unfolding purge_stamp
  purge_stamp-All g = elim (Bool-cases (ltb env.now_ms (g.last_scan_ms + 200))) [
    | inl soon ↦ rw (soon, purge_stamp) fast
    | inr due ↦ elim (Bool-cases env.exchange_ok) [
      | inr lost ↦ rw (due, lost, purge_stamp) fast
      | inl won ↦ elim (Option-cases env.proc_self_fd) [
        | inl n ↦ rw (due, won, n, purge_stamp) fast
        | inr (entries, e) ↦
            rw (due, won, e, purge_stamp)
              (All-append Target _ _ fast (scan-All g.purge_epoll_fds entries))
      ]
    ]
  ]
    where
      fast : All Target (
          fast_deletes g.purge_epoll_fds
            (still_open env s.client_fd s.c_ino)
            (still_open env s.target_fd s.t_ino))
      fast =
          fast_deletes-All g.purge_epoll_fds _ _ (still_open-Open s.client_fd s.c_ino (inl refl))
            (still_open-Open s.target_fd s.t_ino (inr refl))

-- A purge takes nothing out if no stamp is recorded for the word. If one is, then, whatever the system
-- calls give, each descriptor that it takes out of an epoll set is open and has now the identity that
-- the stamp recorded for its client or its target, and that identity is known (not 0): a descriptor
-- whose number has gone to another connection is left alone.
pub stamp_purge_safe :
    (env : Env) (g : Ghost) (u64 : ℕ)
    → ((find_stamp g.stamp_ring u64 ≡ none)
        × (stamp_purge env g u64
            ≡ record { found = false; deletes = []; last_scan_ms = g.last_scan_ms }))
      ⊎ ((s : Stamp) × (find_stamp g.stamp_ring u64 ≡ some s)
          × (s.u64 ≡ u64)
          × All (λ d. IsRecorded env s d.1) (stamp_purge env g u64).deletes)
unfolding stamp_purge
stamp_purge_safe env g u64 = elim (Option-cases (find_stamp g.stamp_ring u64)) [
  | inl n ↦ inl (n, rw (n, stamp_purge) refl)
  | inr (s, e) ↦
      inr (s, e, find_stamp-u64 g.stamp_ring u64 s e, rw (e, stamp_purge) (purge_stamp-All env s g))
]
