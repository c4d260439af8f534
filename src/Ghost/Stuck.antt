-- ===== src/Ghost/Stuck.antt =====
-- The table of stuck events: all TCP slots share its first entry, so two that alternate are never
-- purged.
use g_proxy_pro.Base.{
  ℕ, ◌+◌, ◌*◌, ◌/◌, ◌^◌, ◌<◌, ◌≡◌, ◌≢◌, refl, ap, sym, subst, ◌∙◌, arith, bit_and, false, some,
  List, [], ◌∷◌, get_elem?, set, get_elem?-lt, get_elem?-set_self,
}
use g_proxy_pro.Base.Bits.{bit_and_split, bit_and_mask, bit_and-zero}
use g_proxy_pro.Event.Words.{shift_or}
use g_proxy_pro.Event.Conn.{event_id}
use g_proxy_pro.Ghost.{
  StuckEntry, Ghost, Env, should_purge, stuck_index, count_event, store_entry, stuck_track,
  track_all,
}

-- The hash of every TCP event word is 0: the bits that it takes lie between the slot, which is below
-- 2^13, and the generation, from bit 32 on.
pub stuck_index-event_id :
    (gen slot : ℕ) → gen < 2 ^ 32 → slot < 2 ^ 13 → stuck_index (event_id gen slot) ≡ 0
unfolding stuck_index event_id
stuck_index-event_id gen slot hg hs = rw (shift_or gen slot hg (omega arith)) (
    ap (λ x. bit_and x 511) split
    ∙ bit_and_split 9 (gen * 2 ^ 10) 0 0 511 (omega arith) (omega arith)
    ∙ omega (arith, bit_and-zero (gen * 2 ^ 10), bit_and_mask 9 0 (omega arith)))
  where
    split : (gen * 2 ^ 32 + slot) / 2 ^ 13 ≡ gen * 2 ^ 10 * 2 ^ 9 + 0
    split = omega arith

count_event_other :
    (e : StuckEntry) (u64 now : ℕ)
    → e.u64 ≢ u64
    → ((count_event e u64 now).u64 ≡ u64) × ((count_event e u64 now).count ≡ 1)
unfolding count_event
count_event_other e u64 now ne = ground arith

store_entry_quiet :
    (env : Env) (g : Ghost) (u64 i : ℕ) (e : StuckEntry)
    → should_purge e.count ≡ false
    → store_entry env g u64 i e ≡ (record g { stuck = set g.stuck i e }, [])
unfolding store_entry
store_entry_quiet env g u64 i e quiet = rw quiet refl

-- One event of another stamp than the first entry's takes the entry over, and deletes nothing.
stuck_track_other :
    (env : Env) (g : Ghost) (u64 now : ℕ) (e : StuckEntry)
    → stuck_index u64 ≡ 0
    → get_elem? g.stuck 0 ≡ some e
    → e.u64 ≢ u64
    → stuck_track env g u64 now
      ≡ some (record g { stuck = set g.stuck 0 (count_event e u64 now) }, [])
unfolding stuck_track should_purge
stuck_track_other env g u64 now e at ee ne =
    rw (at, ee, stuck_track)
      (rw at (
        ap some (
          store_entry_quiet env g u64 0 (count_event e u64 now)
            (rw (count_event_other e u64 now ne).1 refl))))

-- Every call is for an event of a TCP slot, and no event word comes twice in a row, nor right after
-- `last`.
abbrev pub Alternates : ℕ → List (Env × ℕ × ℕ) → Type 0
Alternates last [] = Unit {0}
Alternates last ((env, u64, now) ∷ calls) =
    ((gen : ℕ) × (slot : ℕ) × (gen < 2 ^ 32) × (slot < 1088) × (u64 ≡ event_id gen slot))
    × (last ≢ u64)
    × Alternates u64 calls

-- Let the first event word of a sequence of residual events of TCP slots be another than the one in the
-- first entry of the table, and no word come twice in a row. However long it goes on, the sequence never
-- deletes a registration and never counts a purge.
pub alternating_never_purges :
    (calls : List (Env × ℕ × ℕ)) (g : Ghost) (e : StuckEntry)
    → get_elem? g.stuck 0 ≡ some e
    → Alternates e.u64 calls
    → (g' : Ghost) × (track_all g calls ≡ some (g', [])) × (g'.ghost_purged ≡ g.ghost_purged)
unfolding track_all
alternating_never_purges [] g e at alt = (g, refl, refl)
alternating_never_purges ((env, u64, now) ∷ calls) g e at
      ((gen, slot, hg, hs, same_word), ne, alt) =
    let ix = ap stuck_index same_word ∙ stuck_index-event_id gen slot hg (omega arith) in
    let first = count_event e u64 now in
    let g1 : Ghost = record g { stuck = set g.stuck 0 first } in
    let (g', run, same) =
      alternating_never_purges calls g1 first
        (get_elem?-set_self g.stuck 0 first (get_elem?-lt g.stuck 0 at))
        (subst (λ u. Alternates u calls) (sym (count_event_other e u64 now ne).0) alt) in
    (g', rw (stuck_track_other env g u64 now e ix at ne, run, track_all) refl, same)
