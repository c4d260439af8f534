-- ===== src/Tcp/Life/Handoff/Outcome.antt =====
-- The two ends of a hand-over, as a caller sees them.
use g_proxy_pro.Base.{◌≢◌, bit_or}
use g_proxy_pro.Base.{
  ℕ, ◌-◌, ◌≡◌, ◌⊎◌, Bool, true, false, ◌&&◌, some, List, [], ◌∷◌, ◌++◌, get_elem?,
}
use g_proxy_pro.Slots.Inv.{IsValid, actives}
use g_proxy_pro.Event.Conn.{event_id, target_flag}
use g_proxy_pro.Tcp.{FullConn, tcp_slotted}
use g_proxy_pro.Tcp.Life.{Effect, close, release_java, free_bufs}
use g_proxy_pro.Tcp.Life.Handoff.{Engine, Circumstances, events, target_word}
use g_proxy_pro.Ghost.{stamp_record}

module _ (client target : ℕ) where
  -- Both registrations succeed.
  abbrev pub accepted : Circumstances → ℕ → Bool
  accepted w word =
      w.add client (events w 0 client target) word
      && w.add target (events w 0 client target) (bit_or word target_flag)

  -- Why a connection with a slot is given up: a buffer is missing, the worker is stopping, or one of
  -- the two registrations fails.
  abbrev pub Failed : Circumstances → ℕ → Type 0
  Failed w word =
      ((w.c2t_given && w.t2c_given) ≡ false)
      ⊎ (((w.c2t_given && w.t2c_given) ≡ true)
          × ((w.stopping ≡ true) ⊎ ((w.stopping ≡ false) × (accepted w word ≡ false))))

  -- Why, and what has been closed and freed: the Java side of the target's descriptor before the
  -- descriptor itself, and the buffers that there are.
  abbrev pub Closed : Circumstances → ℕ → Engine → List Effect → Type 0
  Closed w n g after =
      ((actives g.table.slot_state ≡ n)
        × (after ≡ g.shared.effects ++ release_java target ∷ close client ∷ close target ∷ []))
      ⊎ ((slot : ℕ) × (gen : ℕ) × (get_elem? g.table.slot_state slot ≡ some false)
          × Failed w (event_id gen slot)
          × (after
              ≡ g.shared.effects
                ++ close client
                  ∷ release_java target
                  ∷ close target
                  ∷ free_bufs w.c2t_given w.t2c_given))

  -- The slots in use are as they were.
  abbrev pub Untouched : Engine → Engine → Type 0
  Untouched g g' =
      (i : ℕ)
      → get_elem? g.table.slot_state i ≡ some true
      → get_elem? g'.table.slots i ≡ get_elem? g.table.slots i

  -- Nothing is left of the connection.
  pub record Undone (w : Circumstances) (n : ℕ) (g g' : Engine) : Type 0 where
    pub valid : IsValid n g'.table
    pub slots : (i : ℕ) → get_elem? g'.table.slot_state i ≡ get_elem? g.table.slot_state i
    pub untouched : Untouched g g'
    pub list : g'.shared.list ≡ g.shared.list
    pub conn_count : g'.shared.conn_count ≡ g.shared.conn_count - 1
    pub closed : Closed w n g g'.shared.effects
    pub added : g'.added ≡ g.added
    pub ghost : g'.ghost ≡ g.ghost

  -- The connection is the worker's: its slot was free and is in use, it has one reference, both
  -- descriptors are registered under the words of the slot and its generation, and it is in the list.
  pub record Owned (w : Circumstances) (n : ℕ) (g g' : Engine) : Type 0 where
    pub slot : ℕ
    pub conn : FullConn
    pub valid : IsValid n g'.table
    pub was_idle : get_elem? g.table.slot_state slot ≡ some false
    pub now_used : get_elem? g'.table.slot_state slot ≡ some true
    pub others :
        (i : ℕ) → slot ≢ i → get_elem? g'.table.slot_state i ≡ get_elem? g.table.slot_state i
    pub untouched : Untouched g g'
    pub at : get_elem? g'.table.slots slot ≡ some conn
    pub buffers : (w.c2t_given && w.t2c_given) ≡ true
    pub runs : w.stopping ≡ false
    pub accepts : accepted w conn.ep_u64 ≡ true
    pub refs : conn.refs ≡ 1
    pub ready : conn.registered ≡ true
    pub not_closed : conn.closed ≡ false
    pub own_slot : conn.slot ≡ slot
    pub fds : (conn.client_fd ≡ some client) × (conn.target_fd ≡ some target)
    pub word : conn.ep_u64 ≡ event_id conn.gen slot
    pub list : g'.shared.list ≡ slot ∷ g.shared.list
    pub conn_count : g'.shared.conn_count ≡ g.shared.conn_count
    pub effects : g'.shared.effects ≡ g.shared.effects
    pub added :
        g'.added
        ≡ g.added
          ++ record { fd = client; word = conn.ep_u64 }
            ∷ record { fd = target; word = target_word w 0 client target conn }
            ∷ []
    pub ghost :
        g'.ghost ≡ stamp_record w.files g.ghost conn.ep_u64 (some client) (some target) conn.widx
