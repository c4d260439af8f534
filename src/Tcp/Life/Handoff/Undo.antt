-- ===== src/Tcp/Life/Handoff/Undo.antt =====
-- Giving up a connection that has one reference: `conn_unref` and `conn_finalize`.
use g_proxy_pro.Base.{
  ℕ, ◌+◌, ◌-◌, ◌%◌, ◌^◌, ◌≡◌, inl, inr, refl, ap, arith, true, false, none, some, List, [], ◌∷◌,
  ◌++◌, ◌==◌, Bool-cases, get_elem?,
}
use g_proxy_pro.Slots.{Table}
use g_proxy_pro.Slots.Stale.{written-IsValid}
use g_proxy_pro.Slots.Inv.{IsValid, Released, release-Released}
use g_proxy_pro.Tcp.{FullConn, tcp_slotted}
use g_proxy_pro.Tcp.Life.{
  free_bufs, close_client, close_target, Shared, remove, unref, finalize, give_back,
}
use g_proxy_pro.Tcp.Life.Handoff.{Engine, put, release_slot, drop_ref}

-- What the end of a connection gives back.
abbrev pub back : FullConn → Shared → Shared
back c s = record s {
  list = remove c.slot s.list;
  conn_count = s.conn_count - 1;
  effects =
      s.effects
      ++ (close_client c.client_fd
          ++ (close_target c.target_fd ++ free_bufs c.has_c2t_buf c.has_t2c_buf));
}

abbrev pub over : FullConn → FullConn
over c = record c {
  refs = (1 + (2 ^ 32 - 1)) % 2 ^ 32;
  finalized = true;
  magic = 0;
  client_fd = none;
  target_fd = none;
  has_c2t_buf = false;
  has_t2c_buf = false;
}

-- The one reference of a connection is dropped.
pub drop_ref_lem :
    (n : ℕ) (c : FullConn) (g : Engine)
    → IsValid n g.table
    → get_elem? g.table.slot_state c.slot ≡ some true
    → c.refs ≡ 1
    → c.finalized ≡ false
    → (t : Table FullConn) × (drop_ref c g
        ≡ some (record g { table = t; shared = back c g.shared }))
      × Released n (put (over c) g.table) c.slot t
unfolding drop_ref release_slot unref finalize give_back
drop_ref_lem n c g v used one first =
    let (t, e, r) = release-Released (written-IsValid c.slot (over c) v) c.slot used in
    (t, rw (one, first) (rw e refl), r)

-- Every slot of the worker's list is in use.
abbrev pub InUse : Table FullConn → List ℕ → Type 0
InUse t [] = Unit {0}
InUse t (i ∷ is) = (get_elem? t.slot_state i ≡ some true) × InUse t is

pub remove_idle :
    (t : Table FullConn) (slot : ℕ) (is : List ℕ)
    → InUse t is
    → get_elem? t.slot_state slot ≡ some false
    → remove slot is ≡ is
unfolding remove
remove_idle t slot [] h idle = refl
remove_idle t slot (i ∷ is) (used, h) idle = elim (Bool-cases (i == slot)) [
  | inl same ↦
      let e : i ≡ slot = ground arith in
      absurd (cc (used, idle, ap (λ j. get_elem? t.slot_state j) e))
  | inr other ↦ rw other (ap (λ l. i ∷ l) (remove_idle t slot is h idle))
]
