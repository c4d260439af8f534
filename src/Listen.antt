-- ===== src/Listen.antt =====
-- The listeners of app/src/main/cpp/simple-socks5.c: once a second the sockets listened on are brought
-- in line with the addresses wanted. An address is the text of an IP literal, as a list of bytes.
-- `ours` says whether a descriptor still is our listener at an address (`listener_is_ours`), the same
-- throughout one pass; `bind` says what `socket`, `bind` and `listen` give at each attempt.
pub mod Ensure
pub mod Reconcile
pub mod Ours
mod Tests
use g_proxy_pro.Base.{
  ◌-◌, ℕ, zero, suc, ◌+◌, Bool, true, false, not, ◌&&◌, ◌||◌, Option, none, some, List, [], ◌∷◌,
  ◌++◌, leb, if◌then◌else◌, length, take, bytes_eq,
}

abbrev pub max_listeners : ℕ
max_listeners = 18

abbrev pub addr_size : ℕ
addr_size = 46

-- "127.0.0.1" and "::1".
abbrev pub loopback4 : List ℕ
loopback4 = 49 ∷ 50 ∷ 55 ∷ 46 ∷ 48 ∷ 46 ∷ 48 ∷ 46 ∷ 49 ∷ []

abbrev pub loopback6 : List ℕ
loopback6 = 58 ∷ 58 ∷ 49 ∷ []

pub record Listener : Type 0 where
  pub fd : ℕ
  pub addr : List ℕ

-- The table in use, the attempts to bind so far, and the descriptors closed.
pub record Listeners : Type 0 where
  pub table : List Listener
  pub tries : ℕ
  pub closed : List ℕ

unfoldable pub is_permanent_addr : List ℕ → Bool
is_permanent_addr ip = bytes_eq ip loopback4 || bytes_eq ip loopback6

unfoldable pub addr_in_list : List ℕ → List (List ℕ) → Bool
addr_in_list ip [] = false
addr_in_list ip (a ∷ list) = let rest = addr_in_list ip list in if bytes_eq ip a then true else rest

-- `addr_in_list` over the addresses of the table.
unfoldable pub listens : List ℕ → List Listener → Bool
listens ip [] = false
listens ip (l ∷ ls) = let rest = listens ip ls in if bytes_eq ip l.addr then true else rest

abbrev pub is_wanted : List (List ℕ) → List ℕ → Bool
is_wanted desired ip = is_permanent_addr ip || addr_in_list ip desired

pub add_listener_for_ip : (ℕ → List ℕ → Option ℕ) → List ℕ → Listeners → Listeners
add_listener_for_ip bind ip s =
    if leb max_listeners (length s.table) then s else elim (bind s.tries ip) [
      | none ↦ record s { tries = s.tries + 1 }
      | some fd ↦ record s {
        tries = s.tries + 1;
        table = s.table ++ record { fd = fd; addr = take (addr_size - 1) ip } ∷ [];
      }
    ]

-- A descriptor is closed only if it still is ours.
drop_listener : (ℕ → List ℕ → Bool) → Listener → List ℕ
drop_listener ours l = if ours l.fd l.addr then l.fd ∷ [] else []

-- What stays of the table, and what is closed.
sweep : (ℕ → List ℕ → Bool) → List (List ℕ) → List Listener → List Listener × List ℕ
sweep ours desired [] = ([], [])
sweep ours desired (l ∷ ls) =
    let (kept, closed) = sweep ours desired ls in
    if is_wanted desired l.addr && ours l.fd l.addr
    then (l ∷ kept, closed)
    else (kept, drop_listener ours l ++ closed)

pub ensure : (ℕ → List ℕ → Option ℕ) → List ℕ → Listeners → Listeners
ensure bind ip s = if listens ip s.table then s else add_listener_for_ip bind ip s

pub ensure_all : (ℕ → List ℕ → Option ℕ) → List (List ℕ) → Listeners → Listeners
ensure_all bind [] s = s
ensure_all bind (ip ∷ ips) s = ensure_all bind ips (ensure bind ip s)

pub reconcile :
    Bool → (ℕ → List ℕ → Bool) → (ℕ → List ℕ → Option ℕ) → List (List ℕ) → Listeners → Listeners
reconcile running ours bind desired s =
    if not running
    then s
    else (let (kept, closed) = sweep ours desired s.table in
        ensure_all bind desired (
          ensure bind loopback6
            (ensure bind loopback4 (record s { table = kept; closed = s.closed ++ closed }))))
