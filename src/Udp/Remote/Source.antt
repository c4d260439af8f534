-- ===== src/Udp/Remote/Source.antt =====
-- How a header names the source of a datagram.
use mathlib.Core.List.{append-nil}
use g_proxy_pro.Base.{drop, length-take, take-append-drop, read_bytes_all, read_bytes-append}
use g_proxy_pro.Base.{
  ℕ, ◌≡◌, sym, ap, ◌∙◌, arith, Bool, true, false, Option, some, List, [], ◌++◌, if◌then◌else◌,
  ◌>>=◌, length, length-append, take, bytes_eq, read_bytes, read_bytes-take,
}
use g_proxy_pro.Proto.Encode.{addr_size}
use g_proxy_pro.Sockaddr.{Sockaddr}
use g_proxy_pro.Udp.Remote.{v4_mapped, header_addr, v6_source}

-- The addresses that the system gives: 4 or 16 bytes, and two bytes of port.
pub record Sized (a : Sockaddr) : Type 0 where
  pub addr : length a.addr ≡ addr_size a.is_v6
  pub port : length a.port ≡ 2

-- How the header names a source: IPv4 where it is one, also in an IPv6 address that stands for it.
abbrev pub source_of : Bool → List ℕ → Bool × List ℕ
source_of false addr = (false, addr)
source_of true addr =
    if bytes_eq (take 12 addr) v4_mapped then (false, drop 12 addr) else (true, addr)

abbrev pub Reads : Option (Bool × List ℕ) → Bool × List ℕ → Type 0
Reads r p = (r ≡ some p) × (length p.1 ≡ addr_size p.0)

v6_source-Reads :
    (mapped : Bool) (addr : List ℕ)
    → length addr ≡ 16
    → Reads (v6_source mapped addr) (if mapped then (false, drop 12 addr) else (true, addr))
unfolding v6_source
v6_source-Reads true addr h =
    let cut = take-append-drop 12 addr in
    let front : length (take 12 addr) ≡ 12 = length-take 12 addr (omega arith) in
    let back : length (drop 12 addr) ≡ 4 =
      omega (arith, h, front, length-append (take 12 addr) (drop 12 addr), ap length cut) in
    let there : read_bytes (take 12 addr ++ (drop 12 addr ++ [])) 12 4 ≡ some (drop 12 addr) =
      read_bytes-append (take 12 addr) (drop 12 addr) [] 12 4 (sym front) (sym back) in
    let whole : take 12 addr ++ (drop 12 addr ++ []) ≡ addr =
      ap (λ l. take 12 addr ++ l) (append-nil (drop 12 addr)) ∙ cut in
    (ap (λ m. m >>= λ x. some (false, x)) (ap (λ l. read_bytes l 12 4) (sym whole) ∙ there), back)
v6_source-Reads false addr h = (ap (λ m. m >>= λ x. some (true, x)) (read_bytes_all addr 16 h), h)

pub header_addr-Reads :
    (v6 : Bool) (addr : List ℕ)
    → length addr ≡ addr_size v6
    → Reads (header_addr v6 addr) (source_of v6 addr)
unfolding header_addr
header_addr-Reads false addr h = (ap (λ m. m >>= λ x. some (false, x)) (read_bytes_all addr 4 h), h)
header_addr-Reads true addr h =
    let (e, l) = v6_source-Reads (bytes_eq (take 12 addr) v4_mapped) addr h in
    (
      ap (λ m. m >>= λ lead. v6_source (bytes_eq lead v4_mapped) addr)
            (read_bytes-take addr 12 (omega (arith, h)))
          ∙ e,
      l,
    )

pub record Named (a : Sockaddr) : Type 0 where
  pub is_v6 : Bool
  pub addr : List ℕ
  pub found : header_addr a.is_v6 a.addr ≡ some (is_v6, addr)
  pub full : length addr ≡ addr_size is_v6

abbrev pub named : (a : Sockaddr) → Sized a → Named a
named a h =
    let p = source_of a.is_v6 a.addr in
    let (e, l) = header_addr-Reads a.is_v6 a.addr h.addr in
    record { is_v6 = p.0; addr = p.1; found = e; full = l }
