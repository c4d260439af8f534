-- ===== src/Proto/Tests.antt =====
-- Datagrams, requests and credentials as they come in.
use g_proxy_pro.Base.{
  length, take, ℕ, ◌≡◌, ◌↔◌, ◌⊎◌, refl, arith, true, false, some, List, [], ◌∷◌, read_bytes,
}
use g_proxy_pro.Proto.{check_credentials, udp_parse, udp_encode, encode_reply}
use g_proxy_pro.Proto.Parse.{Reads, udp_parse-Reads}
use g_proxy_pro.Proto.Encode.{encode_lem}
use g_proxy_pro.Proto.RoundTrip.{udp_parse-udp_encode}
use g_proxy_pro.Proto.Credentials.{check_credentials_iff}

-- 1.2.3.4, port 80, and a payload of one byte.
abbrev dgram : List ℕ
dgram = 0 ∷ 0 ∷ 0 ∷ 1 ∷ 1 ∷ 2 ∷ 3 ∷ 4 ∷ 0 ∷ 80 ∷ 7 ∷ []

udp_parse_example : Reads dgram 11 (udp_parse dgram 11)
udp_parse_example = udp_parse-Reads dgram 11 (omega arith)

udp_parse-udp_encode_example :
    (d : List ℕ) × (n : ℕ) × (udp_encode
        (9 ∷ 9 ∷ 9 ∷ 9 ∷ 9 ∷ 9 ∷ 9 ∷ 9 ∷ 9 ∷ 9 ∷ 7 ∷ [])
        0
        false
        (1 ∷ 2 ∷ 3 ∷ 4 ∷ [])
        (0 ∷ 80 ∷ [])
      ≡ some (d, n))
    × (udp_parse d (length d)
        ≡ some (some (record { header_len = n; atyp = 1; addr = 4; port = 0 ∷ 80 ∷ [] })))
    × (read_bytes d 4 4 ≡ some (1 ∷ 2 ∷ 3 ∷ 4 ∷ []))
    × (read_bytes d n 1 ≡ some (7 ∷ []))
udp_parse-udp_encode_example =
    udp_parse-udp_encode false (1 ∷ 2 ∷ 3 ∷ 4 ∷ []) (0 ∷ 80 ∷ [])
      (9 ∷ 9 ∷ 9 ∷ 9 ∷ 9 ∷ 9 ∷ 9 ∷ 9 ∷ 9 ∷ 9 ∷ []) (7 ∷ []) refl refl refl

encode_example :
    let buf : List ℕ = 9 ∷ 9 ∷ 9 ∷ 9 ∷ 9 ∷ 9 ∷ 9 ∷ 9 ∷ 9 ∷ 9 ∷ 9 ∷ 9 ∷ [] in
    (udp_encode buf 1 false (1 ∷ 2 ∷ 3 ∷ 4 ∷ []) (0 ∷ 80 ∷ [])
      ≡ some (9 ∷ 0 ∷ 0 ∷ 0 ∷ 1 ∷ 1 ∷ 2 ∷ 3 ∷ 4 ∷ 0 ∷ 80 ∷ 9 ∷ [], 10))
    × (encode_reply buf 1 4 false (1 ∷ 2 ∷ 3 ∷ 4 ∷ []) (0 ∷ 80 ∷ [])
        ≡ some (9 ∷ 5 ∷ 4 ∷ 0 ∷ 1 ∷ 1 ∷ 2 ∷ 3 ∷ 4 ∷ 0 ∷ 80 ∷ 9 ∷ [], 10))
encode_example =
    encode_lem 4 false (1 ∷ 2 ∷ 3 ∷ 4 ∷ []) (0 ∷ 80 ∷ []) (9 ∷ [])
      (9 ∷ 9 ∷ 9 ∷ 9 ∷ 9 ∷ 9 ∷ 9 ∷ 9 ∷ 9 ∷ 9 ∷ []) (9 ∷ []) refl refl refl

check_credentials_example :
    let user : List ℕ = 117 ∷ 0 ∷ [] in
    let pass : List ℕ = 112 ∷ 119 ∷ [] in
    let r = check_credentials user 1 pass 2 (117 ∷ []) (112 ∷ 119 ∷ []) in
    ((r ≡ some true) ⊎ (r ≡ some false))
    × ((r ≡ some true) ↔ ((take 1 user ≡ 117 ∷ []) × (take 2 pass ≡ 112 ∷ 119 ∷ [])))
check_credentials_example =
    check_credentials_iff (117 ∷ 0 ∷ []) (112 ∷ 119 ∷ []) (117 ∷ []) (112 ∷ 119 ∷ []) 1 2
      (omega arith) (omega arith) (omega arith) (omega arith)
