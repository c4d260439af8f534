-- ===== src/Proto/Credentials.antt =====
-- Method negotiation and the comparison of credentials, RFC 1928 §3 and RFC 1929.
use g_proxy_pro.Base.{
  ap, ℕ, ◌%◌, ◌≤◌, ◌≡◌, refl, ◌↔◌, ◌⊎◌, inl, inr, true, false, some, List, [], ◌∷◌, ◌++◌, arith,
  ◌==◌, Bool-cases, length, take, bytes_eq, bytes_eq_sound, bytes_eq_refl, read_bytes-take,
  read_bytes-append, length-take,
}
use g_proxy_pro.Proto.{method_offered, field_ok, check_credentials, validate_request_header}

-- Whether a method stands in a list.
abbrev pub Offers : ℕ → List ℕ → Type 0
Offers m [] = ⊥
Offers m (x ∷ xs) = (x ≡ m) ⊎ Offers m xs

-- Negotiation finds a method exactly if the client's list of `nmethods` bytes has it, whatever stands
-- in the buffer behind the list.
pub method_offered_iff :
    (methods rest : List ℕ) (desired : ℕ)
    → let r = method_offered (methods ++ rest) (length methods) desired in
      ((r ≡ some true) × Offers desired methods) ⊎ ((r ≡ some false) × (¬ Offers desired methods))
unfolding method_offered
method_offered_iff [] rest desired = inr (refl, λ h. h)
method_offered_iff (m ∷ methods) rest desired = elim (Bool-cases (m == desired)) [
  | inl hit ↦ inl (rw hit refl, inl (ground arith))
  | inr miss ↦ elim (method_offered_iff methods rest desired) [
    | inl (e, o) ↦ inl (rw (miss, e) refl, inr o)
    | inr (e, o) ↦ inr (rw (miss, e) refl, λ h. elim h [ inl q ↦ ground arith | inr q ↦ o q ])
  ]
]

-- The bytes of a field against a configured text of at most 255 bytes: all of the field counts.
field_ok_lem :
    (field expected : List ℕ) (len : ℕ)
    → length expected ≤ 255
    → len ≤ length field
    → field_ok field len expected ≡ some (bytes_eq (take len field) expected)
unfolding field_ok
field_ok_lem field expected len short room = elim (Bool-cases (len == length expected % 256)) [
  | inl same ↦
      rw
        (
          same,
          read_bytes-take field len room,
          read_bytes-append [] expected (0 ∷ []) 0 len refl (ground arith),
        )
        refl
  | inr differ ↦ rw differ (elim (Bool-cases (bytes_eq (take len field) expected)) [
    | inl e ↦ absurd (
        ground (
          arith,
          ap length (bytes_eq_sound (take len field) expected e),
          length-take len field room,
        ))
    | inr e ↦ rw e refl
  ])
]

-- With a configured user and password of at most 255 bytes each, and all the bytes of the two fields in
-- their buffers, the check reads inside the buffers and accepts exactly if the client's user and
-- password are the configured ones, byte for byte and in full length.
pub check_credentials_iff :
    (user pass expected_user expected_pass : List ℕ) (ulen plen : ℕ)
    → length expected_user ≤ 255
    → length expected_pass ≤ 255
    → ulen ≤ length user
    → plen ≤ length pass
    → let r = check_credentials user ulen pass plen expected_user expected_pass in
      ((r ≡ some true) ⊎ (r ≡ some false))
      × ((r ≡ some true) ↔ ((take ulen user ≡ expected_user) × (take plen pass ≡ expected_pass)))
unfolding check_credentials
check_credentials_iff user pass eu ep ulen plen su sp ru rp =
    rw (field_ok_lem user eu ulen su ru, field_ok_lem pass ep plen sp rp)
      (
        ground arith,
        (
          (λ h. (
            bytes_eq_sound (take ulen user) eu (ground arith),
            bytes_eq_sound (take plen pass) ep (ground arith),
          )),
          λ h. rw (h.0, h.1, bytes_eq_refl eu, bytes_eq_refl ep) refl,
        ),
      )

-- A request header of four bytes is accepted exactly if it says version 5, reserved 0, and one of the
-- address types 1, 3 and 4; the command is not looked at.
pub validate_request_header_iff :
    (ver cmd rsv atyp : ℕ) (rest : List ℕ)
    → let r = validate_request_header (ver ∷ cmd ∷ rsv ∷ atyp ∷ rest) in
      ((r ≡ some true) ⊎ (r ≡ some false))
      × ((r ≡ some true) ↔ ((ver ≡ 5) × (rsv ≡ 0) × ((atyp ≡ 1) ⊎ ((atyp ≡ 3) ⊎ (atyp ≡ 4)))))
unfolding validate_request_header
validate_request_header_iff ver cmd rsv atyp rest =
    (ground arith, ((λ h. ground arith), λ h. ground arith))
