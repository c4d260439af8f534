-- ===== src/Base/Buffers.antt =====
-- Byte buffers: a read or a write that leaves the buffer is `none`.
use Prim.Native.Nat.{ℕ, zero, suc, ◌+◌, ◌≤◌}
use mathlib.Core.Path.{◌≡◌, refl, sym, ap, ◌∙◌}
use mathlib.Core.Bool.{Bool, true, false, ◌&&◌}
use mathlib.Core.List.{List, [], ◌∷◌, ◌++◌, append_assoc}
use mathlib.Core.Option.{Option, none, some}
use native.Mathlib.Omega.{arith}
use g_proxy_pro.Base.Tests.{◌==◌, ◌>>=◌, >>=_assoc}
use g_proxy_pro.Base.Lists.{length, take, length-append}

-- Equality of two byte strings, as `strcmp` and `memcmp` of equal lengths give it.
unfoldable pub bytes_eq : List ℕ → List ℕ → Bool
bytes_eq [] [] = true
bytes_eq [] (y ∷ ys) = false
bytes_eq (x ∷ xs) [] = false
bytes_eq (x ∷ xs) (y ∷ ys) = x == y && bytes_eq xs ys

pub bytes_eq_sound : (xs ys : List ℕ) → bytes_eq xs ys ≡ true → xs ≡ ys
unfolding bytes_eq
bytes_eq_sound [] [] h = refl
bytes_eq_sound [] (y ∷ ys) h = cc
bytes_eq_sound (x ∷ xs) [] h = cc
bytes_eq_sound (x ∷ xs) (y ∷ ys) h = ground (arith, bytes_eq_sound xs ys)

pub bytes_eq_refl : (xs : List ℕ) → bytes_eq xs xs ≡ true
unfolding bytes_eq
bytes_eq_refl [] = refl
bytes_eq_refl (x ∷ xs) = ground (arith, bytes_eq_refl xs)

-- `memcpy(.., buf + off, n)`: the `n` bytes of a buffer from `off` on.
unfoldable pub read_bytes : List ℕ → ℕ → ℕ → Option (List ℕ)
read_bytes buf zero zero = some []
read_bytes [] zero (suc n) = none
read_bytes (b ∷ buf) zero (suc n) = read_bytes buf zero n >>= λ bs. some (b ∷ bs)
read_bytes [] (suc off) n = none
read_bytes (b ∷ buf) (suc off) n = read_bytes buf off n

-- `memcpy(buf + off, bs, ..)`: the buffer with `bs` over the bytes from `off` on.
unfoldable pub write_bytes : List ℕ → ℕ → List ℕ → Option (List ℕ)
write_bytes buf zero [] = some buf
write_bytes [] zero (x ∷ xs) = none
write_bytes (b ∷ buf) zero (x ∷ xs) = write_bytes buf zero xs >>= λ r. some (x ∷ r)
write_bytes [] (suc off) xs = none
write_bytes (b ∷ buf) (suc off) xs = write_bytes buf off xs >>= λ r. some (b ∷ r)

-- A read inside the buffer succeeds.
pub read_bytes_total :
    (buf : List ℕ) (off n : ℕ)
    → off + n ≤ length buf
    → (bs : List ℕ) × (read_bytes buf off n ≡ some bs) × (length bs ≡ n)
unfolding read_bytes
read_bytes_total buf zero zero h = ([], refl, refl)
read_bytes_total [] zero (suc n) h = absurd (omega arith)
read_bytes_total (b ∷ buf) zero (suc n) h =
    let (bs, e, l) = read_bytes_total buf zero n (omega arith) in (b ∷ bs, rw e refl, ap suc l)
read_bytes_total [] (suc off) n h = absurd (omega arith)
read_bytes_total (b ∷ buf) (suc off) n h = read_bytes_total buf off n (omega arith)

-- A read of the middle of three parts.
pub read_bytes-append :
    (xs bs ys : List ℕ) (off n : ℕ)
    → off ≡ length xs
    → n ≡ length bs
    → read_bytes (xs ++ (bs ++ ys)) off n ≡ some bs
unfolding read_bytes
read_bytes-append [] [] ys zero zero e f = refl
read_bytes-append [] (b ∷ bs) ys zero (suc n) e f =
    rw (read_bytes-append [] bs ys zero n refl (omega arith)) refl
read_bytes-append (x ∷ xs) bs ys (suc off) n e f = read_bytes-append xs bs ys off n (omega arith) f
read_bytes-append [] [] ys zero (suc n) e f = absurd (omega arith)
read_bytes-append [] (b ∷ bs) ys zero zero e f = absurd (omega arith)
read_bytes-append [] bs ys (suc off) n e f = absurd (omega arith)
read_bytes-append (x ∷ xs) bs ys zero n e f = absurd (omega arith)

-- A read of a whole prefix is `take`.
pub read_bytes-take :
    (buf : List ℕ) (n : ℕ) → n ≤ length buf → read_bytes buf 0 n ≡ some (take n buf)
unfolding read_bytes
read_bytes-take buf zero h = refl
read_bytes-take [] (suc n) h = absurd (omega arith)
read_bytes-take (b ∷ buf) (suc n) h = rw (read_bytes-take buf n (omega arith)) refl

write_bytes-cons :
    (x o : ℕ) (ys : List ℕ) (w : Option (List ℕ))
    → (w >>= (λ r. some (x ∷ r)) >>= λ r. write_bytes r (suc o) ys)
      ≡ (w >>= (λ r. write_bytes r o ys) >>= λ r. some (x ∷ r))
unfolding write_bytes
write_bytes-cons x o ys none = refl
write_bytes-cons x o ys (some r) = refl

-- A write and a write just behind it are one.
pub write_bytes-write_bytes :
    (buf xs ys : List ℕ) (off off' : ℕ)
    → off' ≡ off + length xs
    → (write_bytes buf off xs >>= λ r. write_bytes r off' ys) ≡ write_bytes buf off (xs ++ ys)
unfolding write_bytes
write_bytes-write_bytes buf [] ys zero zero e = refl
write_bytes-write_bytes buf [] ys zero (suc o) e = absurd (omega arith)
write_bytes-write_bytes [] (x ∷ xs) ys zero o e = refl
write_bytes-write_bytes (b ∷ buf) (x ∷ xs) ys zero zero e = absurd (omega arith)
write_bytes-write_bytes (b ∷ buf) (x ∷ xs) ys zero (suc o) e =
    let ih = write_bytes-write_bytes buf xs ys zero o (omega arith) in
    rw (← ih) (write_bytes-cons x o ys (write_bytes buf zero xs))
write_bytes-write_bytes [] xs ys (suc off) o e = refl
write_bytes-write_bytes (b ∷ buf) xs ys (suc off) zero e = absurd (omega arith)
write_bytes-write_bytes (b ∷ buf) xs ys (suc off) (suc o) e =
    let ih = write_bytes-write_bytes buf xs ys off o (omega arith) in
    rw (← ih) (write_bytes-cons b o ys (write_bytes buf off xs))

-- A write inside the buffer succeeds, and replaces only the bytes that it covers.
pub write_bytes-append :
    (xs old bs ys : List ℕ) (off : ℕ)
    → off ≡ length xs
    → length old ≡ length bs
    → write_bytes (xs ++ (old ++ ys)) off bs ≡ some (xs ++ (bs ++ ys))
unfolding write_bytes
write_bytes-append [] [] [] ys zero e f = refl
write_bytes-append [] (o ∷ old) (b ∷ bs) ys zero e f =
    rw (write_bytes-append [] old bs ys zero refl (omega arith)) refl
write_bytes-append (x ∷ xs) old bs ys (suc off) e f =
    rw (write_bytes-append xs old bs ys off (omega arith) f) refl
write_bytes-append [] [] (b ∷ bs) ys zero e f = absurd (omega arith)
write_bytes-append [] (o ∷ old) [] ys zero e f = absurd (omega arith)
write_bytes-append [] old bs ys (suc off) e f = absurd (omega arith)
write_bytes-append (x ∷ xs) old bs ys zero e f = absurd (omega arith)

-- Two writes in a row are one.
pub write_bytes_twice {ℓ} :
    {A : Type ℓ} (buf xs ys : List ℕ) (p p1 : ℕ) (f : List ℕ → Option A)
    → p1 ≡ p + length xs
    → (write_bytes buf p xs >>= λ a. write_bytes a p1 ys >>= f)
      ≡ (write_bytes buf p (xs ++ ys) >>= f)
write_bytes_twice buf xs ys p p1 f e =
    sym (>>=_assoc (write_bytes buf p xs) (λ a. write_bytes a p1 ys) f)
    ∙ ap (λ m. m >>= f) (write_bytes-write_bytes buf xs ys p p1 e)

-- Three writes in a row are one.
pub write_bytes_thrice {ℓ} :
    {A : Type ℓ} (buf xs ys zs : List ℕ) (p p1 p2 : ℕ) (f : List ℕ → Option A)
    → p1 ≡ p + length xs
    → p2 ≡ p1 + length ys
    → (write_bytes buf p xs >>= λ a. write_bytes a p1 ys >>= λ b. write_bytes b p2 zs >>= f)
      ≡ (write_bytes buf p (xs ++ (ys ++ zs)) >>= f)
write_bytes_thrice buf xs ys zs p p1 p2 f e1 e2 =
    write_bytes_twice buf xs ys p p1 (λ b. write_bytes b p2 zs >>= f) e1
    ∙ write_bytes_twice buf (xs ++ ys) zs p p2 f (omega (arith, length-append xs ys))
    ∙ ap (λ l. write_bytes buf p l >>= f) (append_assoc xs ys zs)

pub take_all : (xs : List ℕ) (n : ℕ) → length xs ≡ n → take n xs ≡ xs
take_all [] zero h = refl
take_all [] (suc n) h = refl
take_all (x ∷ xs) zero h = absurd (omega arith)
take_all (x ∷ xs) (suc n) h = ap (λ l. x ∷ l) (take_all xs n (omega arith))

-- A read of a whole buffer gives the buffer.
pub read_bytes_all : (buf : List ℕ) (n : ℕ) → length buf ≡ n → read_bytes buf 0 n ≡ some buf
read_bytes_all buf n h = read_bytes-take buf n (omega arith) ∙ ap some (take_all buf n h)

bind_some {ℓ} : {A : Type ℓ} (w : Option A) → (w >>= λ r. some r) ≡ w
bind_some none = refl
bind_some (some r) = refl

write_before-cons :
    (b x : ℕ) (xs : List ℕ) (w : Option (List ℕ))
    → (w >>= (λ r. some (b ∷ r)) >>= λ r. write_bytes r 0 (x ∷ xs))
      ≡ (w >>= (λ r. write_bytes r 0 xs) >>= λ r. some (x ∷ r))
unfolding write_bytes
write_before-cons b x xs none = refl
write_before-cons b x xs (some r) = refl

-- A write and a write just in front of it are one.
pub write_bytes_before :
    (buf xs ys : List ℕ) (off off' : ℕ)
    → off' ≡ off + length xs
    → (write_bytes buf off' ys >>= λ r. write_bytes r off xs) ≡ write_bytes buf off (xs ++ ys)
unfolding write_bytes
write_bytes_before buf [] ys zero zero e = bind_some (write_bytes buf 0 ys)
write_bytes_before buf [] ys zero (suc o) e = absurd (omega arith)
write_bytes_before [] (x ∷ xs) ys zero zero e = absurd (omega arith)
write_bytes_before [] (x ∷ xs) ys zero (suc o) e = refl
write_bytes_before (b ∷ buf) (x ∷ xs) ys zero zero e = absurd (omega arith)
write_bytes_before (b ∷ buf) (x ∷ xs) ys zero (suc o) e =
    let ih = write_bytes_before buf xs ys zero o (omega arith) in
    rw (← ih) (write_before-cons b x xs (write_bytes buf o ys))
write_bytes_before buf xs ys (suc off) zero e = absurd (omega arith)
write_bytes_before [] xs ys (suc off) (suc o) e = refl
write_bytes_before (b ∷ buf) xs ys (suc off) (suc o) e =
    let ih = write_bytes_before buf xs ys off o (omega arith) in
    rw (← ih) (write_bytes-cons b off xs (write_bytes buf o ys))

-- What is written inside the buffer is read back, and the buffer keeps its size.
pub write_bytes_total :
    (buf : List ℕ) (off : ℕ) (bs : List ℕ)
    → off + length bs ≤ length buf
    → (r : List ℕ) × (write_bytes buf off bs ≡ some r)
      × (length r ≡ length buf)
      × (read_bytes r off (length bs) ≡ some bs)
unfolding read_bytes write_bytes
write_bytes_total buf zero [] h = (buf, refl, refl, refl)
write_bytes_total [] zero (x ∷ xs) h = absurd (omega arith)
write_bytes_total (b ∷ buf) zero (x ∷ xs) h =
    let (r, e, l, back) = write_bytes_total buf zero xs (omega arith) in
    (x ∷ r, rw e refl, ap suc l, rw back refl)
write_bytes_total [] (suc off) bs h = absurd (omega arith)
write_bytes_total (b ∷ buf) (suc off) bs h =
    let (r, e, l, back) = write_bytes_total buf off bs (omega arith) in
    (b ∷ r, rw e refl, ap suc l, back)
