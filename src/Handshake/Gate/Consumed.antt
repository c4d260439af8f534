-- ===== src/Handshake/Gate/Consumed.antt =====
-- Which bytes of the client a step takes when it succeeds.
use mathlib.Core.List.{append_assoc}
use g_proxy_pro.Base.{
  inr, inl, ℕ, ◌≡◌, refl, sym, ap, ◌∙◌, arith, Bool, true, false, Option, none, some, List, [], ◌∷◌,
  ◌++◌, leb, Bool-cases, length, take, length-take, take-append-drop,
}
use g_proxy_pro.Handshake.{
  World, Res, ok, err, fault, M, after, ◌>>=◌, pure, guard, in_bounds, or_err, recv_all, send, byte,
}

-- A result `a` comes with bytes `bs` off the front of the input, and the two are related.
abbrev pub Took : {A : Type 0} → (A → List ℕ → Type 0) → Res A → World → World → Type 0
Took P (ok a) w w' = (bs : List ℕ) × (w.input ≡ bs ++ w'.input) × P a bs
Took P err w w' = Unit {0}
Took P fault w w' = Unit {0}

abbrev pub Takes : {A : Type 0} → (A → List ℕ → Type 0) → M A → Type 0
Takes P m = (w : World) → Took P (m w).0 w (m w).1

prepend :
    {A : Type 0} (Q : A → List ℕ → Type 0) (bs : List ℕ) (r : Res A) (w w1 w2 : World)
    → w.input ≡ bs ++ w1.input
    → Took (λ c cs. Q c (bs ++ cs)) r w1 w2
    → Took Q r w w2
prepend Q bs (ok c) w w1 w2 e (cs, f, q) =
    (bs ++ cs, e ∙ ap (λ xs. bs ++ xs) f ∙ sym (append_assoc bs cs w2.input), q)
prepend Q bs err w w1 w2 e t = tt
prepend Q bs fault w w1 w2 e t = tt

pub after-Took :
    {A B : Type 0} (P : A → List ℕ → Type 0) (Q : B → List ℕ → Type 0) (r : Res A) (w w1 : World)
    (f : A → M B)
    → Took P r w w1
    → ((a : A) (bs : List ℕ) → P a bs → Takes (λ c cs. Q c (bs ++ cs)) (f a))
    → Took Q (after r w1 f).0 w (after r w1 f).1
after-Took P Q (ok a) w w1 f (bs, e, p) k = prepend Q bs (f a w1).0 w w1 (f a w1).1 e (k a bs p w1)
after-Took P Q err w w1 f t k = tt
after-Took P Q fault w w1 f t k = tt

pub bind-Takes :
    {A B : Type 0} (P : A → List ℕ → Type 0) (Q : B → List ℕ → Type 0) (m : M A) (f : A → M B)
    → Takes P m
    → ((a : A) (bs : List ℕ) → P a bs → Takes (λ c cs. Q c (bs ++ cs)) (f a))
    → Takes Q (m >>= f)
bind-Takes P Q m f t k w = after-Took P Q (m w).0 w (m w).1 f (t w) k

-- The bytes that a receive of `n` gives.
pub record Given (n : ℕ) (a bs : List ℕ) : Type 0 where
  pub given : bs ≡ a
  pub count : length a ≡ n

pub record Silent (holds : Type 0) (bs : List ℕ) : Type 0 where
  pub nothing : bs ≡ []
  pub fact : holds

pub recv_all-Takes : (n : ℕ) → Takes (Given n) (recv_all n)
unfolding recv_all
recv_all-Takes n w = elim (Bool-cases (leb n (length w.input))) [
  | inl room ↦ rw room (
    take n w.input,
    sym (take-append-drop n w.input),
    record { given = refl; count = length-take n w.input (ground arith) },
  )
  | inr short ↦ rw short tt
]

pub guard-Takes : (b : Bool) → Takes (λ _. Silent (b ≡ true)) (guard b)
unfolding guard
guard-Takes true w = ([], refl, record { nothing = refl; fact = refl })
guard-Takes false w = tt

pub in_bounds-Takes : {A : Type 0} (o : Option A) → Takes (λ a. Silent (o ≡ some a)) (in_bounds o)
unfolding in_bounds
in_bounds-Takes none w = tt
in_bounds-Takes (some a) w = ([], refl, record { nothing = refl; fact = refl })

pub or_err-Takes : {A : Type 0} (o : Option A) → Takes (λ a. Silent (o ≡ some a)) (or_err o)
unfolding or_err
or_err-Takes none w = tt
or_err-Takes (some a) w = ([], refl, record { nothing = refl; fact = refl })

pub send-Takes : (bs : List ℕ) → Takes (λ _. Silent (Unit {0})) (send bs)
unfolding send
send-Takes bs w = ([], refl, record { nothing = refl; fact = tt })

pub pure-Takes : {A : Type 0} (Q : A → List ℕ → Type 0) (a : A) → Q a [] → Takes Q (pure a)
pure-Takes Q a q w = ([], refl, q)

pub one_byte : (bs : List ℕ) → length bs ≡ 1 → bs ≡ byte 0 bs ∷ []
one_byte [] e = absurd (omega arith)
one_byte (a ∷ []) e = refl
one_byte (a ∷ b ∷ bs) e = absurd (omega arith)

pub two_bytes : (bs : List ℕ) → length bs ≡ 2 → bs ≡ byte 0 bs ∷ byte 1 bs ∷ []
two_bytes [] e = absurd (omega arith)
two_bytes (a ∷ []) e = absurd (omega arith)
two_bytes (a ∷ b ∷ []) e = refl
two_bytes (a ∷ b ∷ c ∷ bs) e = absurd (omega arith)
