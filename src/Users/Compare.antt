-- ===== src/Users/Compare.antt =====
-- `u_strncmp` of user.c on texts of one length, and hexadecimal texts.
use blackmount.Common.{
  ℕ, zero, suc, ◌/◌, ◌%◌, ◌≤◌, ◌<◌, ◌≡◌, refl, sym, ap, ap₂, ◌∙◌, true, false, List, [], ◌∷◌, ◌++◌,
  length, get_or, take, drop, All, ◌==◌, inl, inr, Bool-cases, arith,
}
use blackmount.Common.Int.{pos}
use blackmount.Users.{difference, u_strncmp}
use blackmount.Users.Hex.{to_hex, hexc, from_hex, from_hex-to_hex, IsByte}
use blackmount.Users.Passwords.{is_zero}

pub u_strncmp_same : (a s t : List ℕ) (n : ℕ) → length a ≡ n → u_strncmp (a ++ s) (a ++ t) n ≡ pos 0
unfolding u_strncmp
u_strncmp_same [] s t n e = rw (sym e) refl
u_strncmp_same (x ∷ a) s t zero e = absurd (omega (arith, e))
u_strncmp_same (x ∷ a) s t (suc n) e =
    let here : (x == x) ≡ true = ground arith in
    let h = u_strncmp_same a s t n (omega (arith, e)) in
    elim (Bool-cases (x == 0)) [
      | inl ends ↦ rw (here, ends) refl
      | inr goes ↦ rw (here, goes, h) refl
    ]

abbrev pub IsNonzero : ℕ → Type 0
IsNonzero c = 0 < c

difference_zero : (x y : ℕ) → is_zero (difference x y) ≡ true → x ≡ y
difference_zero x y e = ground arith

u_strncmp_step :
    (x y : ℕ) (a b : List ℕ) (n : ℕ)
    → (x == y) ≡ true
    → 0 < x
    → u_strncmp (x ∷ a) (y ∷ b) (suc n) ≡ u_strncmp a b n
unfolding u_strncmp
u_strncmp_step x y a b n same goes =
    let test : (x == 0) ≡ false = ground (arith, goes) in rw (same, test) refl

u_strncmp_differ :
    (x y : ℕ) (a b : List ℕ) (n : ℕ)
    → (x == y) ≡ false
    → u_strncmp (x ∷ a) (y ∷ b) (suc n) ≡ difference x y
unfolding u_strncmp
u_strncmp_differ x y a b n other = rw other refl

pub u_strncmp_zero :
    (a b s t : List ℕ) (n : ℕ)
    → length a ≡ n
    → length b ≡ n
    → All IsNonzero a
    → is_zero (u_strncmp (a ++ s) (b ++ t) n) ≡ true
    → a ≡ b
unfolding u_strncmp
u_strncmp_zero [] [] s t n ea eb h z = refl
u_strncmp_zero [] (y ∷ b) s t n ea eb h z = absurd (omega (arith, ea, eb))
u_strncmp_zero (x ∷ a) [] s t n ea eb h z = absurd (omega (arith, ea, eb))
u_strncmp_zero (x ∷ a) (y ∷ b) s t zero ea eb h z = absurd (omega (arith, ea))
u_strncmp_zero (x ∷ a) (y ∷ b) s t (suc n) ea eb h z = elim (Bool-cases (x == y)) [
  | inl same ↦
      let step = u_strncmp_step x y (a ++ s) (b ++ t) n same h.0 in
      let x_y : x ≡ y = ground (arith, same) in
      ap₂ ◌∷◌ x_y (
        u_strncmp_zero a b s t n (omega (arith, ea)) (omega (arith, eb)) h.1
          (ap is_zero (sym step) ∙ z))
  | inr other ↦
      let x_y : x ≡ y =
        difference_zero x y
          (ap is_zero (sym (u_strncmp_differ x y (a ++ s) (b ++ t) n other)) ∙ z) in
      absurd (ground (arith, other, x_y))
]

pub take_all : (n : ℕ) (xs : List ℕ) → length xs ≤ n → take n xs ≡ xs
take_all zero [] h = refl
take_all (suc n) [] h = refl
take_all zero (x ∷ xs) h = absurd (omega arith)
take_all (suc n) (x ∷ xs) h = ap (λ (l : List ℕ). x ∷ l) (take_all n xs (omega (arith, h)))

pub drop_append :
    (n : ℕ) (xs : List ℕ) (y : ℕ) (ys : List ℕ) → length xs ≡ n → drop (suc n) (xs ++ y ∷ ys) ≡ ys
drop_append zero [] y ys e = refl
drop_append (suc n) [] y ys e = absurd (omega (arith, e))
drop_append zero (x ∷ xs) y ys e = absurd (omega (arith, e))
drop_append (suc n) (x ∷ xs) y ys e = drop_append n xs y ys (omega (arith, e))

All-get_or_in : (cs : List ℕ) (i : ℕ) → All IsNonzero cs → i < length cs → IsNonzero (get_or cs i 0)
All-get_or_in [] i h lt = absurd (omega arith)
All-get_or_in (c ∷ cs) zero h lt = h.0
All-get_or_in (c ∷ cs) (suc i) h lt = All-get_or_in cs i h.1 (omega arith)

hexc-IsNonzero : All IsNonzero hexc
hexc-IsNonzero =
    let p : (n : ℕ) → 0 < suc n = λ n. omega arith in
    (
      p 47,
      (
        p 48,
        (
          p 49,
          (
            p 50,
            (
              p 51,
              (
                p 52,
                (
                  p 53,
                  (p 54, (p 55, (p 56, (p 96, (p 97, (p 98, (p 99, (p 100, (p 101, tt))))))))),
                ),
              ),
            ),
          ),
        ),
      ),
    )

pub to_hex-IsNonzero : (bs : List ℕ) → All IsByte bs → All IsNonzero (to_hex bs)
unfolding to_hex
to_hex-IsNonzero [] h = tt
to_hex-IsNonzero (b ∷ bs) h =
    let small : b < 256 = h.0 in
    (
      All-get_or_in hexc (b / 16) hexc-IsNonzero (omega (arith, small)),
      (All-get_or_in hexc (b % 16) hexc-IsNonzero (omega arith), to_hex-IsNonzero bs h.1),
    )

pub to_hex_inj :
    (bs cs : List ℕ)
    → All IsByte bs
    → All IsByte cs
    → length bs ≡ length cs
    → to_hex bs ≡ to_hex cs
    → bs ≡ cs
to_hex_inj bs cs hb hc len e =
    sym (from_hex-to_hex bs [] hb)
    ∙ ap₂ (λ (n : ℕ) (l : List ℕ). from_hex n (l ++ [])) len e
    ∙ from_hex-to_hex cs [] hc
