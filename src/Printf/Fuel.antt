-- ===== src/Printf/Fuel.antt =====
-- The loop of `terminal_printf`: a round takes at least one character, so that more rounds than
-- characters change nothing.
use os_c.Prelude.{
  ℕ, zero, suc, ◌+◌, ◌≤◌, ◌≡◌, ◌≢◌, refl, false, ◌⊎◌, inl, inr, ◌==◌, List, [], ◌∷◌, length, drop,
  arith,
}
use os_c.Terminal.{Terminal}
use os_c.Printf.{Caller, print_directive, printf_loop, print_format, print_plain, terminal_printf}
use os_c.Printf.Outcome.{Result, ok, halted, fault, out_of_fuel, ◌>>=◌, >>=-eq-ok, >>=-ext}
use os_c.Printf.Format.{get_format, char_at}

pub length-drop {ℓ} : {A : Type ℓ} (n : ℕ) (xs : List A) → length (drop n xs) ≤ length xs
length-drop zero xs = omega arith
length-drop (suc n) [] = omega arith
length-drop (suc n) (x ∷ xs) = omega (arith, length-drop n xs)

pub Result-cases {ℓ} :
    {A : Type ℓ} (m : Result A)
    → ((a : A) × (m ≡ ok a)) ⊎ (m ≡ halted) ⊎ (m ≡ fault) ⊎ (m ≡ out_of_fuel)
Result-cases (ok a) = inl (a, refl)
Result-cases halted = inr (inl refl)
Result-cases fault = inr (inr (inl refl))
Result-cases out_of_fuel = inr (inr (inr refl))

-- What is left behind a directive is no longer than the text from the directive on.
pub print_directive-shorter :
    (c : Caller) (s : List ℕ) (k : ℕ) (t : Terminal) {r : Terminal × ℕ × List ℕ}
    → print_directive c s k t ≡ ok r
    → length r.2 ≤ length s
unfolding print_directive
print_directive-shorter c s k t {r} e =
    let (fn, got, e') = >>=-eq-ok (get_format s) _ e in
    let (tk, printed, e'') = >>=-eq-ok (print_format c fn.0 k t) _ e' in
    ground (arith, e'', length-drop (fn.1 + 1) s)

-- Two counts of rounds that are both at least the length of the text give the same result.
pub printf_loop-fuel :
    (c : Caller) (f g : ℕ) (s : List ℕ) (k : ℕ) (t : Terminal)
    → length s ≤ f
    → length s ≤ g
    → printf_loop c f s k t ≡ printf_loop c g s k t
unfolding printf_loop
printf_loop-fuel c zero zero [] k t p q = refl
printf_loop-fuel c zero (suc g) [] k t p q = refl
printf_loop-fuel c (suc f) zero [] k t p q = refl
printf_loop-fuel c (suc f) (suc g) [] k t p q = refl
printf_loop-fuel c zero g (x ∷ s) k t p q = elim p [ ]
printf_loop-fuel c (suc f) zero (x ∷ s) k t p q = elim q [ ]
printf_loop-fuel c (suc f) (suc g) (x ∷ s) k t p q = ground (
  arith,
  printf_loop-fuel c f g (drop 1 s) k (print_plain (char_at s 0) t)
      (omega (arith, length-drop {0} 1 s)) (omega (arith, length-drop {0} 1 s)),
  printf_loop-fuel c f g s k (print_plain x t) (omega arith) (omega arith),
  >>=-ext (print_directive c s k t) (λ r. printf_loop c f r.2 r.1 r.0)
      (λ r. printf_loop c g r.2 r.1 r.0)
      (λ r e.
        printf_loop-fuel c f g r.2 r.1 r.0 (omega (arith, print_directive-shorter c s k t e))
          (omega (arith, print_directive-shorter c s k t e))),
)

-- the loop from a place on, with the rounds that its text needs
pub printf_from : Caller → ℕ → List ℕ → Terminal → Result Terminal
printf_from c k s t = printf_loop c (length s) s k t

-- The three ways that a round goes.
module _ (c : Caller) (k : ℕ) (t : Terminal) where
  pub printf_from-plain :
      (x : ℕ) (s : List ℕ)
      → x ≢ b'%'
      → x ≢ b'\\'
      → printf_from c k (x ∷ s) t ≡ printf_from c k s (print_plain x t)
  unfolding printf_from printf_loop
  printf_from-plain x s p q =
      let e : (x == b'\\') ≡ false = ground arith in
      let e' : (x == b'%') ≡ false = ground arith in rw (e, e')

  -- The character behind a backslash, and a second `%`, is printed as it is.
  pub printf_from-escaped :
      (x y : ℕ) (s : List ℕ)
      → (x ≡ b'\\') ⊎ ((x ≡ b'%') × (y ≡ b'%'))
      → printf_from c k (x ∷ y ∷ s) t ≡ printf_from c k s (print_plain y t)
  unfolding printf_from printf_loop
  printf_from-escaped x y s p =
      ground (arith, printf_loop-fuel c (suc (length s)) (length s) s k (print_plain y t))

  pub printf_from-directive :
      (s : List ℕ)
      → char_at s 0 ≢ b'%'
      → printf_from c k (b'%' ∷ s) t ≡ (print_directive c s k t >>= λ r. printf_from c r.1 r.2 r.0)
  unfolding printf_from printf_loop
  printf_from-directive s p = ground (
    arith,
    >>=-ext (print_directive c s k t) (λ r. printf_loop c (length s) r.2 r.1 r.0)
        (λ r. printf_loop c (length r.2) r.2 r.1 r.0)
        (λ r e.
          printf_loop-fuel c (length s) (length r.2) r.2 r.1 r.0 (print_directive-shorter c s k t e)
            (omega arith)),
  )

pub terminal_printf-from :
    (c : Caller) (str : List ℕ) (t : Terminal) → terminal_printf c str t ≡ printf_from c 0 str t
unfolding terminal_printf printf_from
terminal_printf-from c str t = refl

pub printf_from-end : (c : Caller) (k : ℕ) (t : Terminal) → printf_from c k [] t ≡ ok t
unfolding printf_from printf_loop
printf_from-end c k t = refl
