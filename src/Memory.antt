-- ===== src/Memory.antt =====
-- Memory as the kernel sees it: a byte at every address, and words of several bytes, the lowest first.
use os_c.Prelude.{
  ℕ, zero, suc, ◌+◌, ◌*◌, ◌/◌, ◌%◌, ◌^◌, ◌≤◌, ◌<◌, ◌≡◌, refl, ◌⊎◌, inl, ◌==◌, if◌then◌else◌, arith,
  u8,
}
use native.Mathlib.Nat.{pow-suc}

unfoldable pub store : (ℕ → ℕ) → ℕ → ℕ → ℕ → ℕ
store m a v b = if b == a then v else m b

unfoldable pub read_bytes : ℕ → (ℕ → ℕ) → ℕ → ℕ
read_bytes zero m a = 0
read_bytes (suc n) m a = u8 (m a) + 256 * read_bytes n m (a + 1)

unfoldable pub write_bytes : ℕ → (ℕ → ℕ) → ℕ → ℕ → ℕ → ℕ
write_bytes zero m a x = m
write_bytes (suc n) m a x = write_bytes n (store m a (x % 256)) (a + 1) (x / 256)

unfoldable pub read64 : (ℕ → ℕ) → ℕ → ℕ
read64 m a = read_bytes 8 m a

unfoldable pub write64 : (ℕ → ℕ) → ℕ → ℕ → ℕ → ℕ
write64 m a x = write_bytes 8 m a x

write_bytes-outside :
    (n : ℕ) (m : ℕ → ℕ) (a x b : ℕ) → (b < a) ⊎ (a + n ≤ b) → write_bytes n m a x b ≡ m b
unfolding write_bytes store
write_bytes-outside zero m a x b p = refl
write_bytes-outside (suc n) m a x b p =
    ground (arith, write_bytes-outside n (store m a (x % 256)) (a + 1) (x / 256) b (ground arith))

read_bytes-same :
    (n : ℕ) (m m' : ℕ → ℕ) (a : ℕ)
    → ((b : ℕ) → a ≤ b → b < a + n → m b ≡ m' b)
    → read_bytes n m a ≡ read_bytes n m' a
unfolding read_bytes
read_bytes-same zero m m' a h = refl
read_bytes-same (suc n) m m' a h = rw (
  h a (omega arith) (omega arith),
  read_bytes-same n m m' (a + 1) (λ b p q. h b (omega arith) (omega arith)),
)

read_bytes-write_bytes :
    (n : ℕ) (m : ℕ → ℕ) (a x : ℕ) → x < 256 ^ n → read_bytes n (write_bytes n m a x) a ≡ x
unfolding read_bytes write_bytes store
read_bytes-write_bytes zero m a x p = ground arith
read_bytes-write_bytes (suc n) m a x p = ground (
  arith,
  write_bytes-outside n (store m a (x % 256)) (a + 1) (x / 256) a (inl (omega arith)),
  read_bytes-write_bytes n (store m a (x % 256)) (a + 1) (x / 256) (omega (arith, pow-suc 256 n)),
)

-- A word that is written is read back.
pub read64-write64 : (m : ℕ → ℕ) (a x : ℕ) → x < 2 ^ 64 → read64 (write64 m a x) a ≡ x
unfolding read64 write64
read64-write64 m a x p = read_bytes-write_bytes 8 m a x p

-- A word is not touched by a write beside it.
pub read64-apart :
    (m : ℕ → ℕ) (a b x : ℕ) → (a + 8 ≤ b) ⊎ (b + 8 ≤ a) → read64 (write64 m b x) a ≡ read64 m a
unfolding read64 write64
read64-apart m a b x p =
    read_bytes-same 8 (write_bytes 8 m b x) m a
      (λ c q r. write_bytes-outside 8 m b x c (ground arith))

pub write64-outside : (m : ℕ → ℕ) (a x b : ℕ) → (b < a) ⊎ (a + 8 ≤ b) → write64 m a x b ≡ m b
unfolding write64
write64-outside m a x b p = write_bytes-outside 8 m a x b p

read_bytes-bound : (n : ℕ) (m : ℕ → ℕ) (a : ℕ) → read_bytes n m a < 256 ^ n
unfolding read_bytes
read_bytes-bound zero m a = omega arith
read_bytes-bound (suc n) m a = omega (arith, pow-suc 256 n, read_bytes-bound n m (a + 1))

pub read64-bound : (m : ℕ → ℕ) (a : ℕ) → read64 m a < 2 ^ 64
unfolding read64
read64-bound m a = read_bytes-bound 8 m a

unfoldable pub read32 : (ℕ → ℕ) → ℕ → ℕ
read32 m a = read_bytes 4 m a

-- A word is what its bytes are.
pub read64-same :
    (m m' : ℕ → ℕ) (a : ℕ) → ((b : ℕ) → a ≤ b → b < a + 8 → m b ≡ m' b) → read64 m a ≡ read64 m' a
unfolding read64
read64-same m m' a h = read_bytes-same 8 m m' a h
