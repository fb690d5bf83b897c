-- ===== src/Paging/Index.antt =====
-- src/paging.c, `get_p4_index` to `get_p1_index`: the digits of a page number to the base 512.
use os_c.Prelude.{ℕ, ◌+◌, ◌*◌, ◌/◌, ◌%◌, ◌^◌, ◌<◌, ◌≡◌, arith}
use os_c.Prelude.Fields.{bit_and_low}
use os_c.Paging.{get_p4_index, get_p3_index, get_p2_index, get_p1_index}

pub index-digit :
    (p : ℕ)
    → (get_p4_index p ≡ p / 2 ^ 27 % 512)
      × (get_p3_index p ≡ p / 2 ^ 18 % 512)
      × (get_p2_index p ≡ p / 2 ^ 9 % 512)
      × (get_p1_index p ≡ p % 512)
unfolding get_p4_index get_p3_index get_p2_index get_p1_index
index-digit p = (
  omega (arith, bit_and_low 9 (p / 2 ^ 27)),
  omega (arith, bit_and_low 9 (p / 2 ^ 18)),
  omega (arith, bit_and_low 9 (p / 2 ^ 9)),
  omega (arith, bit_and_low 9 p),
)

-- The four table indices of a page are below 512, and as digits to that base they give back the
-- page number modulo 2 ^ 36.
pub indices-page :
    (p : ℕ)
    → (get_p4_index p < 512)
      × (get_p3_index p < 512)
      × (get_p2_index p < 512)
      × (get_p1_index p < 512)
      × (get_p4_index p * 2 ^ 27 + get_p3_index p * 2 ^ 18 + get_p2_index p * 2 ^ 9 + get_p1_index p
          ≡ p % 2 ^ 36)
indices-page p =
    let (i4, i3, i2, i1) = index-digit p in
    (
      omega (arith, i4),
      omega (arith, i3),
      omega (arith, i2),
      omega (arith, i1),
      omega (arith, i4, i3, i2, i1),
    )
