-- ===== src/Kmalloc/Copy.antt =====
-- src/kmalloc.c, `init_heap` and `kmemcpy`: the heap at its start, and the bytes that are copied.
use os_c.Prelude.{
  ℕ, zero, suc, ◌+◌, ◌≤◌, ◌<◌, ◌/◌, ◌≡◌, refl, ◌∙◌, ◌⊎◌, inl, List, [], ◌∷◌, page_size, arith,
}
use native.Mathlib.Decide.{dec_lt}
use os_c.Memory.{store, read64-write64, read64-apart}
use os_c.Kmalloc.{
  Heap, next, size, set_next, init_heap, heap_pages, say_pages, heap_start_addr, heap_size, kmemcpy,
  copy_from,
}

copy_from-outside :
    (n i dest src : ℕ) (m : ℕ → ℕ) (b : ℕ)
    → (b < dest + i) ⊎ (dest + i + n ≤ b)
    → copy_from n i dest src m b ≡ m b
unfolding copy_from store
copy_from-outside zero i dest src m b p = refl
copy_from-outside (suc n) i dest src m b p = ground (
  arith,
  copy_from-outside n (i + 1) dest src (store m (dest + i) (m (src + i))) b (ground arith),
)

copy_from-copies :
    (n i dest src : ℕ) (m : ℕ → ℕ) (k : ℕ)
    → i ≤ k
    → k < i + n
    → (dest + i + n ≤ src + i) ⊎ (src + i + n ≤ dest + i)
    → copy_from n i dest src m (dest + k) ≡ m (src + k)
unfolding copy_from store
copy_from-copies zero i dest src m k p q apart = ground (arith, p, q)
copy_from-copies (suc n) i dest src m k p q apart =
    let m' = store m (dest + i) (m (src + i)) in
    elim (dec_lt i k) [
      | yes later ↦ ground (
        arith,
        copy_from-copies n (i + 1) dest src m' k (omega arith) (omega arith)
            (ground (arith, apart)),
        apart,
      )
      | no here ↦
          let same : k ≡ i = omega arith in
          rw same
            (ground (arith, copy_from-outside n (i + 1) dest src m' (dest + i) (inl (omega arith))))
    ]

-- `kmemcpy` between ranges that do not overlap copies every byte, and changes no byte outside of
-- the destination.
pub kmemcpy-copies :
    (h : Heap) (dest src bytes : ℕ)
    → (dest + bytes ≤ src) ⊎ (src + bytes ≤ dest)
    → ((i : ℕ) → i < bytes → (kmemcpy dest src bytes h).memory (dest + i) ≡ h.memory (src + i))
      × ((b : ℕ)
          → (b < dest) ⊎ (dest + bytes ≤ b)
          → (kmemcpy dest src bytes h).memory b ≡ h.memory b)
unfolding kmemcpy
kmemcpy-copies h dest src bytes apart = (
  λ i p.
      copy_from-copies bytes 0 dest src h.memory i (omega arith) (omega arith)
        (ground (arith, apart)),
  λ b p. copy_from-outside bytes 0 dest src h.memory b (ground (arith, p)),
)

say_pages-memory : (pages : List ℕ) (h : Heap) → (say_pages pages h).memory ≡ h.memory
unfolding say_pages
say_pages-memory [] h = refl
say_pages-memory (p ∷ pages) h = say_pages-memory pages _

-- pages one after the other
pub pages_from : ℕ → ℕ → List ℕ
pages_from zero first = []
pages_from (suc n) first = first ∷ pages_from n (first + 1)

-- `init_heap` leaves a list of its head alone, with `heap_size` bytes at `heap_start_addr`, and
-- maps the 25 pages from that address on, in order.
pub init_heap-head :
    (h : Heap)
    → ((init_heap h).free_list_head ≡ heap_start_addr)
      × (next (init_heap h).memory heap_start_addr ≡ 0)
      × (size (init_heap h).memory heap_start_addr ≡ heap_size)
      × (heap_pages (heap_size / page_size + 1) heap_start_addr
          ≡ pages_from 25 (heap_start_addr / page_size))
unfolding init_heap heap_pages pages_from
init_heap-head h =
    let m = (say_pages (heap_pages (heap_size / page_size + 1) heap_start_addr) h).memory in
    let m' = set_next heap_start_addr 0 m in
    (
      refl,
      read64-apart m' heap_start_addr (heap_start_addr + 8) heap_size (inl (omega arith))
          ∙ read64-write64 m heap_start_addr 0 (omega arith),
      read64-write64 m' (heap_start_addr + 8) heap_size (omega arith),
      refl,
    )
