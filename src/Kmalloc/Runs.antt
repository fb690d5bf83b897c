-- ===== src/Kmalloc/Runs.antt =====
-- src/kmalloc.c: requests to the heap, one after the other.
mod Tests
use os_c.Prelude.{
  ℕ, suc, ◌+◌, ◌-◌, ◌^◌, ◌≤◌, ◌<◌, ltb, leb, ◌==◌, ◌≡◌, refl, sym, ap, ◌∙◌, List, [], ◌∷◌, Option,
  none, some, inl, inr, Bool-cases, true, false, arith, length,
}
use mathlib.Core.Path.{subst}
use mathlib.Core.Option.{bind, bind-eq-some_iff, some-injective}
use os_c.Printf.Outcome.{Result, ok, ◌>>=◌}
use os_c.Kmalloc.{Heap, kmalloc, kfree, init_heap, heap_start_addr, heap_size}
use os_c.Kmalloc.Blocks.{
  Block, block, Layout, layout, taken, remains, push, fit, cut, hand_out, alloc, extract, give_back,
  release, IsLaid,
}
use os_c.Kmalloc.Represent.{Represents}
use os_c.Kmalloc.Refine.{Returned, kmalloc-refines}
use os_c.Kmalloc.Release.{Released, kfree-refines}
use os_c.Kmalloc.Copy.{init_heap-head}

-- `free a` gives back the block whose header is at `a`.
pub data Request : Type 0 where
  malloc : ℕ → Request
  free : ℕ → Request

unfoldable pub serve : Request → Layout → Option Layout
serve (malloc n) s = bind (alloc n s) (λ r. some r.1)
serve (free a) s = release a s

unfoldable pub serve_all : List Request → Layout → Option Layout
serve_all [] s = some s
serve_all (r ∷ rs) s = bind (serve r s) (serve_all rs)

-- the same requests to the heap in memory
unfoldable pub call : ℕ → Request → Heap → Result Heap
call fuel (malloc n) h = do (addr, h') ← kmalloc fuel n h; ok h'
call fuel (free a) h = ok (kfree (a + 16) h)

unfoldable pub call_all : ℕ → List Request → Heap → Result Heap
call_all fuel [] h = ok h
call_all fuel (r ∷ rs) h = do h' ← call fuel r h; call_all fuel rs h'

-- a block that is handed out leaves no more free blocks than there were, and one given back one more
abbrev NoMore : ℕ → Option (Block × List Block) → Type 0
NoMore n none = Unit
NoMore n (some (b, bs)) = length bs ≤ n

push-NoMore :
    (n : ℕ) (b : Block) (o : Option (Block × List Block)) → NoMore n o → NoMore (suc n) (push b o)
push-NoMore n b none h = tt
push-NoMore n b (some (c, bs)) h = omega (arith, h)

fit-NoMore : (n : ℕ) (bs : List Block) → NoMore (length bs) (fit n bs)
unfolding fit remains
fit-NoMore n [] = tt
fit-NoMore n (b ∷ bs) = elim (Bool-cases (leb n b.bytes)) [
  | inr small ↦ rw small (push-NoMore (length bs) b (fit n bs) (fit-NoMore n bs))
  | inl large ↦ elim (Bool-cases (ltb (b.bytes - n) 32)) [
    | inl whole ↦ rw (large, whole) (omega arith)
    | inr split ↦ rw (large, split) (omega arith)
  ]
]

-- the layout a request leads to: not many more free blocks, and the same bytes in all
abbrev Grows : Layout → Option Layout → Type 0
Grows s none = Unit
Grows s (some s') = (length s'.free ≤ suc (length s.free)) × (s'.top + s'.left ≡ s.top + s.left)

cut-Grows : (n : ℕ) (s : Layout) → Grows s (bind (cut n s) (λ r. some r.1))
unfolding bind
cut-Grows n s = elim (Bool-cases (ltb s.left (n + 32))) [
  | inl full ↦ rw full tt
  | inr room ↦ rw room (omega arith, ground (arith, room))
]

hand_out-Grows :
    (n : ℕ) (s : Layout) (o : Option (Block × List Block))
    → NoMore (length s.free) o
    → Grows s (bind (hand_out n s o) (λ r. some r.1))
unfolding bind
hand_out-Grows n s none h = cut-Grows n s
hand_out-Grows n s (some (b, bs)) h = (omega (arith, h), refl)

give_back-Grows : (s : Layout) (o : Option (Block × List Block)) → Grows s (give_back s o)
give_back-Grows s none = tt
give_back-Grows s (some (b, used)) = (omega arith, refl)

serve-Grows : (r : Request) (s : Layout) → Grows s (serve r s)
unfolding serve alloc release
serve-Grows (malloc n) s = hand_out-Grows n s (fit n s.free) (fit-NoMore n s.free)
serve-Grows (free a) s = give_back-Grows s (extract a s.used)

call-refines :
    (fuel : ℕ) (r : Request) (h : Heap) (s s' : Layout)
    → Represents h.memory h.free_list_head s
    → length s.free < fuel
    → serve r s ≡ some s'
    → (h' : Heap) × (call fuel r h ≡ ok h') × Represents h'.memory h'.free_list_head s'
unfolding serve call
call-refines fuel (malloc n) h s s' rep enough served =
    let ((b, s1), found, same) = (bind-eq-some_iff (alloc n s) (λ r. some r.1)).0 served in
    let (h', done, returned) = kmalloc-refines h fuel n s s1 b rep enough found in
    (
      h',
      ap (λ o. o >>= (λ r. ok r.1)) done,
      subst (Represents h'.memory h'.free_list_head) (some-injective s1 s' same)
          returned.represents,
    )
call-refines fuel (free a) h s s' rep enough served =
    (kfree (a + 16) h, refl, (kfree-refines h a s s' rep served).represents)

-- Requests that the layout can serve, one after the other, come to an end on the heap in memory
-- that is the one of the layout, and leave the heap of the layout that they lead to, if there is
-- fuel for a round for every free block and every request.
pub call_all-refines :
    (fuel : ℕ) (rs : List Request) (h : Heap) (s s' : Layout)
    → Represents h.memory h.free_list_head s
    → length s.free + length rs < fuel
    → serve_all rs s ≡ some s'
    → (h' : Heap) × (call_all fuel rs h ≡ ok h')
      × Represents h'.memory h'.free_list_head s'
      × (s'.top + s'.left ≡ s.top + s.left)
unfolding serve_all call_all
call_all-refines fuel [] h s s' rep enough served =
    let same = some-injective s s' served in
    (
      h,
      refl,
      subst (Represents h.memory h.free_list_head) same rep,
      ap (λ t. t.top + t.left) (sym same),
    )
call_all-refines fuel (r ∷ rs) h s s' rep enough served =
    let (s1, first, rest) = (bind-eq-some_iff (serve r s) (serve_all rs)).0 served in
    let grows : Grows s (some s1) = subst (Grows s) first (serve-Grows r s) in
    let (h1, done, rep1) = call-refines fuel r h s s1 rep (omega (arith, enough)) first in
    let (h', all_done, rep', end) =
      call_all-refines fuel rs h1 s1 s' rep1 (omega (arith, enough, grows.0)) rest in
    (h', ap (λ o. o >>= call_all fuel rs) done ∙ all_done, rep', end ∙ grows.1)

-- the heap as `init_heap` leaves it: nothing is free or handed out
abbrev pub empty : Layout
empty = layout [] [] heap_start_addr heap_size

pub init_heap-Represents :
    (h : Heap) → Represents (init_heap h).memory (init_heap h).free_list_head empty
init_heap-Represents h =
    let (head, link, size, pages) = init_heap-head h in
    record {
      laid = record {
        nonzero = omega arith;
        free_below = tt;
        used_below = tt;
        free_separate = tt;
        used_separate = tt;
        separate = tt;
      };
      top = head;
      left = size;
      end = omega arith;
      linked = link;
      headers = tt;
    }

pub init_heap-runs :
    (fuel : ℕ) (rs : List Request) (h : Heap) (s' : Layout)
    → length rs < fuel
    → serve_all rs empty ≡ some s'
    → (h' : Heap) × (call_all fuel rs (init_heap h) ≡ ok h')
      × Represents h'.memory h'.free_list_head s'
      × (s'.top + s'.left ≡ heap_start_addr + heap_size)
init_heap-runs fuel rs h s' enough served =
    call_all-refines fuel rs (init_heap h) empty s' (init_heap-Represents h) (omega (arith, enough))
      served
