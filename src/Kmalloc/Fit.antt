-- ===== src/Kmalloc/Fit.antt =====
-- src/kmalloc.c, `allocate_memory`: the free list as a chain of nodes, and the first fit in it.
use os_c.Prelude.{
  ℕ, zero, suc, ◌+◌, ◌^◌, ◌≤◌, ◌<◌, ◌≡◌, ◌≢◌, refl, ap, ◌∙◌, ◌⊎◌, inl, inr, ltb, leb, ◌==◌,
  if◌then◌else◌, Bool-cases, codes, false, List, [], ◌∷◌, length, Option, none, some, add64, sub64,
  arith,
}
use os_c.Memory.{read64-write64, read64-apart, read64-bound}
use os_c.Printf.Outcome.{ok}
use os_c.Kmalloc.{
  Heap, next, size, set_next, set_size, find_fit, take_after, take_head, take, allocate_memory,
  kmalloc, minimum_alloc_size, node_size,
}

-- two nodes share no byte
abbrev pub Apart : ℕ → ℕ → Type 0
Apart a b = (a + 16 ≤ b) ⊎ (b + 16 ≤ a)

-- the nodes behind the node `a`, to the end of the list
pub data Chain (m : ℕ → ℕ) : ℕ → List ℕ → Type 0 where
  chain_end : (a : ℕ) → next m a ≡ 0 → Chain m a []
  chain_link :
      (a b : ℕ) (bs : List ℕ) → next m a ≡ b → b ≢ 0 → Apart a b → Chain m b bs → Chain m a (b ∷ bs)

-- the node before the first one behind `a` that is large enough
unfoldable pub fit_before : (ℕ → ℕ) → ℕ → ℕ → List ℕ → Option ℕ
fit_before m required a [] = none
fit_before m required a (b ∷ bs) =
    if leb required (size m b) then some a else fit_before m required b bs

-- the node that is to be handed out: the first that is large enough, or the head of the list
pub first_fit : (ℕ → ℕ) → ℕ → ℕ → List ℕ → ℕ
first_fit m required head [] = head
first_fit m required head (b ∷ bs) =
    if leb required (size m b) then b else first_fit m required head bs

abbrev pub heap : (ℕ → ℕ) → ℕ → List (List ℕ × ℕ) → Heap
heap m head printed = record { memory = m; free_list_head = head; printed = printed }

-- Over a chain of nodes the loop comes to an end, and finds the first fit.
pub find_fit-Chain :
    {m : ℕ → ℕ} {a : ℕ} {bs : List ℕ} (c : Chain m a bs) (fuel required head : ℕ)
    (printed : List (List ℕ × ℕ))
    → length bs < fuel
    → (printed' : List (List ℕ × ℕ)) × (find_fit fuel required a (heap m head printed)
        ≡ ok (fit_before m required a bs, heap m head printed'))
unfolding find_fit fit_before
find_fit-Chain c zero required head printed p = elim p [ ]
find_fit-Chain (chain_end a stop) (suc fuel) required head printed p =
    (printed, ground (arith, stop))
find_fit-Chain {m} (chain_link a b bs link ne apart c) (suc fuel) required head printed p =
    let said = (codes "Old size: %zx\n", size m b) ∷ printed in
    let (printed', found) = find_fit-Chain c fuel required head said (omega arith) in
    let other : (b == 0) ≡ false = ground (arith, ne) in
    elim (Bool-cases (leb required (size m b))) [
      | inl large ↦ (said, rw (link, other, large))
      | inr small ↦ (printed', rw (link, other, small) found)
    ]

-- What the first fit is, from the way that the loop ends.
data Spot (m : ℕ → ℕ) (required head : ℕ) : Option ℕ → ℕ → Type 0 where
  at_head : Spot m required head none head
  behind :
      (node b : ℕ)
      → next m node ≡ b
      → Apart node b
      → required ≤ size m b
      → Spot m required head (some node) b

first_fit-Spot :
    {m : ℕ → ℕ} {a : ℕ} {bs : List ℕ} (c : Chain m a bs) (required head : ℕ)
    → Spot m required head (fit_before m required a bs) (first_fit m required head bs)
unfolding fit_before first_fit
first_fit-Spot (chain_end a stop) required head = at_head
first_fit-Spot {m} (chain_link a b bs link ne apart c) required head =
    elim (Bool-cases (leb required (size m b))) [
      | inl large ↦ rw large (behind a b link apart (ground arith))
      | inr small ↦ rw small (first_fit-Spot c required head)
    ]

take_head-size :
    (required : ℕ) (h : Heap)
    → required < 2 ^ 64
    → size (take_head required h).1.memory h.free_list_head ≡ required
unfolding take_head
take_head-size required h small = read64-write64 _ (h.free_list_head + 8) required small

-- the last two writes of a node that is taken out: its own header, and the link of the node before it
taken-size :
    (m : ℕ → ℕ) (node b n after : ℕ)
    → Apart node b
    → n < 2 ^ 64
    → size (set_next node after (set_size b n m)) b ≡ n
taken-size m node b n after apart small =
    read64-apart (set_size b n m) (b + 8) node after (ground arith)
    ∙ read64-write64 m (b + 8) n small

take_after-size :
    (node b required : ℕ) (h : Heap)
    → next h.memory node ≡ b
    → Apart node b
    → required ≤ size h.memory b
    → ((take_after node required h).0 ≡ b)
      × (required ≤ size (take_after node required h).1.memory b)
unfolding take_after
take_after-size node b required h link apart fits =
    let bound = read64-bound h.memory (b + 8) in
    let small : required < 2 ^ 64 = omega (arith, bound, fits) in
    elim (Bool-cases (ltb (sub64 (size h.memory b) required) minimum_alloc_size)) [
      | inl whole ↦ rw (link, whole) (refl, rw (taken-size _ node b _ _ apart bound) fits)
      | inr split ↦
          rw (link, split) (refl, rw (taken-size _ node b required _ apart small) (omega arith))
    ]

take-Spot :
    (required : ℕ) (h : Heap) {place : Option ℕ} {b : ℕ}
    → required < 2 ^ 64
    → Spot h.memory required h.free_list_head place b
    → ((take place required h).0 ≡ b) × (required ≤ size (take place required h).1.memory b)
unfolding take take_head
take-Spot required h small at_head = (refl, omega (arith, take_head-size required h small))
take-Spot required h small (behind node b link apart fits) =
    take_after-size node b required h link apart fits

-- Over a free list that ends, whose nodes do not overlap the ones before them, and with more rounds
-- than there are nodes, `kmalloc` of fewer than 2 ^ 64 bytes returns the address behind the header
-- of the first node that is large enough, or else of the head of the list; the header that it
-- leaves there holds at least the bytes asked for.
pub kmalloc-first_fit :
    (h : Heap) (fuel bytes : ℕ) (bs : List ℕ)
    → Chain h.memory h.free_list_head bs
    → length bs < fuel
    → bytes < 2 ^ 64
    → let node = first_fit h.memory bytes h.free_list_head bs in
      (h' : Heap) × (kmalloc fuel bytes h ≡ ok (add64 node node_size, h'))
      × (bytes ≤ size h'.memory node)
unfolding kmalloc allocate_memory
kmalloc-first_fit h fuel bytes bs c enough small =
    let asked = (codes "Required bytes %zx\n", bytes) ∷ h.printed in
    let (printed, found) = find_fit-Chain c fuel bytes h.free_list_head asked enough in
    let from = heap h.memory h.free_list_head printed in
    let (block, fits) = take-Spot bytes from small (first_fit-Spot c bytes h.free_list_head) in
    let taken = take (fit_before h.memory bytes h.free_list_head bs) bytes from in
    (taken.1, rw found (ap (λ node. ok (add64 node node_size, taken.1)) block), fits)
