-- ===== src/Multiboot/Tags.antt =====
-- src/multiboot.c, `find_next_tag_address` and the loop of `parse_multiboot_data`.
use os_c.Prelude.{
  ℕ, zero, suc, ◌+◌, ◌%◌, ◌^◌, ◌≤◌, ◌<◌, ◌≡◌, ◌≢◌, refl, sym, ◌==◌, false, List, [], ◌∷◌, length,
  arith,
}
use os_c.Printf.Outcome.{Result, ok, out_of_fuel, ◌>>=◌, >>=-ok, >>=-ext}
use os_c.Multiboot.{Pointers, tag_type, tag_size, find_next_tag_address, handle_tag, parse_tags}

-- For a tag that is no end tag and ends eight bytes or more below 2 ^ 64, `find_next_tag_address`
-- gives the first multiple of eight at or behind the tag's end.
pub find_next_tag_address-aligned :
    (m : ℕ → ℕ) (tag : ℕ)
    → tag_type m tag ≢ 0
    → tag + tag_size m tag + 8 < 2 ^ 64
    → (find_next_tag_address m tag % 8 ≡ 0)
      × (tag + tag_size m tag ≤ find_next_tag_address m tag)
      × (find_next_tag_address m tag < tag + tag_size m tag + 8)
unfolding find_next_tag_address
find_next_tag_address-aligned m tag more room = ground (arith, more, room)

-- the tags from an address on, to the end tag
pub data Tags (m : ℕ → ℕ) : ℕ → List ℕ → Type 0 where
  last_tag : (tag : ℕ) → tag_type m tag ≡ 0 → Tags m tag (tag ∷ [])
  more_tags :
      (tag after : ℕ) (tags : List ℕ)
      → tag_type m tag ≢ 0
      → find_next_tag_address m tag ≡ after
      → after ≢ 0
      → Tags m after tags
      → Tags m tag (tag ∷ tags)

-- the handler of every tag in turn
unfoldable pub handle_tags : (ℕ → ℕ) → List ℕ → Pointers → Result Pointers
handle_tags m [] p = ok p
handle_tags m (tag ∷ tags) p = handle_tag m tag p >>= λ q. handle_tags m tags q

-- Over tags that end, the loop handles each of them once and in order, and stops at the end tag.
pub parse_tags-handle_tags :
    {m : ℕ → ℕ} {tag : ℕ} {tags : List ℕ} (t : Tags m tag tags) (fuel : ℕ) (p : Pointers)
    → length tags ≤ fuel
    → parse_tags fuel m tag p ≡ handle_tags m tags p
unfolding parse_tags handle_tags find_next_tag_address
parse_tags-handle_tags (last_tag tag stop) zero p enough = elim enough [ ]
parse_tags-handle_tags (more_tags tag after tags more next ne t) zero p enough = elim enough [ ]
parse_tags-handle_tags {m} (last_tag tag stop) (suc fuel) p enough =
    rw stop (sym (>>=-ok (handle_tag m tag p)))
parse_tags-handle_tags {m} (more_tags tag after tags more next ne t) (suc fuel) p enough =
    let other : (after == 0) ≡ false = ground (arith, ne) in
    rw (next, other)
      (>>=-ext (handle_tag m tag p) (λ q. parse_tags fuel m after q) (λ q. handle_tags m tags q)
        (λ q e. parse_tags-handle_tags t fuel q (omega arith)))

-- If a tag is followed by itself, as one of no size at a multiple of eight is, and it can be
-- handled, the loop of `parse_multiboot_data` never ends: no number of rounds is enough.
pub parse_tags-zero_size :
    (m : ℕ → ℕ) (tag fuel : ℕ) (p : Pointers)
    → find_next_tag_address m tag ≡ tag
    → tag ≢ 0
    → ((q : Pointers) → (r : Pointers) × (handle_tag m tag q ≡ ok r))
    → parse_tags fuel m tag p ≡ out_of_fuel
unfolding parse_tags
parse_tags-zero_size m tag zero p same ne handled = refl
parse_tags-zero_size m tag (suc fuel) p same ne handled =
    let other : (tag == 0) ≡ false = ground (arith, ne) in
    let (r, done) = handled p in
    rw (same, other, done, parse_tags-zero_size m tag fuel r same ne handled)
