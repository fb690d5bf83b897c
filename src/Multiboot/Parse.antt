-- ===== src/Multiboot/Parse.antt =====
-- src/multiboot.c, `parse_multiboot_data`: the pointers that are left behind by the tags.
use os_c.Prelude.{
  codes, ℕ, zero, suc, ◌+◌, ◌*◌, ◌≤◌, ◌≡◌, ◌≢◌, refl, ap, ◌∙◌, inl, inr, Bool-cases, ltb, ◌==◌,
  if◌then◌else◌, false, true, List, [], ◌∷◌, length, arith,
}
use os_c.Memory.{read32, read64}
use os_c.Printf.Outcome.{Result, ok, ◌>>=◌}
use os_c.Multiboot.{
  Pointers, say, tag_type, num_of_maps, say_maps, say_tag, handle_maps, handle_tag, parse_tags,
}
use os_c.Multiboot.Tags.{Tags, handle_tags, parse_tags-handle_tags}

-- the last of the tags of a type, or what was there before
unfoldable pub last_of : (ℕ → ℕ) → ℕ → List ℕ → ℕ → ℕ
last_of m t [] before = before
last_of m t (tag ∷ tags) before = last_of m t tags (if tag_type m tag == t then tag else before)

-- Every memory map tells the size of its entries.
unfoldable pub IsReadable : (ℕ → ℕ) → List ℕ → Type 0
IsReadable m [] = Unit {0}
IsReadable m (tag ∷ tags) = (tag_type m tag ≡ 6 → read32 m (tag + 8) ≢ 0) × IsReadable m tags

-- the pointers without the calls that were printed
abbrev pub forget : Pointers → Pointers
forget p = record p { printed = [] }

-- Every pointer is to the last tag of its type.
abbrev pub noted : (ℕ → ℕ) → List ℕ → Pointers → Pointers
noted m tags p = record {
  info = last_of m 4 tags p.info;
  name = last_of m 2 tags p.name;
  device = last_of m 5 tags p.device;
  command_line = last_of m 1 tags p.command_line;
  symbols = last_of m 9 tags p.symbols;
  maps = last_of m 6 tags p.maps;
  memory_map = last_of m 6 tags p.memory_map;
  elf_symbols = last_of m 9 tags p.elf_symbols;
  printed = [];
}

-- a call that returns, and well
pub data Succeeds {A : Type 0} (P : A → Type 0) : Result A → Type 0 where
  succeeds : {a : A} → P a → Succeeds P (ok a)

Succeeds-bind :
    {A B : Type 0} {P : A → Type 0} {Q : B → Type 0} {r : Result A} {f : A → Result B}
    → Succeeds P r
    → ((a : A) → P a → Succeeds Q (f a))
    → Succeeds Q (r >>= f)
Succeeds-bind (succeeds p) h = h _ p

Succeeds-map :
    {A : Type 0} {P Q : A → Type 0} {r : Result A}
    → Succeeds P r
    → ((a : A) → P a → Q a)
    → Succeeds Q r
Succeeds-map (succeeds p) h = succeeds (h _ p)

say_maps-forget :
    (m : ℕ → ℕ) (tag n i : ℕ) (p : Pointers) → forget (say_maps m tag n i p) ≡ forget p
unfolding say_maps
say_maps-forget m tag zero i p = refl
say_maps-forget m tag (suc n) i p = say_maps-forget m tag n (i + 1) (
    say (codes "Addr: %#zx \t Length: %#zx\n")
      (read64 m (tag + 16 + 24 * i) ∷ read64 m (tag + 16 + 24 * i + 8) ∷ []) p)

say_tag-forget : (m : ℕ → ℕ) (tag : ℕ) (p : Pointers) → forget (say_tag m tag p) ≡ forget p
unfolding say_tag
say_tag-forget m tag p = elim (Bool-cases (ltb 21 (tag_type m tag))) [
  | inl more ↦ rw more
  | inr less ↦ rw less
]

handle_maps-noted :
    (m : ℕ → ℕ) (tag : ℕ) (p : Pointers)
    → read32 m (tag + 8) ≢ 0
    → Succeeds
        (λ q. forget q ≡ forget (record p { maps = tag; memory_map = tag }))
        (handle_maps m tag p)
unfolding handle_maps num_of_maps
handle_maps-noted m tag p ne =
    let some_size : (read32 m (tag + 8) == 0) ≡ false = ground (arith, ne) in
    rw some_size (succeeds (say_maps-forget m tag _ 0 _))

==_yes : {a b : ℕ} → (a == b) ≡ true → a ≡ b
==_yes e = ground (arith, e)

handle_tag-noted :
    (m : ℕ → ℕ) (tag : ℕ) (p : Pointers)
    → (tag_type m tag ≡ 6 → read32 m (tag + 8) ≢ 0)
    → Succeeds (λ q. forget q ≡ noted m (tag ∷ []) p) (handle_tag m tag p)
unfolding handle_tag last_of
handle_tag-noted m tag p readable =
    let t = tag_type m tag in
    elim (Bool-cases (t == 4)) [
      | inl e ↦ rw (==_yes e) (succeeds refl)
      | inr n4 ↦ elim (Bool-cases (t == 2)) [
        | inl e ↦ rw (==_yes e) (succeeds refl)
        | inr n2 ↦ elim (Bool-cases (t == 5)) [
          | inl e ↦ rw (==_yes e) (succeeds refl)
          | inr n5 ↦ elim (Bool-cases (t == 1)) [
            | inl e ↦ rw (==_yes e) (succeeds refl)
            | inr n1 ↦ elim (Bool-cases (t == 9)) [
              | inl e ↦ rw (==_yes e) (succeeds refl)
              | inr n9 ↦ elim (Bool-cases (t == 6)) [
                | inl e ↦ rw (==_yes e) (handle_maps-noted m tag p (readable (==_yes e)))
                | inr n6 ↦ rw (n4, n2, n5, n1, n9, n6) (succeeds (say_tag-forget m tag p))
              ]
            ]
          ]
        ]
      ]
    ]

got :
    {A : Type 0} {P : A → Type 0} {r s : Result A}
    → Succeeds P r
    → s ≡ r
    → (a : A) × (s ≡ ok a) × P a
got (succeeds {a} p) e = (a, e, p)

-- Every tag is handled without a fault, if no memory map tells that its entries have no size, and every
-- pointer is to the last tag of its type then.
handle_tags-noted :
    (m : ℕ → ℕ) (tags : List ℕ) (p : Pointers)
    → IsReadable m tags
    → Succeeds (λ q. forget q ≡ noted m tags p) (handle_tags m tags p)
unfolding handle_tags last_of IsReadable
handle_tags-noted m [] p readable = succeeds refl
handle_tags-noted m (tag ∷ tags) p (here, there) =
    Succeeds-bind (handle_tag-noted m tag p here) (λ q e.
      Succeeds-map (handle_tags-noted m tags q there) (λ q' f. f ∙ ap (λ r. noted m tags r) e))

-- Over tags that lead up to an end tag, with at least as many rounds as tags, and if no memory map
-- says that its entries have no size, the loop of `parse_multiboot_data` returns, and leaves each
-- global pointer at the last tag of its type, or as it was if there is none.
pub parse_tags-noted :
    {m : ℕ → ℕ} {tag : ℕ} {tags : List ℕ} (t : Tags m tag tags) (fuel : ℕ) (p : Pointers)
    → length tags ≤ fuel
    → IsReadable m tags
    → (q : Pointers) × (parse_tags fuel m tag p ≡ ok q) × (forget q ≡ noted m tags p)
parse_tags-noted {m} {tags} t fuel p enough readable =
    got (handle_tags-noted m tags p readable) (parse_tags-handle_tags t fuel p enough)
