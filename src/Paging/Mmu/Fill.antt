-- ===== src/Paging/Mmu/Fill.antt =====
-- src/paging.c, `remap_kernel`: the frames that are mapped to themselves, one after the other.
mod Pages
mod Sections
mod Tests
use os_c.Prelude.{
  ℕ, ◌%◌, ◌^◌, ◌<◌, ◌≡◌, ◌≢◌, ◌⊎◌, ◌∙◌, refl, sym, ap, inl, inr, some, List, [], ◌∷◌, All, arith,
}
use native.Mathlib.Decide.{ℕ_discrete}
use os_c.FrameAllocator.{Allocator}
use os_c.Printf.Outcome.{ok, ◌>>=◌}
use os_c.Paging.{get_p4_index, get_p3_index, get_p2_index, get_p1_index}
use os_c.Paging.Index.{indices-page}
use os_c.Paging.Entry.{flag_word}
use os_c.Paging.Mmu.{word_at, Mmu, Machine, machine, identity_map_page}
use os_c.Paging.Mmu.Step.{entered, entered-present}
use os_c.Paging.Mmu.Walks.{Recursive, Translates, walk-page}
use os_c.Paging.Mmu.Map.{Levels, Mapped}
use os_c.Paging.Mmu.Pages.{Mapped-others, identity_map_page-maps}
use os_c.Paging.Mmu.Remap.{identity_map_all}

-- The page's own entry is unused once its tables are there.
abbrev pub IsUnused :
    {m : ℕ → ℕ} {root top page : ℕ} {a : Allocator} {t3 t2 t1 : ℕ}
    → Levels m root top page a t3 t2 t1
    → Type 0
IsUnused {m} {root} {top} {page} {a} {t3} {t2} {t1} l =
    word_at (entered l.l2) t1 (get_p1_index page) % 2 ≡ 0

unused-apart :
    {m : ℕ → ℕ} {root top page : ℕ} {a : Allocator} {t3 t2 t1 : ℕ}
    (l : Levels m root top page a t3 t2 t1) (u j : ℕ)
    → IsUnused l
    → j < 512
    → word_at m u j % 2 ≡ 1
    → (t1 ≢ u) ⊎ (get_p1_index page ≢ j)
unused-apart {m} {root} {top} {page} {a} {t3} {t2} {t1} l u j unused p present =
    let (i4, i3, i2, i1, sum) = indices-page page in
    let in4 = entered-present l.l4 u j i4 p present in
    let in3 = entered-present l.l3 u j i3 p (ap (λ w. w % 2) in4 ∙ present) in
    let in2 = entered-present l.l2 u j i2 p (ap (λ w. w % 2) (in3 ∙ in4) ∙ present) in
    let still : word_at (entered l.l2) u j % 2 ≡ 1 = ap (λ w. w % 2) (in2 ∙ in3 ∙ in4) ∙ present in
    elim (ℕ_discrete t1 u) [
      | no ne ↦ inl ne
      | yes same ↦ elim (ℕ_discrete (get_p1_index page) j) [
        | no ne ↦ inr ne
        | yes same' ↦
            let both : word_at (entered l.l2) u j % 2 ≡ 0 = rw (← same, ← same') unused in
            ground (arith, both, still)
      ]
    ]

-- `kind` gives every frame of a table its depth, the top table the depth 4.
pub record AtDepth (kind : ℕ → ℕ) (t3 t2 t1 : ℕ) : Type 0 where
  pub third : kind t3 ≡ 3
  pub second : kind t2 ≡ 2
  pub first : kind t1 ≡ 1

-- Each frame in turn has its tables, or they can be added, and its page's entry is unused.
pub data CanFill (x : Mmu) (kind : ℕ → ℕ) (root top : ℕ)
    : (ℕ → ℕ) → Allocator → List (ℕ × ℕ) → Type 0 where
  full : (m : ℕ → ℕ) (a : Allocator) → CanFill x kind root top m a []
  fills :
      (m : ℕ → ℕ) (a : Allocator) (frame hi lo t3 t2 t1 : ℕ) (frames : List (ℕ × ℕ))
      (l : Levels m root top frame a t3 t2 t1)
      → IsUnused l
      → AtDepth kind t3 t2 t1
      → frame < 2 ^ 35
      → hi < 2 ^ 12
      → lo < 2 ^ 12
      → lo % 2 ≡ 1
      → ((m' : ℕ → ℕ) (a' : Allocator)
          → identity_map_page x frame (flag_word hi lo) (machine m root a) ≡ ok (machine m' root a')
          → CanFill x kind root top m' a' frames)
      → CanFill x kind root top m a ((frame, flag_word hi lo) ∷ frames)

-- What the calls leave: everything that was mapped, and the frames.
pub record Filled (x : Mmu) (kind : ℕ → ℕ) (root top : ℕ) (m m' : ℕ → ℕ) (frames : List (ℕ × ℕ))
    : Type 0 where
  pub recursive : Recursive m' root top
  pub kept :
      (page u3 u2 u1 f : ℕ)
      → AtDepth kind u3 u2 u1
      → Translates m top page u3 u2 u1 f
      → Translates m' top page u3 u2 u1 f
  pub mapped : All (λ q. x.walk m' top q.0 ≡ some q.0) frames

-- Pages apart from all the tables' frames, and from each other by their unused entries.
Mapped-AtDepth :
    (x : Mmu) (kind m : ℕ → ℕ) (root top page : ℕ) (a : Allocator) (t3 t2 t1 frame hi lo : ℕ)
    (s' : Machine) (l : Levels m root top page a t3 t2 t1)
    → IsUnused l
    → AtDepth kind t3 t2 t1
    → Mapped x m root top page t3 t2 t1 frame hi lo s'
    → (other u3 u2 u1 f : ℕ) → AtDepth kind u3 u2 u1
    → Translates m top other u3 u2 u1 f
    → Translates s'.memory top other u3 u2 u1 f
Mapped-AtDepth x kind m root top page a t3 t2 t1 frame hi lo s' l unused d mapped other u3 u2 u1 f e
      t =
    let (i4, i3, i2, i1, sum) = indices-page other in
    let not3 : t1 ≢ u3 = λ same. ground (arith, d.first, e.third, ap kind same) in
    let not2 : t1 ≢ u2 = λ same. ground (arith, d.first, e.second, ap kind same) in
    Mapped-others x m root top page t3 t2 t1 frame hi lo s' other u3 u2 u1 f mapped t l.t1-top not3
      not2 (unused-apart l u1 (get_p1_index other) unused i1 t.p1.present)

pub identity_map_all-fills :
    (x : Mmu) (kind : ℕ → ℕ) (root top : ℕ) (m : ℕ → ℕ) (a : Allocator) (frames : List (ℕ × ℕ))
    → Recursive m root top
    → CanFill x kind root top m a frames
    → (s' : Machine) × (identity_map_all x frames (machine m root a) ≡ ok s')
      × Filled x kind root top m s'.memory frames
unfolding identity_map_all
identity_map_all-fills x kind root top _ _ _ r (full m a) =
    (machine m root a, refl, record { recursive = r; kept = λ page u3 u2 u1 f d t. t; mapped = _ })
identity_map_all-fills x kind root top _ _ _ r
      (fills m a frame hi lo t3 t2 t1 frames l unused d fits high low present rest) =
    let (s1, done, mapped) =
      identity_map_page-maps x m root top a t3 t2 t1 frame hi lo r l fits high low present in
    let same : s1 ≡ machine s1.memory root s1.allocator =
      ap (λ q. machine s1.memory q s1.allocator) mapped.stays in
    let (s2, filled, later) =
      identity_map_all-fills x kind root top s1.memory s1.allocator frames mapped.recursive
        (rest s1.memory s1.allocator (done ∙ ap ok same)) in
    let head = later.kept frame t3 t2 t1 frame d mapped.translated in
    let stayed =
      Mapped-AtDepth x kind m root top frame a t3 t2 t1 frame hi lo s1 l unused d mapped in
    (
      s2,
      rw (done, same) filled,
      record {
        recursive = later.recursive;
        kept = λ page u3 u2 u1 f e t. later.kept page u3 u2 u1 f e (stayed page u3 u2 u1 f e t);
        mapped = (walk-page x s2.memory top frame t3 t2 t1 frame head, later.mapped);
      },
    )
