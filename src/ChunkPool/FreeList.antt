-- ===== src/ChunkPool/FreeList.antt =====
-- The pool keeps a stack of free ids as a linked list inside `next_`.
use thoth_ipc.Base.{
  ℕ, zero, suc, ◌-◌, ◌^◌, ◌≤◌, ◌<◌, ◌≡◌, ◌≢◌, refl, ◌∙◌, arith, List, [], ◌∷◌, length, length-set,
  get_or, set, get_or-set_self, get_or-set_ne, ◌⊎◌, inl, inr, u8, replicate,
}
use thoth_ipc.ChunkPool.{ChunkInfo, max_count, prepare, acquire, release, link_from}

-- `fl` is what one meets from `c` on along the links, up to the end mark
abbrev pub Chain : List ℕ → ℕ → List ℕ → Type 0
Chain next_ c [] = max_count ≤ c
Chain next_ c (x ∷ xs) = (c ≡ x) × (x < max_count) × Chain next_ (get_or next_ x 0) xs

abbrev pub NotIn : ℕ → List ℕ → Type 0
NotIn x [] = Unit
NotIn x (y ∷ ys) = (x ≢ y) × NotIn x ys

abbrev pub Distinct : List ℕ → Type 0
Distinct [] = Unit
Distinct (x ∷ xs) = NotIn x xs × Distinct xs

-- The pool's free ids are `fl`, the next one first, and none stands there twice.
pub record IsPool (info : ChunkInfo) (fl : List ℕ) : Type 0 where
  pub size : length info.next_ ≡ max_count
  pub chain : Chain info.next_ info.cursor_ fl
  pub distinct : Distinct fl

-- A write to a link off the chain leaves the chain.
Chain-set :
    (next_ : List ℕ) (i v c : ℕ) (fl : List ℕ)
    → NotIn i fl
    → Chain next_ c fl
    → Chain (set next_ i v) c fl
Chain-set next_ i v c [] h ch = ch
Chain-set next_ i v c (x ∷ xs) (ne, h) (e, lt, ch) =
    (e, lt, rw (get_or-set_ne next_ v 0 ne) (Chain-set next_ i v (get_or next_ x 0) xs h ch))

acquire_below :
    (info : ChunkInfo)
    → info.cursor_ < max_count
    → acquire info ≡ (info.cursor_, record info { cursor_ = get_or info.next_ info.cursor_ 0 })
unfolding acquire
acquire_below info h = ground arith

release_below :
    (info : ChunkInfo) (id : ℕ)
    → id < max_count
    → release info id ≡ record info { next_ = set info.next_ id info.cursor_; cursor_ = id }
unfolding release
release_below info id h = let small : u8 id ≡ id = omega arith in ground (arith, small)

-- On a pool with free ids `fl`, `acquire` answers -1 and changes nothing exactly where `fl` is
-- empty; otherwise it answers the first of `fl`, and the rest stays free.
pub acquire-IsPool :
    (info : ChunkInfo) (fl : List ℕ)
    → IsPool info fl
    → ((fl ≡ []) × (acquire info ≡ (2 ^ 32 - 1, info)))
      ⊎ ((x : ℕ) × (xs : List ℕ) × (fl ≡ x ∷ xs)
          × ((acquire info).0 ≡ x)
          × IsPool (acquire info).1 xs)
acquire-IsPool info [] p = inl (refl, unfold acquire in ground (arith, p.chain))
acquire-IsPool info (x ∷ xs) p =
    let (e, lt, rest) = p.chain in
    let popped = acquire_below info (omega arith) in
    inr (
      x,
      xs,
      refl,
      rw (popped, e) refl,
      rw (popped, e) (record { size = p.size; chain = rest; distinct = p.distinct.1 }),
    )

-- On a pool with free ids `fl`, `release` of an id below 32 that is not free makes it the next free
-- id, in front of `fl`.
pub release-IsPool :
    (info : ChunkInfo) (fl : List ℕ) (id : ℕ)
    → IsPool info fl
    → id < max_count
    → NotIn id fl
    → IsPool (release info id) (id ∷ fl)
release-IsPool info fl id p lt new = rw (release_below info id lt) (record {
  size = length-set info.next_ id info.cursor_ ∙ p.size;
  chain = (
    refl,
    lt,
    rw (get_or-set_self info.next_ id info.cursor_ 0 (omega (arith, p.size)))
        (Chain-set info.next_ id info.cursor_ info.cursor_ fl new p.chain),
  );
  distinct = (new, p.distinct);
})

-- `release` ignores an id out of range.
release_out_of_range : (info : ChunkInfo) (id : ℕ) → max_count ≤ id → release info id ≡ info
unfolding release
release_out_of_range info id h = ground arith

abbrev pub count_up : ℕ → ℕ → List ℕ
count_up zero i = []
count_up (suc n) i = i ∷ count_up n (suc i)

-- The pool of a fresh segment, all zero bytes, has all 32 ids free, 0 first.
pub prepare-zeroed :
    IsPool (prepare (record { next_ = replicate 32 0; cursor_ = 0; prepared_ = 0 })) (count_up 32 0)
unfolding prepare link_from
prepare-zeroed = omega arith

-- `prepare` leaves a pool in use as it is.
pub prepare_in_use : (info : ChunkInfo) → info.prepared_ ≡ 1 → prepare info ≡ info
unfolding prepare
prepare_in_use info h = ground arith
