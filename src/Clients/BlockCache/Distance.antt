-- ===== src/Clients/BlockCache/Distance.antt =====
-- Distances between blocks of the cache, as `GetBlockDistance` of clients/execution/blockcache.go
-- finds them.
use assertoor.Clients.BlockCache.{
  Block, BlockCache, get_cached_block_by_root, walk, head_fuel, get_block_distance,
}
use assertoor.Prelude.{
  ℕ, zero, suc, ◌+◌, ◌≤◌, ◌<◌, ◌≡◌, refl, ap, ◌∙◌, ◌⊎◌, inl, inr, Bool, true, false, Option, none,
  some, List, arith, ltb, ◌==◌, if◌then◌else◌, ==_iff, Bool-cases, Option-cases, nat_key,
  string_key, lookup,
}

-- From `h`, `n` steps to the parent lead to `b`, through blocks in the cache with their bodies.
unfoldable pub ParentChain : BlockCache → ℕ → ℕ → ℕ → Type 0
ParentChain cache zero h b = h ≡ b
ParentChain cache (suc n) h b =
    (x : Block) × (p : ℕ) × (lookup h cache.hash_map ≡ some x)
    × (x.parent ≡ some p)
    × ParentChain cache n p b

-- A block's number is above its parent's.
unfoldable pub IsNumbered : BlockCache → Type 0
IsNumbered cache =
    (h p : ℕ) (x y : Block)
    → lookup h cache.hash_map ≡ some x
    → x.parent ≡ some p
    → lookup p cache.hash_map ≡ some y
    → y.number < x.number

-- What the fuel must reach from the head `h`.
HasFuel : BlockCache → ℕ → ℕ → Type 0
HasFuel cache h fuel =
    (1 ≤ fuel) × ((x : Block) → lookup h cache.hash_map ≡ some x → x.number + 2 ≤ fuel)

-- One entry has one number.
one_number :
    (m : List (ℕ × Block)) (h b : ℕ) (x y : Block)
    → h ≡ b
    → lookup h m ≡ some x
    → lookup b m ≡ some y
    → x.number ≡ y.number
one_number m h b x y eq ex ey = cc

unlinked : (n : ℕ) (o : Option (Bool × ℕ)) → o ≡ some (false, 0) → o ≡ some (true, n) → ⊥
unlinked n o e f = cc

module _ (cache : BlockCache) (numbered : IsNumbered cache) where
  HasFuel-parent :
      (h p fuel : ℕ) (x : Block)
      → lookup h cache.hash_map ≡ some x
      → x.parent ≡ some p
      → HasFuel cache h (suc fuel)
      → HasFuel cache p fuel
  unfolding HasFuel IsNumbered
  HasFuel-parent h p fuel x e ep f =
      let g = f.1 x e in ((omega arith), λ y ey. let l = numbered h p x y e ep ey in omega arith)

  ParentChain-cached :
      (n h b : ℕ) (y : Block)
      → ParentChain cache n h b
      → lookup b cache.hash_map ≡ some y
      → (x : Block) × (lookup h cache.hash_map ≡ some x)
  unfolding ParentChain
  ParentChain-cached zero h b y c ey = (y, rw c ey)
  ParentChain-cached (suc n) h b y (x, p, ex, ep, c) ey = (x, ex)

  ParentChain-number :
      (n h b : ℕ) (x y : Block)
      → ParentChain cache n h b
      → lookup h cache.hash_map ≡ some x
      → lookup b cache.hash_map ≡ some y
      → y.number + n ≤ x.number
  unfolding ParentChain IsNumbered
  ParentChain-number zero h b x y c ex ey =
      let same = one_number cache.hash_map h b x y c ex ey in omega arith
  ParentChain-number (suc n) h b x y (z, p, ez, ep, c) ex ey =
      let (w, ew) = ParentChain-cached n p b y c ey in
      let below = ParentChain-number n p b w y c ew ey in
      let step = numbered h p z w ez ep ew in
      let same = one_number cache.hash_map h h z x refl ez ex in omega arith

  walk-step :
      (fuel b slot h dist p : ℕ) (x : Block)
      → lookup h cache.hash_map ≡ some x
      → x.parent ≡ some p
      → walk (suc fuel) b slot h dist cache ≡ (
          if ltb x.number slot
          then some (false, 0)
          else (if p == b then some (true, suc dist) else walk fuel b slot p (suc dist) cache))
  unfolding walk
  walk-step fuel b slot h dist p x e ep = rw (e, walk) (rw (ep, walk))

  walk-total :
      (fuel b slot h dist : ℕ)
      → HasFuel cache h fuel
      → ((n : ℕ) × (walk fuel b slot h dist cache ≡ some (true, dist + n))
          × ParentChain cache n h b)
        ⊎ (walk fuel b slot h dist cache ≡ some (false, 0))
  unfolding walk ParentChain HasFuel
  walk-total zero b slot h dist f = let one = f.0 in ground arith
  walk-total (suc fuel) b slot h dist f = elim (Option-cases (lookup h cache.hash_map)) [
    | inl e ↦ inr (rw (e, walk))
    | inr (x, e) ↦ elim (Option-cases x.parent) [
      | inl ep ↦ inr (ground arith)
      | inr (p, ep) ↦ elim (Bool-cases (ltb x.number slot)) [
        | inl lower ↦ inr (walk-step fuel b slot h dist p x e ep ∙ rw lower)
        | inr high ↦ elim (Bool-cases (p == b)) [
          | inl found ↦ inl (
            1,
            walk-step fuel b slot h dist p x e ep
                ∙ rw (high, found) (ap (λ d. some (true, d)) (omega arith)),
            (x, p, e, ep, (==_iff p b).0 found),
          )
          | inr other ↦
              elim (walk-total fuel b slot p (suc dist) (HasFuel-parent h p fuel x e ep f)) [
                | inl (n, eq, c) ↦ inl (
                  suc n,
                  walk-step fuel b slot h dist p x e ep
                      ∙ rw (high, other) (eq ∙ ap (λ d. some (true, d)) (omega arith)),
                  (x, p, e, ep, c),
                )
                | inr eq ↦ inr (walk-step fuel b slot h dist p x e ep ∙ rw (high, other) eq)
              ]
        ]
      ]
    ]
  ]

  walk-linked :
      (n fuel b h dist : ℕ) (y : Block)
      → lookup b cache.hash_map ≡ some y
      → ParentChain cache (suc n) h b
      → HasFuel cache h fuel
      → walk fuel b y.number h dist cache ≡ some (true, dist + suc n)
  unfolding walk ParentChain HasFuel
  walk-linked n zero b h dist y ey c f = let one = f.0 in ground arith
  walk-linked zero (suc fuel) b h dist y ey (x, p, e, ep, c) f =
      let high = ParentChain-number 1 h b x y (x, p, e, ep, c) e ey in
      let low : ltb x.number y.number ≡ false = ground arith in
      walk-step fuel b y.number h dist p x e ep
      ∙ rw (low, (==_iff p b).1 c) (ap (λ d. some (true, d)) (omega arith))
  walk-linked (suc n) (suc fuel) b h dist y ey (x, p, e, ep, c) f =
      let high = ParentChain-number (suc (suc n)) h b x y (x, p, e, ep, c) e ey in
      let low : ltb x.number y.number ≡ false = ground arith in
      let (w, ew) = ParentChain-cached (suc n) p b y c ey in
      let under = ParentChain-number (suc n) p b w y c ew ey in
      let same = λ (q : p ≡ b). one_number cache.hash_map p b w y q ew ey in
      let other : (p == b) ≡ false = ground arith in
      walk-step fuel b y.number h dist p x e ep
      ∙ rw (low, other)
          (walk-linked n fuel b p (suc dist) y ey c (HasFuel-parent h p fuel x e ep f)
            ∙ ap (λ d. some (true, d)) (omega arith))

  head_fuel-none : (h : ℕ) → lookup h cache.hash_map ≡ none → head_fuel h cache ≡ 1
  unfolding head_fuel
  head_fuel-none h e = rw (e, head_fuel)

  head_fuel-some :
      (h : ℕ) (x : Block) → lookup h cache.hash_map ≡ some x → head_fuel h cache ≡ x.number + 2
  unfolding head_fuel
  head_fuel-some h x e = rw (e, head_fuel)

  head_fuel-HasFuel : (h : ℕ) → HasFuel cache h (head_fuel h cache)
  unfolding HasFuel
  head_fuel-HasFuel h = elim (Option-cases (lookup h cache.hash_map)) [
    | inl e ↦ let eq = head_fuel-none h e in (omega arith, λ y ey. ground arith)
    | inr (x, e) ↦
        let eq = head_fuel-some h x e in
        (omega arith, λ y ey. let same = one_number cache.hash_map h h x y refl e ey in omega arith)
  ]

  get_block_distance-walk :
      (b h : ℕ) (y : Block)
      → (h == b) ≡ false
      → lookup b cache.hash_map ≡ some y
      → get_block_distance b h cache ≡ walk (head_fuel h cache) b y.number h 0 cache
  unfolding get_block_distance get_cached_block_by_root
  get_block_distance-walk b h y other e = rw (other, e, get_block_distance)

  distance-linked :
      (b h n : ℕ) (y : Block)
      → (h == b) ≡ false
      → lookup b cache.hash_map ≡ some y
      → ParentChain cache n h b
      → get_block_distance b h cache ≡ some (true, n)
  unfolding ParentChain
  distance-linked b h zero y other e c = ground arith
  distance-linked b h (suc n) y other e c =
      get_block_distance-walk b h y other e
      ∙ walk-linked n (head_fuel h cache) b h 0 y e c (head_fuel-HasFuel h)
      ∙ ap (λ d. some (true, d)) (omega arith)

  -- In a cache where a block's number is above its parent's, `GetBlockDistance` to a block in the
  -- cache ends. Either it answers linked at distance `n`, and `n` steps to the parent lead from the
  -- head to the block; or it answers not linked, and no number of steps does.
  pub get_block_distance-ParentChain :
      (b h : ℕ) (y : Block)
      → get_cached_block_by_root b cache ≡ some y
      → ((n : ℕ) × (get_block_distance b h cache ≡ some (true, n)) × ParentChain cache n h b)
        ⊎ ((get_block_distance b h cache ≡ some (false, 0))
            × ((n : ℕ) → ¬ (ParentChain cache n h b)))
  unfolding get_block_distance get_cached_block_by_root ParentChain
  get_block_distance-ParentChain b h y e = elim (Bool-cases (h == b)) [
    | inl same ↦ inl (0, rw same, (==_iff h b).0 same)
    | inr other ↦ elim (walk-total (head_fuel h cache) b y.number h 0 (head_fuel-HasFuel h)) [
      | inl (n, eq, c) ↦ inl (
        n,
        get_block_distance-walk b h y other e ∙ eq ∙ ap (λ d. some (true, d)) (omega arith),
        c,
      )
      | inr eq ↦
          let none_linked = get_block_distance-walk b h y other e ∙ eq in
          inr (none_linked, λ n c. unlinked n _ none_linked (distance-linked b h n y other e c))
    ]
  ]
