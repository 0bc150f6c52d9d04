-- ===== src/Servers/Mem/Grants.antt =====
-- What an allocation of userspace/mem_server/server.c grants, and what it leaves alone.
use moonlight_os.Prelude.{
  ℕ, zero, suc, ◌+◌, ◌≤◌, ◌<◌, ◌≡◌, inl, inr, refl, sym, ap, ◌∙◌, ◌&&◌, if◌then◌else◌, arith, Bool,
  true, false, ◌==◌, ltb, Bool-cases, ltb→lt, lt→ltb, first, first-zero, first-hit, first-miss,
  Option, none, some,
}
use mathlib.Core.Path.{ap₂}
use moonlight_os.Alloc.{color_is_valid}
use moonlight_os.Servers.Mem.{
  MemServer, Untyped, Outcome, fault, failed, granted, fits, max_untyped, retype_at, take_region,
  alloc_from, alloc,
}

-- A region of the table that was handed out: it was free, large enough and of a colour of the partition,
-- and it is now in use, while every other region is as before.
pub record IsGranted (partition size : ℕ) (s s' : MemServer) (paddr color k : ℕ) : Type 0 where
  pub index : (k < max_untyped) × (k < s.untyped_count)
  pub free : (s.untypeds k).free ≡ true
  pub large : size ≤ (s.untypeds k).size
  pub address : (s.untypeds k).paddr ≡ paddr
  pub shade : (s.untypeds k).color ≡ color
  pub colored : color_is_valid partition color ≡ true
  pub state : s' ≡ take_region s k

fits-parts :
    (partition size : ℕ) (u : Untyped)
    → fits partition size u ≡ true
    → (u.free ≡ true) × (size ≤ u.size) × (color_is_valid partition u.color ≡ true)
unfolding fits color_is_valid
fits-parts partition size u e = ground arith

module _ {W : Type 0} (retype : W → ℕ → ℕ → ℕ → ℕ → W × ℕ) where
  round-IsGranted :
      (partition size k : ℕ) (s : MemServer)
      → k < s.untyped_count
      → ltb k max_untyped ≡ true
      → fits partition size (s.untypeds k) ≡ true
      → IsGranted partition size s (take_region s k) (s.untypeds k).paddr (s.untypeds k).color k
  round-IsGranted partition size k s below inside fit =
      let (free, large, colored) = fits-parts partition size (s.untypeds k) fit in
      record {
        index = (ltb→lt _ _ inside, below);
        free = free;
        large = large;
        address = refl;
        shade = refl;
        colored = colored;
        state = refl;
      }

  -- One round of the loop, for each of its ends.
  module _ (partition size n i : ℕ) (s : MemServer) (w : W) where
    round_out :
        ltb i max_untyped ≡ false → alloc_from retype partition size (suc n) s w i ≡ (fault, s, w)
    unfolding alloc_from
    round_out out = rw (out, alloc_from) refl

    module _ (inside : ltb i max_untyped ≡ true) where
      pub round_unfit :
          fits partition size (s.untypeds i) ≡ false
          → alloc_from retype partition size (suc n) s w i
            ≡ alloc_from retype partition size n s w (i + 1)
      unfolding alloc_from
      round_unfit unfit = rw (inside, alloc_from) (rw (unfit, alloc_from) refl)

      module _ (fit : fits partition size (s.untypeds i) ≡ true) where
        round_refused :
            ((retype_at retype s w size i).1 == 0) ≡ false
            → alloc_from retype partition size (suc n) s w i
              ≡ alloc_from retype partition size n s (retype_at retype s w size i).0 (i + 1)
        unfolding alloc_from
        round_refused refused =
            rw (inside, alloc_from) (rw (fit, alloc_from) (rw (refused, alloc_from) refl))

        pub round_taken :
            ((retype_at retype s w size i).1 == 0) ≡ true
            → alloc_from retype partition size (suc n) s w i ≡ (
              granted (s.untypeds i).paddr (s.untypeds i).color,
              take_region s i,
              (retype_at retype s w size i).0,
            )
        unfolding alloc_from
        round_taken taken =
            rw (inside, alloc_from) (rw (fit, alloc_from) (rw (taken, alloc_from) refl))

  -- What each result of the loop says.
  abbrev pub Explains : ℕ → ℕ → MemServer → Outcome × MemServer × W → Type 0
  Explains partition size s (fault, s', w') = (max_untyped < s.untyped_count) × (s' ≡ s)
  Explains partition size s (failed, s', w') = s' ≡ s
  Explains partition size s (granted paddr color, s', w') =
      (k : ℕ) × (v : W) × IsGranted partition size s s' paddr color k
      × ((retype_at retype s v size k).0 ≡ w')
      × ((retype_at retype s v size k).1 ≡ 0)

  alloc_from-Explains :
      (partition size n i : ℕ) (s : MemServer) (w : W)
      → i + n ≤ s.untyped_count
      → Explains partition size s (alloc_from retype partition size n s w i)
  unfolding alloc_from
  alloc_from-Explains partition size zero i s w inside = refl
  alloc_from-Explains partition size (suc n) i s w inside = elim (Bool-cases (ltb i max_untyped)) [
    | inl small ↦ elim (Bool-cases (fits partition size (s.untypeds i))) [
      | inl fit ↦ elim (Bool-cases ((retype_at retype s w size i).1 == 0)) [
        | inl done ↦
            rw (round_taken partition size n i s w small fit done)
              (i, w, round-IsGranted partition size i s (omega arith) small fit, refl, ground arith)
        | inr refused ↦ rw (round_refused partition size n i s w small fit refused) (
            alloc_from-Explains partition size n (i + 1) s (retype_at retype s w size i).0
              (omega arith))
      ]
      | inr unfit ↦
          rw (round_unfit partition size n i s w small unfit)
            (alloc_from-Explains partition size n (i + 1) s w (omega arith))
    ]
    | inr out ↦ rw (round_out partition size n i s w out) (ground arith, refl)
  ]

  -- An allocation fails or reads outside the table without changing it, the latter only if the count is
  -- larger than the table; or it takes a free region that is large enough and of a colour that the
  -- kernel's allocator accepts for the partition, on which moonlight_retype was called and returned 0.
  pub alloc-Explains :
      (partition size : ℕ) (s : MemServer) (w : W)
      → Explains partition size s (alloc retype partition size s w)
  unfolding alloc
  alloc-Explains partition size s w =
      alloc_from-Explains partition size s.untyped_count 0 s w (omega arith)

  module _ (partition size : ℕ) (s : MemServer) (w : W) where
    -- The rest of the system after a call for each of the first `n` regions that fits.
    unfoldable pub tried : ℕ → W
    tried zero = w
    tried (suc n) =
        if fits partition size (s.untypeds n)
        then (retype_at retype s (tried n) size n).0
        else tried n

    -- A region that fits and that the call for it, after the calls for those before it, accepts.
    abbrev pub accepts : ℕ → Bool
    accepts k = fits partition size (s.untypeds k) && ((retype_at retype s (tried k) size k).1 == 0)

    -- What is returned when the search ends at `last`, or at a region.
    abbrev pub grant : ℕ → Option ℕ → Outcome × MemServer × W
    grant last none = (failed, s, tried last)
    grant last (some k) = (
      granted (s.untypeds k).paddr (s.untypeds k).color,
      take_region s k,
      (retype_at retype s (tried k) size k).0,
    )

    -- The first such region is taken, of `n` from the region `i` on.
    abbrev pub first_fit : ℕ → ℕ → Outcome × MemServer × W
    first_fit n i = grant (i + n) (first accepts n i)

    tried-next :
        (i : ℕ)
        → tried (i + 1) ≡ (
            if fits partition size (s.untypeds i)
            then (retype_at retype s (tried i) size i).0
            else tried i)
    unfolding tried
    tried-next i = let next : i + 1 ≡ suc i = omega arith in rw next refl

    first_fit-miss : (n i : ℕ) → accepts i ≡ false → first_fit n (i + 1) ≡ first_fit (suc n) i
    first_fit-miss n i miss =
        let last : i + 1 + n ≡ i + suc n = omega arith in
        ap₂ grant last (sym (first-miss accepts n i miss))

    alloc_from-first_fit :
        (n i : ℕ)
        → i + n ≤ max_untyped
        → alloc_from retype partition size n s (tried i) i ≡ first_fit n i
    unfolding alloc_from
    alloc_from-first_fit zero i inside =
        let here : i + 0 ≡ i = omega arith in sym (ap₂ grant here (first-zero accepts i))
    alloc_from-first_fit (suc n) i inside =
        let small = lt→ltb i max_untyped (omega arith) in
        let rest = alloc_from-first_fit n (i + 1) (omega arith) in
        elim (Bool-cases (fits partition size (s.untypeds i))) [
          | inr unfit ↦
              round_unfit partition size n i s (tried i) small unfit
              ∙ ap (λ (v : W). alloc_from retype partition size n s v (i + 1))
                  (sym (tried-next i ∙ rw unfit refl))
              ∙ rest
              ∙ first_fit-miss n i (rw unfit refl)
          | inl fit ↦ elim (Bool-cases ((retype_at retype s (tried i) size i).1 == 0)) [
            | inl done ↦
                round_taken partition size n i s (tried i) small fit done
                ∙ sym (ap (grant (i + suc n)) (first-hit accepts n i (rw (fit, done) refl)))
            | inr refused ↦
                round_refused partition size n i s (tried i) small fit refused
                ∙ ap (λ (v : W). alloc_from retype partition size n s v (i + 1))
                    (sym (tried-next i ∙ rw fit refl))
                ∙ rest
                ∙ first_fit-miss n i (rw (fit, refused) refl)
          ]
        ]

  -- Whatever moonlight_retype answers, if the count is within the table, an allocation takes the first region
  -- that fits and for which the call returns 0, after one call for each region before it that fits; it fails
  -- only if there is none.
  pub alloc-first_fit :
      (partition size : ℕ) (s : MemServer) (w : W)
      → s.untyped_count ≤ max_untyped
      → alloc retype partition size s w ≡ first_fit partition size s w s.untyped_count 0
  unfolding alloc tried
  alloc-first_fit partition size s w small =
      alloc_from-first_fit partition size s w s.untyped_count 0 (omega arith)
