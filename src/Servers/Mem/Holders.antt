-- ===== src/Servers/Mem/Holders.antt =====
-- No region of userspace/mem_server/server.c is handed out twice, seen from the messages of the clients.
use native.Mathlib.Decide.{ℕ_discrete}
use moonlight_os.Prelude.{
  ℕ, zero, suc, ◌%◌, ◌^◌, ◌≤◌, ◌<◌, ◌≡◌, ◌≢◌, inl, inr, sym, ◌∙◌, arith, Bool, true, false, ◌==◌,
  leb, if◌then◌else◌, Bool-cases, Array, set, set_ne, Option-cases, Option, none, some, List, [],
  ◌∷◌, update_all, fill, lt_or_eq, update_all_lem,
}
use mathlib.Core.Option
use mathlib.Core.Path.{subst}
use moonlight_os.Types.{IpcMsg}
use moonlight_os.Servers.Mem.{
  MemServer, Untyped, Outcome, fault, failed, granted, release, take_region, alloc, max_untyped,
  handle, handle_alloc, handle_free, alloc_reply, init, init_regions,
}
use moonlight_os.Servers.Mem.Grants.{Explains, alloc-Explains}

-- What a client can tell from a request and its reply.
pub data Event : Type 0 where
  handed_out : ℕ → Event
  given_back : ℕ → Event
  nothing : Event

-- A reply to the label 1 with 0 in its first word hands out the address in the second; a request with
-- the label 2 gives back the address in its first word.
unfoldable pub event_of : IpcMsg → Option IpcMsg → Event
event_of msg none = nothing
event_of msg (some reply) =
    if msg.label == 1
    then if reply.words 0 == 0 then handed_out (reply.words 1) else nothing
    else given_back (msg.words 0)

-- The holders after an event: whether some client holds the region at an address.
abbrev pub after : Event → Array Bool → Array Bool
after (handed_out p) held = set held p true
after (given_back p) held = set held p false
after nothing held = held

-- No address is handed out while it is held.
abbrev pub IsFresh : Event → Array Bool → Type 0
IsFresh (handed_out p) held = held p ≡ false
IsFresh (given_back p) held = Unit {0}
IsFresh nothing held = Unit {0}

abbrev pub AllFresh : Array Bool → List Event → Type 0
AllFresh held [] = Unit {0}
AllFresh held (e ∷ es) = IsFresh e held × AllFresh (after e held) es

-- The regions of the table have different addresses.
abbrev pub IsDistinct : MemServer → Type 0
IsDistinct s =
    (i j : ℕ)
    → i < s.untyped_count
    → j < s.untyped_count
    → (s.untypeds i).paddr ≡ (s.untypeds j).paddr
    → i ≡ j

-- What is held is a region of the table in use.
record Tracks (s : MemServer) (held : Array Bool) : Type 0 where
  distinct : IsDistinct s
  used :
      (p : ℕ)
      → held p ≡ true
      → (k : ℕ) × (k < s.untyped_count) × ((s.untypeds k).paddr ≡ p) × ((s.untypeds k).free ≡ false)

take-paddr : (s : MemServer) (k i : ℕ) → ((take_region s k).untypeds i).paddr ≡ (s.untypeds i).paddr
take-paddr s k i = ground arith

take-used :
    (s : MemServer) (k i : ℕ)
    → (s.untypeds i).free ≡ false
    → ((take_region s k).untypeds i).free ≡ false
take-used s k i e = ground arith

take-Tracks :
    (s : MemServer) (held : Array Bool) (k : ℕ)
    → k < s.untyped_count
    → Tracks s held
    → Tracks (take_region s k) (set held (s.untypeds k).paddr true)
take-Tracks s held k below t = record {
  distinct = λ i j hi hj e. t.distinct i j hi hj (sym (take-paddr s k i) ∙ e ∙ take-paddr s k j);
  used = λ p e. elim (ℕ_discrete (s.untypeds k).paddr p) [
    | yes here ↦ (k, below, take-paddr s k k ∙ here, ground arith)
    | no other ↦
        let (i, hi, at, busy) = t.used p (sym (set_ne held _ p true other) ∙ e) in
        (i, hi, take-paddr s k i ∙ at, take-used s k i busy)
  ];
}

take-IsFresh :
    (s : MemServer) (held : Array Bool) (k : ℕ)
    → k < s.untyped_count
    → (s.untypeds k).free ≡ true
    → Tracks s held
    → held (s.untypeds k).paddr ≡ false
take-IsFresh s held k below free t = elim (Bool-cases (held (s.untypeds k).paddr)) [
  | inl taken ↦
      let (i, hi, at, busy) = t.used (s.untypeds k).paddr taken in
      let same = t.distinct i k hi below at in absurd (ground arith)
  | inr fresh ↦ fresh
]

init_regions-paddr :
    (bases sizes colors : Array ℕ) (us : Array Untyped) (n i : ℕ)
    → i < n
    → (init_regions bases sizes colors n us i).paddr ≡ bases i
unfolding init_regions
init_regions-paddr bases sizes colors us zero i h = absurd (omega arith)
init_regions-paddr bases sizes colors us (suc n) i h = elim (lt_or_eq i n h) [
  | inl here ↦ ground arith
  | inr less ↦ ground (arith, init_regions-paddr bases sizes colors us n i less)
]

init-paddr :
    (s : MemServer) (bases sizes colors : Array ℕ) (n i : ℕ)
    → n ≤ max_untyped
    → i < n
    → ((init s bases sizes colors n).untypeds i).paddr ≡ bases i
unfolding init
init-paddr s bases sizes colors n i small below =
    init_regions-paddr bases sizes colors s.untypeds _ i (ground arith)

-- Nothing is held of a table that was filled just now with different addresses.
init-Tracks :
    (s : MemServer) (bases sizes colors : Array ℕ) (n : ℕ)
    → n ≤ max_untyped
    → ((i j : ℕ) → i < n → j < n → bases i ≡ bases j → i ≡ j)
    → Tracks (init s bases sizes colors n) (fill false)
unfolding init
init-Tracks s bases sizes colors n small different = record {
  distinct = λ i j hi hj e. different i j hi hj (
      sym (init-paddr s bases sizes colors n i small hi)
      ∙ e
      ∙ init-paddr s bases sizes colors n j small hj);
  used = λ p e. cc;
}

abbrev after_free : MemServer → ℕ → MemServer
after_free s q = record s { untypeds = update_all s.untyped_count (release q) s.untypeds }

free-paddr : (s : MemServer) (q i : ℕ) → ((after_free s q).untypeds i).paddr ≡ (s.untypeds i).paddr
free-paddr s q i = ground (arith, update_all_lem s.untyped_count (release q) s.untypeds i)

free-used :
    (s : MemServer) (q i : ℕ)
    → (s.untypeds i).free ≡ false
    → (s.untypeds i).paddr ≢ q
    → ((after_free s q).untypeds i).free ≡ false
free-used s q i e ne = ground (arith, update_all_lem s.untyped_count (release q) s.untypeds i)

free-Tracks :
    (s : MemServer) (held : Array Bool) (q : ℕ)
    → Tracks s held
    → Tracks (after_free s q) (set held q false)
free-Tracks s held q t = record {
  distinct = λ i j hi hj e. t.distinct i j hi hj (sym (free-paddr s q i) ∙ e ∙ free-paddr s q j);
  used = λ p e. elim (ℕ_discrete q p) [
    | yes here ↦ absurd (ground arith)
    | no other ↦
        let (i, hi, at, busy) = t.used p (sym (set_ne held q p false other) ∙ e) in
        (i, hi, free-paddr s q i ∙ at, free-used s q i busy (λ z. other (sym z ∙ at)))
  ];
}

module _ {W : Type 0} (retype : W → ℕ → ℕ → ℕ → ℕ → W × ℕ) where
  -- The events of a series of requests up to an access outside the table, with the values of the unwritten
  -- variables at each.
  unfoldable pub events : MemServer → W → List (IpcMsg × (ℕ × ℕ)) → List Event
  events s w [] = []
  events s w ((msg, junk) ∷ rest) = elim (handle retype s w msg junk) [
    | none ↦ []
    | some (reply, s', w') ↦ event_of msg reply ∷ events s' w' rest
  ]

  -- A step leaves the holders right, and hands out nothing that is held.
  abbrev IsSound : Array Bool → IpcMsg → Option (Option IpcMsg × MemServer × W) → Type 0
  IsSound held msg none = Unit {0}
  IsSound held msg (some (reply, s, w)) =
      IsFresh (event_of msg reply) held × Tracks s (after (event_of msg reply) held)

  reply-IsSound :
      (partition size : ℕ) (s : MemServer) (held : Array Bool) (msg : IpcMsg) (junk : ℕ × ℕ)
      (r : Outcome × MemServer × W)
      → (msg.label == 1) ≡ true
      → Tracks s held
      → Explains retype partition size s r
      → IsSound held msg (Option.map (λ a. (some a.0, a.1, a.2)) (alloc_reply msg junk r))
  unfolding alloc_reply event_of
  reply-IsSound partition size s held msg junk (fault, s', w) one t x = tt
  reply-IsSound partition size s held msg junk (failed, s', w) one t x = rw (one, x) (tt, t)
  reply-IsSound partition size s held msg junk (granted p c, s', w) one t (k, v, g, _, _) =
      rw (one, g.state, ← g.address)
        (take-IsFresh s held k g.index.1 g.free t, take-Tracks s held k g.index.1 t)

  free-IsSound :
      (s : MemServer) (held : Array Bool) (w : W) (msg : IpcMsg)
      → (msg.label == 1) ≡ false
      → Tracks s held
      → IsSound held msg (Option.map (λ a. (some a.0, a.1, a.2)) (handle_free s w msg))
  unfolding handle_free event_of
  free-IsSound s held w msg more t = elim (Bool-cases (leb s.untyped_count max_untyped)) [
    | inl small ↦ rw small (rw more (tt, free-Tracks s held (msg.words 0) t))
    | inr large ↦ rw large tt
  ]

  handle-IsSound :
      (s : MemServer) (held : Array Bool) (w : W) (msg : IpcMsg) (junk : ℕ × ℕ)
      → Tracks s held
      → IsSound held msg (handle retype s w msg junk)
  unfolding handle handle_alloc event_of
  handle-IsSound s held w msg junk t = elim (Bool-cases (msg.label == 1)) [
    | inl one ↦ rw one (
        reply-IsSound (msg.words 0 % 2 ^ 32) (msg.words 1) s held msg junk
          (alloc retype (msg.words 0 % 2 ^ 32) (msg.words 1) s w) one t
          (alloc-Explains retype (msg.words 0 % 2 ^ 32) (msg.words 1) s w))
    | inr more ↦ rw more (elim (Bool-cases (msg.label == 2)) [
      | inl two ↦ rw two (free-IsSound s held w msg more t)
      | inr ignored ↦ rw ignored (tt, t)
    ])
  ]

  events-AllFresh :
      (s : MemServer) (held : Array Bool) (w : W) (msgs : List (IpcMsg × (ℕ × ℕ)))
      → Tracks s held
      → AllFresh held (events s w msgs)
  unfolding events
  events-AllFresh s held w [] t = tt
  events-AllFresh s held w ((msg, junk) ∷ rest) t =
      elim (Option-cases (handle retype s w msg junk)) [
        | inl out ↦ rw (out, events) tt
        | inr ((reply, s', w'), e) ↦
            let sound : IsSound held msg (some (reply, s', w')) =
              subst (λ r. IsSound held msg r) (e) (handle-IsSound s held w msg junk t) in
            rw (e, events)
              (sound.0, events-AllFresh s' (after (event_of msg reply) held) w' rest sound.1)
      ]

  -- After an initialisation with at most 32 regions of different addresses, over any series of requests and
  -- whatever moonlight_retype answers: no reply hands out the address of a region that an earlier reply
  -- handed out, unless a request gave it back in between.
  pub init-events-AllFresh :
      (s : MemServer) (bases sizes colors : Array ℕ) (n : ℕ) (w : W)
      (msgs : List (IpcMsg × (ℕ × ℕ)))
      → n ≤ max_untyped
      → ((i j : ℕ) → i < n → j < n → bases i ≡ bases j → i ≡ j)
      → AllFresh (fill false) (events (init s bases sizes colors n) w msgs)
  init-events-AllFresh s bases sizes colors n w msgs small different =
      events-AllFresh (init s bases sizes colors n) (fill false) w msgs
        (init-Tracks s bases sizes colors n small different)
