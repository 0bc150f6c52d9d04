-- ===== src/Tests/Caps.antt =====
-- Examples for kernel/src/cheri.c, kernel/src/cap.c and kernel/src/cnode.c.
use moonlight_os.Prelude.{
  ℕ, ◌≡◌, ◌⊎◌, refl, arith, true, false, List, [], ◌∷◌, some, set, fill, count,
}
use moonlight_os.Types.{ok}
use moonlight_os.Cheri.{SimCap, zero_sim_cap, memcpy_capped}
use moonlight_os.Cheri.Bounds.{CopiesWithin, memcpy_capped-CopiesWithin}
use moonlight_os.Cap.{
  Cap, zero_cap, zero_union, cap_endpoint, cap_untyped, cap_frame, derive, can_retype, retype,
}
use moonlight_os.Cap.Rights.{IsAttenuation, derive_all, derive_all-IsAttenuation}
use moonlight_os.Cap.Retype.{IsCarved, retype-IsCarved}
use moonlight_os.Cnode.{Cnode, Store, zero_cnode, lookup, insert, copy, copy_from, move, transfer}
use moonlight_os.Cnode.Used.{IsCounted}
use moonlight_os.Cnode.Derived.{
  Call, copies, moves, deletes, run, ComesFrom, AllWords, run-ComesFrom,
}

abbrev endpoint_cap : Cap
endpoint_cap = record zero_cap {
  type = cap_endpoint;
  rights = 7;
  is_valid = true;
  hw_cap = record zero_sim_cap { tag = true };
}

-- A table with one capability, at slot 3.
abbrev table : Cnode
table = record zero_cnode { radix = 8; slots = set (fill zero_cap) 3 endpoint_cap; used = 1 }

-- It stands at address 1, and an empty table everywhere else.
abbrev tables : Store
tables = set (fill (record zero_cnode { radix = 8 })) 1 table

abbrev calls : List Call
calls = copies 2 5 1 3 3 ∷ moves 1 9 1 3 ∷ deletes 2 5 ∷ []

tables-AllWords : AllWords tables
tables-AllWords p i = ground arith

run-ComesFrom_example : (m : Store) × (run tables calls ≡ some m) × ComesFrom tables m
run-ComesFrom_example =
    run-ComesFrom calls tables tables-AllWords (omega arith, (omega arith, (record {}, record {})))

copied : copy tables (some 2) 5 (some 1) 3 3 ≡ (ok, insert tables 2 5 (derive endpoint_cap 3 0))
unfolding copy copy_from lookup derive
copied = refl

empty-IsCounted : IsCounted (tables 2)
unfolding count
empty-IsCounted = refl

table-IsCounted : IsCounted (tables 1)
unfolding count
table-IsCounted = refl

moved : move tables (some 2) 5 (some 1) 3 ≡ some (ok, transfer tables 2 5 1 3)
unfolding move lookup
moved = refl

abbrev chain : List (ℕ × ℕ)
chain = (3, 9) ∷ (1, 10) ∷ []

chain-is_valid : (derive_all endpoint_cap chain).is_valid ≡ true
unfolding derive_all derive
chain-is_valid = refl

derive_all-IsAttenuation_example : IsAttenuation endpoint_cap (derive_all endpoint_cap chain)
derive_all-IsAttenuation_example =
    derive_all-IsAttenuation chain endpoint_cap (omega arith)
      (omega arith, (omega arith, record {})) chain-is_valid

abbrev untyped : Cap
untyped = record zero_cap {
  type = cap_untyped;
  is_valid = true;
  u = record zero_union { word0 = 0x8000_0000; word1 = 0x10000 };
}

retype-IsCarved_example :
    ((can_retype untyped cap_frame 0x2000 ≡ true)
      × IsCarved untyped (retype untyped cap_frame 0x8000_0000 0x2000) cap_frame 0x2000)
    ⊎ ((can_retype untyped cap_frame 0x2000 ≡ false)
        × (retype untyped cap_frame 0x8000_0000 0x2000 ≡ zero_cap))
retype-IsCarved_example = retype-IsCarved untyped cap_frame 0x2000 (omega arith)

retypes : can_retype untyped cap_endpoint 0x1000 ≡ true
unfolding can_retype
retypes = refl

abbrev buffer_cap : SimCap
buffer_cap = record zero_sim_cap { base = 100; top = 110; addr = 104; tag = true }

memcpy_capped-CopiesWithin_example :
    CopiesWithin buffer_cap (fill 7) 6 (fill 0) (memcpy_capped buffer_cap (fill 7) 6 (fill 0)).1
unfolding memcpy_capped
memcpy_capped-CopiesWithin_example =
    memcpy_capped-CopiesWithin buffer_cap (fill 7) 6 104 (fill 0)
      (memcpy_capped buffer_cap (fill 7) 6 (fill 0)).1 (omega arith) (omega arith) refl
