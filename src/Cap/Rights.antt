-- ===== src/Cap/Rights.antt =====
-- Rights of capabilities: what `cap_has_right` and `cap_derive` of kernel/src/cap.c decide.
use moonlight_os.Prelude.{ℕ, ◌^◌, ◌<◌, ◌≡◌, ◌↔◌, refl, arith, true, List, [], ◌∷◌, ==_iff, bit_and}
use moonlight_os.Prelude.Bits.{
  IsSubmask, IsSubmask-refl, IsSubmask-trans, bit_and-eq_iff, bit_and-not_iff, bit_not,
}
use moonlight_os.Cap.{Cap, has_right, derive}

-- `cap_has_right` holds of a 32-bit mask exactly when every bit of the mask is among the rights.
pub has_right_iff :
    (c : Cap) (r : ℕ) → r < 2 ^ 32 → (has_right c r ≡ true) ↔ IsSubmask 32 r c.rights
unfolding has_right
has_right_iff c r h =
    let masks = bit_and-eq_iff 32 c.rights r h in
    let tests = ==_iff (bit_and c.rights r) r in
    (λ e. masks.0 (tests.0 e), λ s. tests.1 (masks.1 s))

-- What a successful derivation keeps of its parent, and what it may have changed.
pub record IsAttenuation (parent child : Cap) : Type 0 where
  pub valid : parent.is_valid ≡ true
  pub attenuated : IsSubmask 32 child.rights parent.rights
  pub type : child.type ≡ parent.type
  pub object : child.u ≡ parent.u
  pub hardware : child.hw_cap ≡ parent.hw_cap

pub IsAttenuation-trans : {a b c : Cap} → IsAttenuation a b → IsAttenuation b c → IsAttenuation a c
IsAttenuation-trans {a} {b} {c} p q = record {
  valid = p.valid;
  attenuated = IsSubmask-trans 32 c.rights b.rights a.rights q.attenuated p.attenuated;
  type = ground arith;
  object = cc;
  hardware = cc;
}

derive-passed :
    (p : Cap) (r b : ℕ)
    → (derive p r b).is_valid ≡ true
    → (p.is_valid ≡ true)
      × (bit_and r (bit_not 32 p.rights) ≡ 0)
      × (derive p r b ≡ record p { rights = r; badge = b })
unfolding derive
derive-passed p r b e = ground arith

derive-allowed :
    (p : Cap) (r b : ℕ)
    → p.is_valid ≡ true
    → bit_and r (bit_not 32 p.rights) ≡ 0
    → (derive p r b).is_valid ≡ true
unfolding derive
derive-allowed p r b valid masked = ground arith

-- A derived capability is valid only if its parent is, and then its rights are among the parent's
-- and it names the same object by the same hardware capability.
pub derive-IsAttenuation :
    (p : Cap) (r b : ℕ)
    → p.rights < 2 ^ 32
    → r < 2 ^ 32
    → (derive p r b).is_valid ≡ true
    → IsAttenuation p (derive p r b)
derive-IsAttenuation p r b hp hr e =
    let (valid, masked, result) = derive-passed p r b e in
    rw result (record {
      valid = valid;
      attenuated = (bit_and-not_iff 32 r p.rights hr hp).0 masked;
      type = refl;
      object = refl;
      hardware = refl;
    })

-- Derivation succeeds exactly for a valid parent that has every right that is asked for, given masks of 32
-- bits.
pub derive-is_valid_iff :
    (p : Cap) (r b : ℕ)
    → p.rights < 2 ^ 32
    → r < 2 ^ 32
    → ((derive p r b).is_valid ≡ true) ↔ ((p.is_valid ≡ true) × IsSubmask 32 r p.rights)
derive-is_valid_iff p r b hp hr = (
  λ e.
      let (valid, masked, _) = derive-passed p r b e in
      (valid, (bit_and-not_iff 32 r p.rights hr hp).0 masked),
  λ (valid, s). derive-allowed p r b valid ((bit_and-not_iff 32 r p.rights hr hp).1 s),
)

-- A chain of derivations, each with its rights and badge.
unfoldable pub derive_all : Cap → List (ℕ × ℕ) → Cap
derive_all c [] = c
derive_all c ((r, b) ∷ rest) = derive_all (derive c r b) rest

-- The rights that a chain asks for fit in 32 bits.
abbrev pub AllWords : List (ℕ × ℕ) → Type 0
AllWords [] = Unit {0}
AllWords ((r, _) ∷ rest) = (r < 2 ^ 32) × AllWords rest

pub derive-rights-lt :
    (p : Cap) (r b : ℕ) → p.rights < 2 ^ 32 → r < 2 ^ 32 → (derive p r b).rights < 2 ^ 32
unfolding derive
derive-rights-lt p r b hp hr = ground arith

derive_all-is_valid :
    (ds : List (ℕ × ℕ)) (c : Cap) → (derive_all c ds).is_valid ≡ true → c.is_valid ≡ true
unfolding derive_all
derive_all-is_valid [] c e = e
derive_all-is_valid ((r, b) ∷ rest) c e =
    (derive-passed c r b (derive_all-is_valid rest (derive c r b) e)).0

-- No chain of derivations, of any length and with masks of 32 bits, gains a right or changes the object: a
-- valid capability at its end attenuates the one at its start.
pub derive_all-IsAttenuation :
    (ds : List (ℕ × ℕ)) (c : Cap)
    → c.rights < 2 ^ 32
    → AllWords ds
    → (derive_all c ds).is_valid ≡ true
    → IsAttenuation c (derive_all c ds)
unfolding derive_all
derive_all-IsAttenuation [] c hc w e = record {
  valid = e;
  attenuated = IsSubmask-refl 32 c.rights;
  type = refl;
  object = refl;
  hardware = refl;
}
derive_all-IsAttenuation ((r, b) ∷ rest) c hc w e =
    IsAttenuation-trans
      (derive-IsAttenuation c r b hc w.0 (derive_all-is_valid rest (derive c r b) e))
      (derive_all-IsAttenuation rest (derive c r b) (derive-rights-lt c r b hc w.0) w.1 e)
