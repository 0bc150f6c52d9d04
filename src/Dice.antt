-- ===== src/Dice.antt =====
-- boot/dice.c: the measurement of the kernel at boot.
use moonlight_os.Prelude.{
  ℕ, ◌-◌, ◌≡◌, ◌↔◌, ◌≢◌, arith, Array, fill, ◌!=◌, ltb, if◌then◌else◌, Option, none, some,
}
use moonlight_os.Minilib.{memcmp, Agree, AllBytes, memcmp-eq-zero_iff}

-- `dice_state_t`
pub record DiceState : Type 0 where
  pub cdi : Array ℕ
  pub kernel_hash : Array ℕ
  pub attestation_cert : Array ℕ

-- `sha256`, which is declared and defined elsewhere: the 32 bytes for so many bytes of data.
module _ (sha256 : Array ℕ → ℕ → Array ℕ) where
  -- `dice_derive_cdi`
  unfoldable pub derive_cdi : Array ℕ → Array ℕ → Array ℕ
  derive_cdi uds hash = sha256 (λ i. if ltb i 32 then uds i else hash (i - 32)) 64

  -- `boot_measure_and_attest` of a kernel image: the state, or -1 as `none`. The expected hash is the
  -- placeholder of the source, and so is the unique device secret.
  unfoldable pub measure_and_attest : DiceState → Array ℕ → ℕ → Option DiceState
  measure_and_attest dice image len =
      if memcmp (sha256 image len) (fill 0) 32 0 != 0
      then none
      else some (record dice {
        cdi = derive_cdi (fill 0) (sha256 image len);
        kernel_hash = sha256 image len;
      })

  measure-cases :
      (dice : DiceState) (image : Array ℕ) (len : ℕ)
      → (measure_and_attest dice image len ≡ none) ↔ (memcmp (sha256 image len) (fill 0) 32 0 ≢ 0)
  unfolding measure_and_attest
  measure-cases dice image len = ground arith

  -- The measurement fails closed: it returns -1 exactly if the hash of the kernel image differs from the
  -- expected one, which is 32 zero bytes.
  pub measure_and_attest-fails_iff :
      (dice : DiceState) (image : Array ℕ) (len : ℕ)
      → AllBytes (sha256 image len)
      → (measure_and_attest dice image len ≡ none) ↔ (¬ Agree (sha256 image len) (fill 0) 32 0)
  measure_and_attest-fails_iff dice image len bytes =
      let differ = memcmp-eq-zero_iff (sha256 image len) (fill 0) 32 0 bytes (λ j. omega arith) in
      let cases = measure-cases dice image len in
      (λ e a. cases.0 e (differ.1 a), λ n. cases.1 (λ z. n (differ.0 z)))
