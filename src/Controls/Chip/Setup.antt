-- ===== src/Controls/Chip/Setup.antt =====
-- What the driver of a port expander leaves behind (src/backend/src/controls.rs).
use carnine.Prelude.{
  ℕ, ◌≡◌, ◌≢◌, refl, ap, ◌∙◌, Bool, true, false, Option, none, some, List, arith, if◌then◌else◌,
}
use carnine.Prelude.Bits.{
  bit, set_bit, clear_bit, bit-set_bit_self, bit-set_bit_ne, bit-clear_bit_self, bit-clear_bit_ne,
}
use carnine.Controls.Board.{Board, Io, ok, err, M, state_of}
use carnine.Controls.Chip.{
  Mcp23017, Wire, call, bus, bus_write, reset_line, release_reset, write_directions, write_latch,
  initialise, settle, put_pin,
}

module _ (B : Board) where
  open B use {State}

  -- What a call of the driver never changes of the chip.
  abbrev SameChip : Mcp23017 → Mcp23017 → Type 0
  SameChip c d =
      (d.bus_path ≡ c.bus_path)
      × (d.address ≡ c.address)
      × (d.used_pins ≡ c.used_pins)
      × (d.latch ≡ c.latch)
      × (d.reset ≡ c.reset)

  SameChip-trans : (c d e : Mcp23017) → SameChip c d → SameChip d e → SameChip c e
  SameChip-trans c d e h k = ground arith

  abbrev Keeps : {A : Type 0} → M (Wire B) A → Type 0
  Keeps m = (w : Wire B) → SameChip w.chip (state_of (m w)).chip

  bind_step :
      {A C : Type 0} (r : Io (Wire B) A) (f : A → M (Wire B) C) (c : Mcp23017)
      → SameChip c (state_of r).chip
      → ((a : A) (w : Wire B) → SameChip w.chip (state_of (f a w)).chip)
      → SameChip c (state_of {W = Wire B} {A = C} (elim r [ ok a w ↦ f a w | err w ↦ err w ])).chip
  bind_step (ok a w) f c h k = SameChip-trans c w.chip (state_of (f a w)).chip h (k a w)
  bind_step (err w) f c h k = h

  call-Keeps :
      (f : State → State × Bool) (change : Mcp23017 → Mcp23017)
      → ((c : Mcp23017) → SameChip c (change c))
      → Keeps (call B f change)
  unfolding call
  call-Keeps f change h w = ground (arith, h w.chip)

  bus-Keeps : Keeps (bus B)
  unfolding bus
  bus-Keeps w = ground (
    arith,
    call-Keeps (B.open_bus w.chip.bus_path) (λ c. record c { bus_open = true })
        (λ c. (refl, refl, refl, refl, refl)) w,
  )

  bus_write-Keeps : (bytes : List ℕ) → Keeps (bus_write B bytes)
  unfolding bus_write
  bus_write-Keeps bytes w = call-Keeps _ _ (λ c. (refl, refl, refl, refl, refl)) w

  reset_line-Keeps : (r : Option (List ℕ × ℕ)) (is_open : Bool) → Keeps (reset_line B r is_open)
  unfolding reset_line
  reset_line-Keeps none is_open w = (refl, refl, refl, refl, refl)
  reset_line-Keeps (some (chip, line)) false w =
      call-Keeps _ _ (λ c. (refl, refl, refl, refl, refl)) w
  reset_line-Keeps (some (chip, line)) true w =
      bind_step (call B _ _ w) _ w.chip (call-Keeps _ _ (λ c. (refl, refl, refl, refl, refl)) w)
        (λ _ v. call-Keeps _ _ (λ c. (refl, refl, refl, refl, refl)) v)

  write_latch-Keeps : Keeps (write_latch B)
  unfolding write_latch
  write_latch-Keeps w = bind_step (bus B w) _ w.chip (bus-Keeps w) (λ _ v. bus_write-Keeps _ v)

  write_directions-Keeps : Keeps (write_directions B)
  unfolding write_directions
  write_directions-Keeps w = bus_write-Keeps _ w

  initialise-Keeps : Keeps (initialise B)
  unfolding initialise release_reset
  initialise-Keeps w =
      bind_step (release_reset B w) _ w.chip (reset_line-Keeps w.chip.reset w.chip.reset_open w)
        (λ _ v.
          bind_step (write_latch B v) _ v.chip (write_latch-Keeps v)
            (λ _ u. write_directions-Keeps u))

  -- What becomes of the latch and of the pins.
  abbrev pub Switched : Mcp23017 → ℕ → Bool → Wire B × Bool → Type 0
  Switched c pin on (w, true) =
      (bit w.chip.latch pin ≡ on)
      × ((other : ℕ) → pin ≢ other → bit w.chip.latch other ≡ bit c.latch other)
      × (w.chip.used_pins ≡ c.used_pins)
      × (w.chip.available ≡ true)
  Switched c pin on (w, false) =
      (w.chip.latch ≡ c.latch)
      × (w.chip.used_pins ≡ c.used_pins)
      × (w.chip.available ≡ false)
      × (w.chip.bus_open ≡ false)

  abbrev new_latch : Mcp23017 → ℕ → Bool → ℕ
  new_latch c pin on = if on then set_bit c.latch pin else clear_bit c.latch pin

  bit-new_latch : (c : Mcp23017) (pin : ℕ) (on : Bool) → bit (new_latch c pin on) pin ≡ on
  bit-new_latch c pin true = bit-set_bit_self c.latch pin
  bit-new_latch c pin false = bit-clear_bit_self c.latch pin

  bit-new_latch_ne :
      (c : Mcp23017) (pin other : ℕ) (on : Bool)
      → pin ≢ other
      → bit (new_latch c pin on) other ≡ bit c.latch other
  bit-new_latch_ne c pin other true h = bit-set_bit_ne c.latch pin other h
  bit-new_latch_ne c pin other false h = bit-clear_bit_ne c.latch pin other h

  settle-Switched :
      (c : Mcp23017) (pin : ℕ) (on : Bool) (r : Io (Wire B) (Unit {0}))
      → (state_of r).chip.latch ≡ new_latch c pin on
      → (state_of r).chip.used_pins ≡ c.used_pins
      → Switched c pin on (settle B c.latch r)
  settle-Switched c pin on (ok a w) l u = (
    ap (λ n. bit n pin) l ∙ bit-new_latch c pin on,
    λ other ne. ap (λ n. bit n other) l ∙ bit-new_latch_ne c pin other on ne,
    u,
    refl,
  )
  settle-Switched c pin on (err w) l u = (refl, u, refl, refl)

  sent-Keeps :
      (there : Bool) (v : Wire B)
      → SameChip v.chip (state_of (if there then write_latch B v else initialise B v)).chip
  sent-Keeps true v = write_latch-Keeps v
  sent-Keeps false v = initialise-Keeps v

  -- Switching a pin, on a chip that is there or has to be set up again: if it succeeds, the latch has
  -- the pin as asked and every other as before, and the chip counts as there; if it fails, the latch
  -- is as before, and the chip counts as gone and its bus as closed. The pins in use stay the same.
  pub put_pin-Switched :
      (w : Wire B) (pin : ℕ) (on : Bool) → Switched w.chip pin on (put_pin B w pin on)
  unfolding put_pin
  put_pin-Switched w pin on =
      let v : Wire B = record w { chip = record (w.chip) { latch = new_latch w.chip pin on } } in
      let kept = sent-Keeps w.chip.available v in settle-Switched w.chip pin on _ kept.3 kept.2
