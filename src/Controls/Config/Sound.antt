-- ===== src/Controls/Config/Sound.antt =====
-- What a control that `from_config` of src/backend/src/controls.rs accepts may be relied on for.
use carnine.Prelude.{ℕ, ◌/◌, ◌≤◌, ◌≡◌, subst, Bool, true, false, List, arith, map, inl, inr}
use carnine.Prelude.Bytes.{is_empty, trim, same, to_lower}
use carnine.Controls.Types.{Kind, switch, slider, Binding, demo, mcp23017, pwm, Control, level_max}
use carnine.Controls.Config.{
  ControlConfig, Result, ok, err, kind_of, is_switch, pin_binding, pwm_binding, binding_of, is_pwm,
  from_config, backlight_id, max_kick, or_else, default_pwm_frequency_hz, Result-cases, finish,
}

-- A binding that the drivers can work with, for a control of this kind.
abbrev pub BindingValid : Kind → Bool → Binding → Type 0
BindingValid kind hidden demo = hidden ≡ false
BindingValid kind hidden (mcp23017 p) =
    (hidden ≡ false) × (kind ≡ switch) × (p.pin ≤ 15) × (0x20 ≤ p.address) × (p.address ≤ 0x27)
BindingValid kind hidden (pwm o) =
    (1000 ≤ o.period_ns)
    × (o.period_ns ≤ 1_000_000_000)
    × (o.min_level ≤ level_max)
    × (o.kick ≤ max_kick)
    × (hidden ≡ true → kind ≡ slider)
    × (hidden ≡ true → o.off_at_zero ≡ false)
    × (hidden ≡ true → o.off_on_exit ≡ false)

pub record IsValid (c : Control) : Type 0 where
  pub id_given : is_empty c.id ≡ false
  pub name_given : is_empty c.name ≡ false
  pub binding_valid : BindingValid c.kind c.hidden c.binding

-- What `binding_of` makes, before the checks on the backlight.
abbrev Made : ControlConfig → Kind → Result Binding → Type 0
Made e kind (err x) = Unit
Made e kind (ok demo) = Unit
Made e kind (ok (mcp23017 p)) =
    (kind ≡ switch) × (p.pin ≤ 15) × (0x20 ≤ p.address) × (p.address ≤ 0x27)
Made e kind (ok (pwm o)) =
    (1000 ≤ o.period_ns)
    × (o.period_ns ≤ 1_000_000_000)
    × (o.min_level ≤ level_max)
    × (o.kick ≤ max_kick)
    × (e.backlight ≡ true → (o.off_at_zero ≡ false) × (o.off_on_exit ≡ false))

pin_binding-Made : (e : ControlConfig) (kind : Kind) → Made e kind (pin_binding e kind)
unfolding pin_binding is_switch
pin_binding-Made e kind = ground arith

period_bounds :
    (f : ℕ)
    → 1 ≤ f
    → f ≤ 1_000_000
    → (1000 ≤ 1_000_000_000 / f) × (1_000_000_000 / f ≤ 1_000_000_000)
period_bounds f h k = (grind arith, grind arith)

pwm_binding-Made : (e : ControlConfig) (kind : Kind) → Made e kind (pwm_binding e)
unfolding pwm_binding
pwm_binding-Made e kind =
    ground (arith, period_bounds (or_else e.frequency default_pwm_frequency_hz))

binding_of-Made :
    (e : ControlConfig) (kind : Kind) (chip : List ℕ) → Made e kind (binding_of e kind chip)
unfolding binding_of
binding_of-Made e kind chip = ground (arith, pin_binding-Made e kind, pwm_binding-Made e kind)

finish-IsValid :
    (e : ControlConfig) (kind : Kind) (b : Binding) (c : Control)
    → is_empty (trim e.id) ≡ false
    → is_empty (trim e.name) ≡ false
    → Made e kind (ok b)
    → finish e kind b ≡ ok c
    → IsValid c
unfolding finish is_switch is_pwm
finish-IsValid e kind demo c i n m h = ground arith
finish-IsValid e kind (mcp23017 p) c i n m h = ground arith
finish-IsValid e kind (pwm o) c i n m h = ground arith

finish_kept_id :
    (e : ControlConfig) (kind : Kind) (b : Binding) (c : Control)
    → finish e kind b ≡ ok c
    → same c.id backlight_id ≡ true
    → c.hidden ≡ true
unfolding finish
finish_kept_id e kind b c h k = ground arith

-- The steps of a call that accepts.
accepted :
    (e : ControlConfig) (c : Control)
    → from_config e ≡ ok c
    → (kind : Kind) × (b : Binding) × (is_empty (trim e.id) ≡ false)
      × (is_empty (trim e.name) ≡ false)
      × Made e kind (ok b)
      × (finish e kind b ≡ ok c)
unfolding from_config
accepted e c h = elim (Result-cases (kind_of (map to_lower (trim e.kind)))) [
  | inl (x, k) ↦ absurd (ground (arith, k))
  | inr (kind, k) ↦ elim (Result-cases (binding_of e kind (map to_lower (trim e.chip)))) [
    | inl (x, m) ↦ absurd (ground (arith, k, m))
    | inr (b, m) ↦ (
      kind,
      b,
      ground (arith, k, m),
      ground (arith, k, m),
      subst (Made e kind) m (binding_of-Made e kind (map to_lower (trim e.chip))),
      ground (arith, k, m),
    )
  ]
]

-- A control that is accepted has an id and a name, and a binding that its driver can work with: a
-- pin of 0 to 15 at an address of 0x20 to 0x27 for a switch only, or a period of 1 µs to 1 s with a
-- lowest level up to 100 % and a kick up to 5 s; a hidden one, the backlight, is a PWM slider that
-- neither level 0 nor the end of the backend switches off.
pub from_config-IsValid : (e : ControlConfig) (c : Control) → from_config e ≡ ok c → IsValid c
from_config-IsValid e c h =
    let (kind, b, i, n, m, f) = accepted e c h in finish-IsValid e kind b c i n m f

-- The id of the backlight is kept for the entry that is built from `[display.backlight]`.
pub from_config_kept_id :
    (e : ControlConfig) (c : Control)
    → from_config e ≡ ok c
    → same c.id backlight_id ≡ true
    → c.hidden ≡ true
from_config_kept_id e c h k =
    let (kind, b, i, n, m, f) = accepted e c h in finish_kept_id e kind b c f k
