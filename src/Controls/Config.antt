-- ===== src/Controls/Config.antt =====
-- `Control::from_config` of src/backend/src/controls.rs, which checks one `[[controls]]` entry
-- (`ControlConfig` of src/backend/src/config.rs).
pub mod Sound
pub mod Backlight
mod Tests
use carnine.Prelude.{
  ℕ, ◌/◌, ◌≡◌, refl, ◌⊎◌, inl, inr, Bool, true, false, ◌&&◌, ◌||◌, not, Option, none, some, List,
  [], ◌∷◌, map, ltb, leb, ◌==◌, if◌then◌else◌,
}
use carnine.Prelude.Bytes.{codes, is_empty, trim, same, to_lower}
use carnine.Controls.Types.{
  Kind, switch, slider, Pin, Output, Binding, demo, mcp23017, pwm, Control, level_max,
}

pub record ControlConfig : Type 0 where
  pub id : List ℕ
  pub name : List ℕ
  pub kind : List ℕ
  pub chip : List ℕ
  pub bus : Option (List ℕ)
  pub address : Option ℕ
  pub pin : Option ℕ
  pub restore : Option Bool
  pub reset_gpio : Option ℕ
  pub gpio_chip : Option (List ℕ)
  pub pwm_chip : Option (List ℕ)
  pub channel : Option ℕ
  pub frequency : Option ℕ
  pub min_level : Option ℕ
  pub kick_ms : Option ℕ
  pub boost_on_overheat : Option Bool
  pub backlight : Bool

-- What the message of a refusal says.
pub data ConfigError : Type 0 where
  no_id no_name unknown_type only_switches no_pin bad_pin bad_address no_channel : ConfigError
  bad_frequency bad_min_level bad_kick unknown_chip not_a_backlight kept_id : ConfigError

pub data Result {ℓ} (A : Type ℓ) : Type ℓ where
  ok : A → Result A
  err : ConfigError → Result A

-- `?`: a refusal is the result.
infixl 5 ◌>>=◌
abbrev pub ◌>>=◌ {ℓ κ} : {A : Type ℓ} {C : Type κ} → Result A → (A → Result C) → Result C
checked >>= next = elim checked [ err reason ↦ err reason | ok found ↦ next found ]

infixl 5 ◌>>◌
abbrev pub ◌>>◌ {ℓ} : {C : Type ℓ} → Result (Unit {0}) → Result C → Result C
test >> next = test >>= λ _. next

pub Result-cases {ℓ} :
    {A : Type ℓ} (r : Result A) → ((e : ConfigError) × (r ≡ err e)) ⊎ ((a : A) × (r ≡ ok a))
Result-cases (ok a) = inr (a, refl)
Result-cases (err e) = inl (e, refl)

-- Refuses the entry where a test holds.
abbrev refuse_if : Bool → ConfigError → Result (Unit {0})
refuse_if true e = err e
refuse_if false e = ok tt

abbrev or_fail {ℓ} : {A : Type ℓ} → Option A → ConfigError → Result A
or_fail none e = err e
or_fail (some a) e = ok a

abbrev or_else {ℓ} : {A : Type ℓ} → Option A → A → A
or_else none d = d
or_else (some a) d = a

abbrev pub default_bus : List ℕ
default_bus = codes "/dev/i2c-1"

abbrev pub default_gpio_chip : List ℕ
default_gpio_chip = codes "/dev/gpiochip0"

abbrev pub default_mcp23017_address : ℕ
default_mcp23017_address = 0x20

abbrev pub default_pwm_chip : List ℕ
default_pwm_chip = codes "/sys/class/pwm/pwmchip0"

abbrev pub default_pwm_frequency_hz : ℕ
default_pwm_frequency_hz = 100

abbrev pub max_pwm_frequency_hz : ℕ
max_pwm_frequency_hz = 1_000_000

abbrev pub max_kick : ℕ
max_kick = 5000

abbrev pub backlight_id : List ℕ
backlight_id = codes "display_backlight"

kind_of : List ℕ → Result Kind
kind_of s =
    if same s (codes "switch")
    then ok switch
    else if same s (codes "slider")
    then ok slider
    else err unknown_type

is_switch : Kind → Bool
is_switch switch = true
is_switch slider = false

reset_of : ControlConfig → Option ℕ → Option (List ℕ × ℕ)
reset_of e none = none
reset_of e (some line) = some (or_else e.gpio_chip default_gpio_chip, line)

pin_binding : ControlConfig → Kind → Result Binding
pin_binding e kind = do
  refuse_if (not (is_switch kind)) only_switches
  pin ← or_fail e.pin no_pin
  refuse_if (ltb 15 pin) bad_pin
  let address = or_else e.address default_mcp23017_address
  refuse_if (not (leb 0x20 address && leb address 0x27)) bad_address
  ok (
      mcp23017 (record {
        bus = or_else e.bus default_bus;
        address = address;
        pin = pin;
        reset = reset_of e e.reset_gpio;
      }))

pwm_binding : ControlConfig → Result Binding
pwm_binding e = do
  channel ← or_fail e.channel no_channel
  let frequency = or_else e.frequency default_pwm_frequency_hz
  refuse_if (not (leb 1 frequency && leb frequency max_pwm_frequency_hz)) bad_frequency
  let min_level = or_else e.min_level 0
  refuse_if (ltb level_max min_level) bad_min_level
  let kick = or_else e.kick_ms 0
  refuse_if (ltb max_kick kick) bad_kick
  ok (
      pwm (record {
        chip = or_else e.pwm_chip default_pwm_chip;
        channel = channel;
        period_ns = 1_000_000_000 / frequency;
        min_level = min_level;
        kick = kick;
        off_at_zero = not e.backlight;
        off_on_exit = not e.backlight;
      }))

binding_of : ControlConfig → Kind → List ℕ → Result Binding
binding_of e kind chip =
    if same chip (codes "demo")
    then ok demo
    else if same chip (codes "mcp23017")
    then pin_binding e kind
    else if same chip (codes "pwm")
    then pwm_binding e
    else err unknown_chip

is_pwm : Binding → Bool
is_pwm (pwm o) = true
is_pwm _ = false

-- The end of `from_config`: what the backlight must be, and the control.
finish : ControlConfig → Kind → Binding → Result Control
finish e kind binding = do
  refuse_if (e.backlight && (is_switch kind || not (is_pwm binding))) not_a_backlight
  refuse_if (not e.backlight && same (trim e.id) backlight_id) kept_id
  ok (record {
    id = trim e.id;
    name = trim e.name;
    kind = kind;
    restore = or_else e.restore (not (is_switch kind));
    binding = binding;
    hidden = e.backlight;
    boost = or_else e.boost_on_overheat false;
  })

-- `Control::from_config`
pub from_config : ControlConfig → Result Control
from_config e = do
  refuse_if (is_empty (trim e.id)) no_id
  refuse_if (is_empty (trim e.name)) no_name
  kind ← kind_of (map to_lower (trim e.kind))
  binding ← binding_of e kind (map to_lower (trim e.chip))
  finish e kind binding
