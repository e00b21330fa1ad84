-- ===== src/Controls/Types.antt =====
-- The data of src/backend/src/controls.rs. Ids, names and paths are texts of ASCII characters; the
-- messages of errors are reduced to what they tell apart.
use carnine.Prelude.{ℕ, Bool, false, Option, List}

abbrev pub level_min : ℕ
level_min = 0

abbrev pub level_max : ℕ
level_max = 100

pub data Kind : Type 0 where
  switch slider : Kind

-- `Binding::Mcp23017`
pub record Pin : Type 0 where
  pub bus : List ℕ
  pub address : ℕ
  pub pin : ℕ
  pub reset : Option (List ℕ × ℕ)

-- `Binding::Pwm`; the kick in milliseconds.
pub record Output : Type 0 where
  pub chip : List ℕ
  pub channel : ℕ
  pub period_ns : ℕ
  pub min_level : ℕ
  pub kick : ℕ
  pub off_at_zero : Bool
  pub off_on_exit : Bool

pub data Binding : Type 0 where
  demo : Binding
  mcp23017 : Pin → Binding
  pwm : Output → Binding

pub record Control : Type 0 where
  pub id : List ℕ
  pub name : List ℕ
  pub kind : Kind
  pub restore : Bool
  pub binding : Binding
  pub hidden : Bool
  pub boost : Bool

pub data Value : Type 0 where
  on : Bool → Value
  level : ℕ → Value

pub record ControlState : Type 0 where
  pub id : List ℕ
  pub value : Value
  pub available : Bool

pub data SetError : Type 0 where
  not_found : SetError
  invalid_value : Value → SetError
  unavailable : SetError

-- `Control::off_value`
off_of : Kind → Bool → Value
off_of switch hidden = on false
off_of slider Bool.true = level level_max
off_of slider Bool.false = level level_min

unfoldable pub off_value : Control → Value
unfolding off_of
off_value c = off_of c.kind c.hidden
