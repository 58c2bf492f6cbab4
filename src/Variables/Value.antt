-- ===== src/Variables/Value.antt =====
-- `CCallVariable` of src/variables.cpp. A double is of a type that the C library's functions work on, a
-- parameter. The union of a double and a bool is two fields: each is read only where `M_type` says that
-- it was written last. Strings are the bytes before their NUL.
pub mod LastSet
use sipp.Base.{
  ℕ, zero, suc, ◌+◌, ◌≡◌, ◌≢◌, refl, ◌⊎◌, inl, inr, Bool, true, false, not, ◌&&◌, ◌||◌, List, [],
  ◌∷◌, Option, none, some, leb, ltb, ◌==◌, arith, if◌then◌else◌, length,
}

pub data VarType : Type 0 where
  regexp : VarType
  double : VarType
  bool : VarType
  string : VarType
  undefined : VarType

abbrev pub same_type : VarType → VarType → Bool
same_type regexp regexp = true
same_type double double = true
same_type bool bool = true
same_type string string = true
same_type _ _ = false

-- What the code uses of `double`: `strtod` gives the number and what is left of the text, all of it when
-- it reads no number.
pub record Doubles : Type 1 where
  pub Double : Type 0
  pub nought : Double
  pub one : Double
  pub is_nonzero : Double → Bool
  pub strtod : List ℕ → Double × List ℕ

module _ (d : Doubles) where
  open d use {Double, nought, one, is_nonzero, strtod}

  pub record CallVariable : Type 0 where
    pub m_type : VarType
    pub m_nb_of_matching_value : ℕ
    pub m_double : Double
    pub m_bool : Bool
    pub m_value : List ℕ

  -- `CCallVariable::CCallVariable`
  unfoldable pub new_variable : CallVariable
  new_variable = record {
    m_type = undefined;
    m_nb_of_matching_value = 0;
    m_double = nought;
    m_bool = false;
    m_value = [];
  }

  abbrev set_of : VarType → CallVariable → Bool
  set_of regexp v = leb 1 v.m_nb_of_matching_value
  set_of bool v = v.m_bool
  set_of double v = is_nonzero v.m_double
  set_of string v = true
  set_of undefined v = false

  -- `CCallVariable::isSet`
  unfoldable pub is_set : CallVariable → Bool
  is_set v = set_of v.m_type v

  -- `isDouble`, `isBool`, `isRegExp`, `isString`
  unfoldable pub is_type : VarType → CallVariable → Bool
  is_type t v = same_type t v.m_type

  -- `setMatchingValue`
  unfoldable pub set_matching_value : List ℕ → CallVariable → CallVariable
  set_matching_value val v = record v {
    m_type = regexp;
    m_value = val;
    m_nb_of_matching_value = v.m_nb_of_matching_value + 1;
  }

  abbrev matching_of : VarType → CallVariable → Option (List ℕ)
  matching_of regexp v = some v.m_value
  matching_of _ v = none

  -- `getMatchingValue`
  unfoldable pub get_matching_value : CallVariable → Option (List ℕ)
  get_matching_value v = matching_of v.m_type v

  -- `setDouble`
  unfoldable pub set_double : Double → CallVariable → CallVariable
  set_double x v = record v { m_type = double; m_double = x }

  abbrev double_of : VarType → CallVariable → Double
  double_of double v = v.m_double
  double_of _ v = nought

  -- `getDouble`
  unfoldable pub get_double : CallVariable → Double
  get_double v = double_of v.m_type v

  -- `setString`
  unfoldable pub set_string : List ℕ → CallVariable → CallVariable
  set_string val v = record v { m_type = string; m_value = val }

  abbrev string_of : VarType → CallVariable → List ℕ
  string_of string v = v.m_value
  string_of regexp v = v.m_value
  string_of _ v = []

  -- `getString`
  unfoldable pub get_string : CallVariable → List ℕ
  get_string v = string_of v.m_type v

  -- `setBool`
  unfoldable pub set_bool : Bool → CallVariable → CallVariable
  set_bool b v = record v { m_type = bool; m_bool = b }

  abbrev bool_of : VarType → CallVariable → Bool
  bool_of bool v = v.m_bool
  bool_of _ v = false

  -- `getBool`
  unfoldable pub get_bool : CallVariable → Bool
  get_bool v = bool_of v.m_type v

  -- `strtod` of the whole value
  abbrev parse_double : List ℕ → Option Double
  parse_double val =
      let (x, rest) = strtod val in
      if length rest == length val then none else if length rest == 0 then some x else none

  abbrev to_double_of : VarType → CallVariable → Option Double
  to_double_of regexp v = if ltb v.m_nb_of_matching_value 1 then none else parse_double v.m_value
  to_double_of string v = parse_double v.m_value
  to_double_of double v = some (double_of v.m_type v)
  to_double_of bool v = some (if bool_of v.m_type v then one else nought)
  to_double_of undefined v = none

  -- `toDouble`: `none` for false
  unfoldable pub to_double : CallVariable → Option Double
  to_double v = to_double_of v.m_type v
