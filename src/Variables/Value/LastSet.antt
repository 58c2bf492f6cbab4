-- ===== src/Variables/Value/LastSet.antt =====
-- A `CCallVariable` of src/variables.cpp as its clients see it: it holds what it was last set to.
use sipp.Base.{
  ℕ, ◌≡◌, refl, Bool, true, false, List, [], ◌∷◌, Option, none, some, arith, if◌then◌else◌,
}
use sipp.Variables.Value.{
  Doubles, CallVariable, new_variable, is_set, set_matching_value, get_matching_value, set_double,
  get_double, set_string, get_string, set_bool, get_bool, parse_double, to_double,
}

module _ (d : Doubles) where
  open d use {Double, nought, one, is_nonzero, strtod}

  -- What the setters set; `unset` stands for a new variable in its place.
  pub data Value : Type 0 where
    unset : Value
    matching : List ℕ → Value
    number : Double → Value
    text : List ℕ → Value
    flag : Bool → Value

  abbrev pub set_to : Value → CallVariable d → CallVariable d
  set_to unset v = new_variable d
  set_to (matching t) v = set_matching_value d t v
  set_to (number x) v = set_double d x v
  set_to (text t) v = set_string d t v
  set_to (flag b) v = set_bool d b v

  -- A variable after these sets, the last one first.
  abbrev pub after : List Value → CallVariable d
  after [] = new_variable d
  after (x ∷ xs) = set_to x (after xs)

  abbrev pub last_set : List Value → Value
  last_set [] = unset
  last_set (x ∷ _) = x

  -- What a client reads of a value.
  abbrev pub value_is_set : Value → Bool
  value_is_set unset = false
  value_is_set (matching _) = true
  value_is_set (number x) = is_nonzero x
  value_is_set (text _) = true
  value_is_set (flag b) = b

  abbrev pub value_double : Value → Double
  value_double (number x) = x
  value_double _ = nought

  abbrev pub value_bool : Value → Bool
  value_bool (flag b) = b
  value_bool _ = false

  abbrev pub value_string : Value → List ℕ
  value_string (matching t) = t
  value_string (text t) = t
  value_string _ = []

  abbrev pub value_matching : Value → Option (List ℕ)
  value_matching (matching t) = some t
  value_matching _ = none

  abbrev pub value_to_double : Value → Option Double
  value_to_double unset = none
  value_to_double (matching t) = parse_double d t
  value_to_double (number x) = some x
  value_to_double (text t) = parse_double d t
  value_to_double (flag b) = some (if b then one else nought)

  -- All that a variable gives is read off a value.
  pub record Reads (v : CallVariable d) (x : Value) : Type 0 where
    pub is_set_reads : is_set d v ≡ value_is_set x
    pub double_reads : get_double d v ≡ value_double x
    pub bool_reads : get_bool d v ≡ value_bool x
    pub string_reads : get_string d v ≡ value_string x
    pub matching_reads : get_matching_value d v ≡ value_matching x
    pub to_double_reads : to_double d v ≡ value_to_double x

  set_to-Reads : (x : Value) (v : CallVariable d) → Reads (set_to x v) x
  unfolding is_set get_double get_bool get_string get_matching_value to_double set_matching_value
      set_double set_string set_bool new_variable
  set_to-Reads unset v = record {
    is_set_reads = refl;
    double_reads = refl;
    bool_reads = refl;
    string_reads = refl;
    matching_reads = refl;
    to_double_reads = refl;
  }
  set_to-Reads (matching t) v = record {
    is_set_reads = ground arith;
    double_reads = refl;
    bool_reads = refl;
    string_reads = refl;
    matching_reads = refl;
    to_double_reads = ground arith;
  }
  set_to-Reads (number x) v = record {
    is_set_reads = refl;
    double_reads = refl;
    bool_reads = refl;
    string_reads = refl;
    matching_reads = refl;
    to_double_reads = refl;
  }
  set_to-Reads (text t) v = record {
    is_set_reads = refl;
    double_reads = refl;
    bool_reads = refl;
    string_reads = refl;
    matching_reads = refl;
    to_double_reads = refl;
  }
  set_to-Reads (flag b) v = record {
    is_set_reads = refl;
    double_reads = refl;
    bool_reads = refl;
    string_reads = refl;
    matching_reads = refl;
    to_double_reads = refl;
  }

  -- However often a variable was set, and to values of whatever types, each of its getters, `isSet` and
  -- `toDouble` give what the last value alone gives: nothing of an earlier value, of the same type or
  -- another, is left.
  pub after-Reads : (history : List Value) → Reads (after history) (last_set history)
  after-Reads [] = set_to-Reads unset (new_variable d)
  after-Reads (x ∷ xs) = set_to-Reads x (after xs)
