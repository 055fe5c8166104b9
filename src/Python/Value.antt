-- ===== src/Python/Value.antt =====
-- Values that `json.loads` and `yaml.safe_load_all` build, with the operations that the program
-- makes on them. A number enters by its truth value and its text only.
use kube_delivery_platform.Prelude.{
  String, Bool, true, false, not, Option, none, some, ◌==◌, if◌then◌else◌,
}

mutual
  pub data Value : Type 0 where
    null : Value
    bool : Bool → Value
    number : Bool → String → Value
    str : String → Value
    list : Items → Value
    dict : Fields → Value

  pub data Items : Type 0 where
    nil : Items
    cons : Value → Items → Items

  pub data Fields : Type 0 where
    end : Fields
    field : String → Value → Fields → Fields

-- `bool(v)`. The flag of a number says whether it is zero.
unfoldable pub truthy : Value → Bool
truthy null = false
truthy (bool b) = b
truthy (number is_zero text) = not is_zero
truthy (str s) = not (s == "")
truthy (list nil) = false
truthy (list (cons v vs)) = true
truthy (dict end) = false
truthy (dict (field k v fs)) = true

-- `fields.get(k)`. A parsed dict has each key once.
unfoldable pub find_field : String → Fields → Option Value
find_field k end = none
find_field k (field j v fs) = let rest = find_field k fs in if j == k then some v else rest

-- `fields.get(k, default)`
unfoldable pub field_or : String → Value → Fields → Value
unfolding find_field
field_or k default fs = elim (find_field k fs) [ none ↦ default | some v ↦ v ]

-- `str(value)`, with the `repr` of a list or dict as a parameter.
module _ (repr : Value → String) where
  unfoldable pub text_of : Value → String
  text_of null = "None"
  text_of (bool true) = "True"
  text_of (bool false) = "False"
  text_of (number is_zero text) = text
  text_of (str s) = s
  text_of v = repr v
