-- ===== src/Value.antt =====
-- The values of the dynamic language that cross the program's boundaries as JSON, CBOR or tool
-- arguments. `object` stands for every value of another type, told apart by a number.
use testudo.Prelude.{ℕ, String, Bool, [], ◌∷◌, ℤ}
use testudo.Prelude.Dict.{Dict}

mutual
  pub data Value : Type 0 where
    dict : Fields → Value
    list : Items → Value
    str : String → Value
    int : ℤ → Value
    bool : Bool → Value
    object : ℕ → Value
    null : Value

  pub data Fields : Type 0 where
    end : Fields
    field : String → Value → Fields → Fields

  pub data Items : Type 0 where
    nil : Items
    cons : Value → Items → Items

-- The entries of a dict, for the operations of `Prelude.Dict`.
abbrev pub entries : Fields → Dict Value
entries end = []
entries (field k v fs) = (k, v) ∷ entries fs
