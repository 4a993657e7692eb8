-- ===== src/Core/Json.antt =====
-- A `serde_json::Value`, as far as the program looks into it. A number that is no natural number is
-- not told apart from others.
use clawdchat.Base.{ℕ, String, ite, Bool, Option, none, some, dec_eq, ltb, ◌^◌, if◌then◌else◌}

mutual
  pub data Json : Type 0 where
    null : Json
    bool : Bool → Json
    number : ℕ → Json
    text : String → Json
    array : Items → Json
    object : Fields → Json

  pub data Items : Type 0 where
    nil : Items
    cons : Json → Items → Items

  pub data Fields : Type 0 where
    end : Fields
    field : String → Json → Fields → Fields

unfoldable pub find : Fields → String → Option Json
find end k = none
find (field j v fs) k = ite (dec_eq j k) (some v) (find fs k)

-- `v.get(k).and_then(|v| v.as_str())`: none unless `v` is an object with a text at `k`.
unfoldable pub as_str : Option Json → Option String
as_str (some (text s)) = some s
as_str _ = none

unfoldable pub get_str : Json → String → Option String
unfolding find as_str
get_str (object fs) k = as_str (find fs k)
get_str _ k = none

-- `v.get(k)`.
unfoldable pub get_field : Json → String → Option Json
unfolding find
get_field (object fs) k = find fs k
get_field _ k = none

-- `v.as_i64()` of a number that is not negative.
unfoldable pub as_i64 : Option Json → Option ℕ
as_i64 (some (number n)) = if ltb n (2 ^ 63) then some n else none
as_i64 _ = none
