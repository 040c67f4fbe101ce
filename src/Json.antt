-- ===== src/Json.antt =====
-- serde_json values as src/protocol.rs and its callers read and write them: `Value`, `Number`, and
-- the accessors `get`, `as_u64`, `as_str`, `insert`, `remove` and the like. An object is the list of
-- its entries. A double is its bit pattern. The parser and the printer are a parameter, `Serde`.
pub mod Laws
use seestar_proxy.Base.{
  ℕ, ◌+◌, ◌-◌, ◌^◌, String, Bool, true, false, Option, none, some, ◌==◌, ltb, if◌then◌else◌, str_eq,
}
use seestar_proxy.Base.Text.{Text}

-- `negsuc n` is -(n + 1).
pub data ℤ : Type 0 where
  pos : ℕ → ℤ
  negsuc : ℕ → ℤ

pub data Number : Type 0 where
  pos_int : ℕ → Number
  neg_int : ℕ → Number
  float : ℕ → Number

mutual
  pub data Value : Type 0 where
    null : Value
    boolean : Bool → Value
    number : Number → Value
    string : String → Value
    array : Items → Value
    object : Fields → Value

  pub data Items : Type 0 where
    nil : Items
    cons : Value → Items → Items

  pub data Fields : Type 0 where
    end : Fields
    field : String → Value → Fields → Fields

-- `serde_json::from_str` and `to_string`.
pub record Serde : Type 0 where
  pub from_str : Text → Option Value
  pub to_string : Value → Option Text

-- The double arithmetic that the program uses: `u64 as f64`, `i64 as f64`, and `v.round() as i64`.
pub record Floats : Type 0 where
  pub of_u64 : ℕ → ℕ
  pub of_negative : ℕ → ℕ
  pub round_i64 : ℕ → ℤ

-- `Map::get`, `Map::insert` and `Map::remove`.
unfoldable pub lookup : String → Fields → Option Value
lookup k end = none
lookup k (field j v fs) = if str_eq j k then some v else lookup k fs

unfoldable pub insert : String → Value → Fields → Fields
insert k v end = field k v end
insert k v (field j w fs) = if str_eq j k then field k v fs else field j w (insert k v fs)

unfoldable pub remove : String → Fields → Fields
remove k end = end
remove k (field j w fs) = if str_eq j k then fs else field j w (remove k fs)

-- `Value::get(&str)`.
unfoldable pub get : Value → String → Option Value
get (object fs) k = lookup k fs
get _ k = none

unfoldable pub is_null : Value → Bool
is_null null = true
is_null _ = false

unfoldable pub as_u64 : Value → Option ℕ
as_u64 (number (pos_int n)) = some n
as_u64 _ = none

unfoldable pub as_i64 : Value → Option ℤ
as_i64 (number (pos_int n)) = if ltb n (2 ^ 63) then some (pos n) else none
as_i64 (number (neg_int n)) = some (negsuc n)
as_i64 _ = none

unfoldable pub as_f64 : Floats → Value → Option ℕ
as_f64 ops (number (pos_int n)) = some (ops.of_u64 n)
as_f64 ops (number (neg_int n)) = some (ops.of_negative n)
as_f64 ops (number (float x)) = some x
as_f64 ops _ = none

unfoldable pub as_str : Value → Option String
as_str (string s) = some s
as_str _ = none

unfoldable pub as_bool : Value → Option Bool
as_bool (boolean b) = some b
as_bool _ = none
