-- ===== src/Parser/Json.antt =====
-- What src/parser.c uses of cJSON, a library whose code is not in the repository: a parameter.
use yurei_jsonrpc_client.Prelude.{ℕ, Bool, false, Option, none, some, List, Bytes}

-- An item stands for a `cJSON *` that is not NULL. `get_item` is `cJSON_GetObjectItemCaseSensitive`,
-- `children` the items that `cJSON_ArrayForEach` visits, and `slot_value` the member `valuedouble`
-- cast to `uint64_t`.
pub record CJson : Type 1 where
  pub Item : Type 0
  pub parse : Bytes → Option Item
  pub is_array : Item → Bool
  pub is_object : Item → Bool
  pub is_string : Item → Bool
  pub is_number : Item → Bool
  pub get_item : Item → Bytes → Option Item
  pub children : Item → List Item
  pub valuestring : Item → Option Bytes
  pub slot_value : Item → ℕ

-- The type tests of cJSON answer false for NULL.
abbrev pub holds : {A : Type 0} → (A → Bool) → Option A → Bool
holds test none = false
holds test (some item) = test item
