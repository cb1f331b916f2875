-- ===== src/Yaml.antt =====
-- The values of the configuration: serde_yaml's `Value`, read through `get` and `as_…`. A number
-- that is no unsigned integer is `other_number`.
use ferrumdns.Base.{ℕ, Bool, Option, none, some, List, [], ◌∷◌, Text, teq, if◌then◌else◌}

mutual
  pub data Value : Type 0 where
    null other_number : Value
    boolean : Bool → Value
    number : ℕ → Value
    string : Text → Value
    sequence : Values → Value
    mapping : Entries → Value

  pub data Values : Type 0 where
    nil : Values
    cons : Value → Values → Values

  pub data Entries : Type 0 where
    end : Entries
    entry : Value → Value → Entries → Entries

abbrev pub to_list : Values → List Value
to_list nil = []
to_list (cons v vs) = v ∷ to_list vs

abbrev pub pairs : Entries → List (Value × Value)
pairs end = []
pairs (entry k v es) = (k, v) ∷ pairs es

abbrev pub as_str : Value → Option Text
as_str (string s) = some s
as_str _ = none

abbrev pub as_u64 : Value → Option ℕ
as_u64 (number n) = some n
as_u64 _ = none

abbrev pub as_bool : Value → Option Bool
as_bool (boolean b) = some b
as_bool _ = none

abbrev pub as_sequence : Value → Option (List Value)
as_sequence (sequence vs) = some (to_list vs)
as_sequence _ = none

abbrev pub as_mapping : Value → Option (List (Value × Value))
as_mapping (mapping es) = some (pairs es)
as_mapping _ = none

unfoldable pub find_key : Text → List (Value × Value) → Option Value
find_key key [] = none
find_key key ((string k, v) ∷ es) = if teq k key then some v else find_key key es
find_key key ((_, v) ∷ es) = find_key key es

-- `get` by a text key.
unfoldable pub get : Text → Value → Option Value
unfolding find_key
get key (mapping es) = find_key key (pairs es)
get key _ = none

-- `and_then`.
abbrev pub and_then {ℓ κ} : {A : Type ℓ} {B : Type κ} → Option A → (A → Option B) → Option B
and_then none f = none
and_then (some a) f = f a

abbrev pub unwrap_or {ℓ} : {A : Type ℓ} → Option A → A → A
unwrap_or none d = d
unwrap_or (some a) d = a

-- `or_else(…)`.
abbrev pub or_else {ℓ} : {A : Type ℓ} → Option A → Option A → Option A
or_else none b = b
or_else (some a) b = some a

-- The items of the list under a key, if there is one.
abbrev pub items : Text → Value → List Value
items key args = unwrap_or (and_then (get key args) as_sequence) []
