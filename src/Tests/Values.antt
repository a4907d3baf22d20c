-- ===== src/Tests/Values.antt =====
-- JSON values, as a model of the parameters that stand for serde_json, and a small nostr.
use radix_relay.Prelude.{
  ℕ, ◌≡◌, refl, ap, sym, Option, none, some, List, [], ◌∷◌, ◌++◌, String, if◌then◌else◌, ◌==◌,
  string_eq,
}
use radix_relay.Exec.{Outcome, ok, panic}
use radix_relay.Bridge.Json.{JsonApi, JsonLaws, member}
use radix_relay.Bridge.Events.{EventApi}
use radix_relay.Tests.Meeting.{decoding_api}

mutual
  pub data Value : Type 0 where
    null : Value
    text : String → Value
    number : ℕ → Value
    array : Items → Value
    object : Members → Value

  pub data Items : Type 0 where
    nil : Items
    cons : Value → Items → Items

  pub data Members : Type 0 where
    end : Members
    with : String → Value → Members → Members

abbrev items : List Value → Items
items [] = nil
items (v ∷ vs) = cons v (items vs)

abbrev listed : Items → List Value
listed nil = []
listed (cons v vs) = v ∷ listed vs

listed-items : (vs : List Value) → listed (items vs) ≡ vs
listed-items [] = refl
listed-items (v ∷ vs) = ap (λ l. v ∷ l) (listed-items vs)

abbrev members : List (String × Value) → Members
members [] = end
members ((k, v) ∷ fields) = with k v (members fields)

abbrev value_under : Value → String → Members → Value
value_under v key end = v
value_under v key (with k w ms) = value_under (if k == key then w else v) key ms

value_under-members :
    (v : Value) (key : String) (fields : List (String × Value))
    → value_under v key (members fields) ≡ member v key fields
value_under-members v key [] = refl
value_under-members v key ((k, w) ∷ fields) =
    value_under-members (if k == key then w else v) key fields

abbrev inserted : String → Value → Members → Members
inserted key v end = with key v end
inserted key v (with k w ms) = with k w (inserted key v ms)

inserted-members :
    (key : String) (v : Value) (fields : List (String × Value))
    → inserted key v (members fields) ≡ members (fields ++ (key, v) ∷ [])
inserted-members key v [] = refl
inserted-members key v ((k, w) ∷ fields) = ap (λ m. with k w m) (inserted-members key v fields)

abbrev get : Value → String → Value
get (object ms) key = value_under null key ms
get v key = null

abbrev put : Value → String → Value → Outcome Value
put (object ms) key v = ok (object (inserted key v ms))
put null key v = ok (object (with key v end))
put w key v = panic

abbrev as_u64 : Value → Option ℕ
as_u64 (number n) = some n
as_u64 v = none

abbrev as_str : Value → Option String
as_str (text t) = some t
as_str v = none

abbrev as_array : Value → Option (List Value)
as_array (array vs) = some (listed vs)
as_array v = none

abbrev pub json_api : JsonApi
json_api = record {
  Value = Value;
  Text = Value;
  null = null;
  string = text;
  number = number;
  array = λ vs. array (items vs);
  object = λ fields. object (members fields);
  get = get;
  put = put;
  as_u64 = as_u64;
  as_str = as_str;
  as_array = as_array;
  to_string = λ v. some v;
  from_str = λ t. some t;
}

pub json_laws : JsonLaws json_api
json_laws = record {
  get-object = λ fields key. value_under-members null key fields;
  put-object = λ fields key v. ap (λ m. ok (object m)) (inserted-members key v fields);
  u64_back = λ n h. refl;
  str_back = λ t. refl;
  array_back = λ vs. ap (λ l. some l) (listed-items vs);
  written = λ v. (v, refl);
  text_back = λ v e. sym e;
}

-- An event is its kind, its content and its time.
abbrev pub event_api : EventApi decoding_api
event_api = record {
  Rng = ℕ;
  Tag = List String;
  Event = ℕ × String × ℕ;
  parse_tag = λ t. some t;
  to_event = λ r kind content tags at keys. some (kind, content, at);
  event_id = λ e. e.1;
  signature = λ e. "sig";
}
