-- ===== src/Js.antt =====
-- The JavaScript values that js-yaml makes of a document and that components/compose/serializer.ts
-- reads: `typeof`, truth, property reads, `String(v)`, `Object.entries`, `Array.join`.
-- A number is the text that `String` gives of it: 8080 is "8080", -1 is "-1", 0.5 is "0.5".
-- Dates and binary data, which some YAML tags make, are left out.
pub mod Laws
pub mod Numbers
use vps_pilot.Base.{
  ℕ, zero, suc, ◌+◌, ◌/◌, ◌%◌, String, ◌<>◌, Bool, true, false, not, ◌&&◌, ◌||◌, Option, none, some,
  List, [], ◌∷◌, ◌==◌, if◌then◌else◌, ltb, eqb,
}
use vps_pilot.Base.Text.{nonempty}
use vps_pilot.Base.Dict.{Dict}

-- The text of a number.
abbrev pub Number : Type 0
Number = String

mutual
  pub data Value : Type 0 where
    undefined null : Value
    obj : Fields → Value
    bool : Bool → Value
    num : Number → Value
    str : String → Value
    arr : Items → Value

  pub data Fields : Type 0 where
    end : Fields
    field : String → Value → Fields → Fields

  pub data Items : Type 0 where
    nil : Items
    cons : Value → Items → Items

abbrev pub items : Items → List Value
items nil = []
items (cons v vs) = v ∷ items vs

abbrev pub of_list : List Value → Items
of_list [] = nil
of_list (v ∷ vs) = cons v (of_list vs)

abbrev pub fields : Fields → Dict Value
fields end = []
fields (field k v fs) = (k, v) ∷ fields fs

abbrev pub of_dict : Dict Value → Fields
of_dict [] = end
of_dict ((k, v) ∷ m) = field k v (of_dict m)

-- `!!v`
abbrev pub truthy : Value → Bool
truthy undefined = false
truthy null = false
truthy (bool b) = b
truthy (num n) = not (n == "0" || n == "NaN")
truthy (str s) = nonempty s
truthy (arr vs) = true
truthy (obj fs) = true

-- `typeof v === "object"`, which holds of `null` too.
abbrev pub is_object : Value → Bool
is_object null = true
is_object (arr vs) = true
is_object (obj fs) = true
is_object _ = false

-- `v === null || v === undefined`
abbrev pub is_nullish : Value → Bool
is_nullish undefined = true
is_nullish null = true
is_nullish _ = false

-- `a ?? b`
abbrev pub coalesce : Value → Value → Value
coalesce undefined b = b
coalesce null b = b
coalesce a b = a

-- `fs[k]`
unfoldable pub get : String → Fields → Value
get k end = undefined
get k (field j v fs) = if j == k then v else get k fs

-- `fs[k] = v`
unfoldable pub put : String → Value → Fields → Fields
put k v end = field k v end
put k v (field j w fs) = if j == k then field j v fs else field j w (put k v fs)

-- `v.k`, for the names that the code reads; those are not properties of texts and arrays.
unfoldable pub member : String → Value → Value
unfolding get
member k (obj fs) = get k fs
member k _ = undefined

digit : ℕ → String
digit n =
    if eqb n 0
    then "0"
    else if eqb n 1
    then "1"
    else if eqb n 2
    then "2"
    else if eqb n 3
    then "3"
    else if eqb n 4
    then "4"
    else if eqb n 5
    then "5"
    else if eqb n 6
    then "6"
    else if eqb n 7
    then "7"
    else if eqb n 8
    then "8"
    else "9"

-- The decimal digits of n; n + 1 rounds are enough.
show_from : ℕ → ℕ → String
show_from zero n = ""
show_from (suc fuel) n =
    let more = show_from fuel (n / 10) <> digit (n % 10) in if ltb n 10 then digit n else more

unfoldable pub show_ℕ : ℕ → String
unfolding show_from digit
show_ℕ n = show_from (suc n) n

unfoldable indexed : ℕ → Items → Dict Value
unfolding show_ℕ
indexed n nil = []
indexed n (cons v vs) = (show_ℕ n, v) ∷ indexed (n + 1) vs

-- `Object.entries(v)`, for an object or an array.
unfoldable pub entries : Value → Dict Value
unfolding indexed
entries (obj fs) = fields fs
entries (arr vs) = indexed 0 vs
entries _ = []

-- `Object.keys(v).length > 0`
abbrev pub has_keys : Value → Bool
has_keys (obj end) = false
has_keys (obj (field k v fs)) = true
has_keys (arr nil) = false
has_keys (arr (cons v vs)) = true
has_keys (str s) = nonempty s
has_keys _ = false

-- `String(v)` and `items.join(sep)`; inside an array a hole prints as nothing.
unfoldable mutual
  pub to_text : Value → String
  to_text undefined = "undefined"
  to_text null = "null"
  to_text (bool true) = "true"
  to_text (bool false) = "false"
  to_text (num n) = n
  to_text (str s) = s
  to_text (arr vs) = join_items "," vs
  to_text (obj fs) = "[object Object]"

  pub join_items : String → Items → String
  join_items sep nil = ""
  join_items sep (cons v vs) = item_text v <> join_rest sep vs

  join_rest : String → Items → String
  join_rest sep nil = ""
  join_rest sep (cons v vs) = sep <> (item_text v <> join_rest sep vs)

  item_text : Value → String
  item_text undefined = ""
  item_text null = ""
  item_text (bool true) = "true"
  item_text (bool false) = "false"
  item_text (num n) = n
  item_text (str s) = s
  item_text (arr vs) = join_items "," vs
  item_text (obj fs) = "[object Object]"

-- `typeof v === "string" ? v : undefined`
abbrev pub text? : Value → Option String
text? (str s) = some s
text? _ = none

-- `typeof v === "number" ? v : undefined`
abbrev pub number? : Value → Option Number
number? (num n) = some n
number? _ = none

-- `v === true`
abbrev pub is_true : Value → Bool
is_true (bool b) = b
is_true _ = false

-- The value of a field that may be undefined.
abbrev pub of_text : Option String → Value
of_text none = undefined
of_text (some s) = str s

abbrev pub of_number : Option Number → Value
of_number none = undefined
of_number (some n) = num n

-- An array of texts, and an object of texts.
abbrev pub texts : List String → Items
texts [] = nil
texts (s ∷ ss) = cons (str s) (texts ss)

abbrev pub text_fields : Dict String → Fields
text_fields [] = end
text_fields ((k, s) ∷ m) = field k (str s) (text_fields m)

-- A call that may throw a TypeError, as the read of a property of null does.
pub data Result {ℓ} (A : Type ℓ) : Type ℓ where
  ok : A → Result A
  type_error : Result A

infixl 5 ◌>>=◌
abbrev pub ◌>>=◌ {ℓ κ} : {A : Type ℓ} {B : Type κ} → Result A → (A → Result B) → Result B
ok a >>= f = f a
type_error >>= f = type_error

-- `xs.map(f)` where `f` may throw.
unfoldable pub map_result {ℓ κ} :
    {A : Type ℓ} {B : Type κ} → (A → Result B) → List A → Result (List B)
map_result f [] = ok []
map_result f (x ∷ xs) = do y ← f x; ys ← map_result f xs; ok (y ∷ ys)
