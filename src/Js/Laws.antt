-- ===== src/Js/Laws.antt =====
-- Reading an object after an assignment, and the lists that go through it unchanged.
use vps_pilot.Base.{String, ◌≡◌, refl, ap, List, [], ◌∷◌, map, arith, ◌==◌, eq_iff, if◌then◌else◌}
use vps_pilot.Base.Dict.{Dict, insert}
use vps_pilot.Js.{
  Value, Fields, end, field, items, of_list, fields, of_dict, get, put, texts, to_text, Result, ok,
  type_error, ◌>>=◌,
}

pub get-put :
    (k j : String) (v : Value) (fs : Fields) → get j (put k v fs) ≡ (if k == j then v else get j fs)
unfolding get put
get-put k j v end = refl
get-put k j v (field i w fs) = ground (arith, eq_iff k j, eq_iff i k, eq_iff i j, get-put k j v fs)

pub items-of_list : (vs : List Value) → items (of_list vs) ≡ vs
items-of_list [] = refl
items-of_list (v ∷ vs) = ap (λ l. v ∷ l) (items-of_list vs)

pub fields-of_dict : (m : Dict Value) → fields (of_dict m) ≡ m
fields-of_dict [] = refl
fields-of_dict ((k, v) ∷ m) = ap (λ l. (k, v) ∷ l) (fields-of_dict m)

pub map-to_text-texts : (ss : List String) → map to_text (items (texts ss)) ≡ ss
unfolding to_text
map-to_text-texts [] = refl
map-to_text-texts (s ∷ ss) = ap (λ l. s ∷ l) (map-to_text-texts ss)

pub fields-put :
    (k : String) (v : Value) (fs : Fields) → fields (put k v fs) ≡ insert k v (fields fs)
unfolding put insert
fields-put k v end = refl
fields-put k v (field j w fs) = ground (arith, fields-put k v fs)

-- What a chain of calls that succeeds has gone through.
pub >>=-eq-ok :
    {A B : Type 0} (call : Result A) (rest : A → Result B) {out : B}
    → (call >>= rest) ≡ ok out
    → (x : A) × (call ≡ ok x) × (rest x ≡ ok out)
>>=-eq-ok (ok x) rest done = (x, refl, done)
>>=-eq-ok type_error rest done = cc
