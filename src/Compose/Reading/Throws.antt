-- ===== src/Compose/Reading/Throws.antt =====
-- When the serializer throws a TypeError.
use vps_pilot.Base.{◌≡◌, refl, ap₂, ◌∙◌, Bool, true, false, ◌||◌, some, List, [], ◌∷◌, map}
use vps_pilot.Js.{
  end, Value, undefined, null, bool, num, str, arr, obj, nil, cons, items, of_list, is_nullish,
  member, Result, ok, type_error, ◌>>=◌, map_result,
}
use vps_pilot.Compose.Parse.{
  parse_port, parse_ports, parse_mount, parse_volumes, service_of, parse_service,
}
use vps_pilot.Compose.Serialize.{
  print_port, print_mount, ports_write, volumes_write, write_all, service_writes, serialize_service,
}

abbrev pub throws {ℓ} : {A : Type ℓ} → Result A → Bool
throws (ok a) = false
throws type_error = true

abbrev any : {A : Type 0} → (A → Bool) → List A → Bool
any p [] = false
any p (x ∷ xs) = p x || any p xs

throws-chain :
    {A B C : Type 0} (r : Result A) (s : Result B) (f : A → B → C)
    → throws (r >>= (λ a. s >>= (λ b. ok (f a b)))) ≡ (throws r || throws s)
throws-chain (ok a) (ok b) f = refl
throws-chain (ok a) type_error f = refl
throws-chain type_error s f = refl

throws-map_result :
    {A B : Type 0} (f : A → Result B) (g : Value → A) (p : Value → Bool)
    → ((v : Value) → throws (f (g v)) ≡ p v)
    → (vs : List Value) → throws (map_result f (map g vs)) ≡ any p vs
unfolding map_result
throws-map_result f g p step [] = refl
throws-map_result f g p step (v ∷ vs) =
    throws-chain (f (g v)) (map_result f (map g vs)) (λ y ys. y ∷ ys)
    ∙ ap₂ ◌||◌ (step v) (throws-map_result f g p step vs)

-- An array that has null for an item.
abbrev pub holds_null : Value → Bool
holds_null (arr vs) = any is_nullish (items vs)
holds_null _ = false

throws-port : (v : Value) → throws (print_port (parse_port v)) ≡ is_nullish v
unfolding print_port parse_port
throws-port undefined = refl
throws-port null = refl
throws-port (bool b) = refl
throws-port (num n) = refl
throws-port (str s) = refl
throws-port (arr vs) = refl
throws-port (obj fs) = refl

throws-mount : (v : Value) → throws (print_mount (parse_mount v)) ≡ is_nullish v
unfolding print_mount parse_mount
throws-mount undefined = refl
throws-mount null = refl
throws-mount (bool b) = refl
throws-mount (num n) = refl
throws-mount (str s) = refl
throws-mount (arr vs) = refl
throws-mount (obj fs) = refl

throws-bind : {A B : Type 0} (r : Result A) (f : A → B) → throws (r >>= (λ a. ok (f a))) ≡ throws r
throws-bind (ok a) f = refl
throws-bind type_error f = refl

throws-ports : (v : Value) → throws (ports_write (parse_ports v)) ≡ holds_null v
unfolding ports_write parse_ports
throws-ports undefined = refl
throws-ports null = refl
throws-ports (bool b) = refl
throws-ports (num n) = refl
throws-ports (str s) = refl
throws-ports (obj fs) = refl
throws-ports (arr nil) = refl
throws-ports (arr (cons v vs)) =
    throws-bind (map_result print_port (map parse_port (v ∷ items vs)))
      (λ ls. some (arr (of_list ls)))
    ∙ throws-map_result print_port parse_port is_nullish throws-port (v ∷ items vs)

throws-volumes : (v : Value) → throws (volumes_write (parse_volumes v)) ≡ holds_null v
unfolding volumes_write parse_volumes
throws-volumes undefined = refl
throws-volumes null = refl
throws-volumes (bool b) = refl
throws-volumes (num n) = refl
throws-volumes (str s) = refl
throws-volumes (obj fs) = refl
throws-volumes (arr nil) = refl
throws-volumes (arr (cons v vs)) =
    throws-bind (map_result print_mount (map parse_mount (v ∷ items vs)))
      (λ ls. some (arr (of_list ls)))
    ∙ throws-map_result print_mount parse_mount is_nullish throws-mount (v ∷ items vs)

-- Serializing a read service throws exactly when its ports or volumes array has a null item.
pub serialize-throws_iff :
    (raw : Value)
    → throws (serialize_service (parse_service raw))
      ≡ (holds_null (member "ports" raw) || holds_null (member "volumes" raw))
unfolding serialize_service parse_service
serialize-throws_iff raw =
    throws-chain (ports_write (parse_ports (member "ports" raw)))
      (volumes_write (parse_volumes (member "volumes" raw)))
      (λ p v. write_all (service_writes (service_of (λ k. member k raw)) p v) end)
    ∙ ap₂ ◌||◌ (throws-ports (member "ports" raw)) (throws-volumes (member "volumes" raw))
