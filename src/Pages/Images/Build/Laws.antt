-- ===== src/Pages/Images/Build/Laws.antt =====
-- pages/Images.tsx: what the build dialog shows and sends.
use vps_pilot.Base.{
  String, ◌≡◌, refl, ◌∙◌, Bool, true, false, Option, none, some, List, [], ◌∷◌, ◌==◌, if◌then◌else◌,
  Bool-cases, inl, inr, ◌⊎◌,
}
use vps_pilot.Base.Text.{nonempty, same_text}
use vps_pilot.Base.Scan.{is_some}
use vps_pilot.Base.Dict.{Dict, insert, lookup, lookup-insert}
use vps_pilot.Js.{Value, member, truthy, is_nullish}
use vps_pilot.Pages.Images.Build.{
  BuildArg, BuildDialog, opened, on_stream, on_build_error, on_done, on_event, on_message,
  on_socket_error, on_started, build_again, add_build_arg, remove_build_arg, update_build_key,
  update_build_value, args_onto, BuildStep, press_build, fail, again, socket_error, add_arg,
  started, message, remove_arg, set_key, set_value, build_step, build_steps,
}

-- An error that is shown has ended its build.
abbrev pub ErrorEnds : BuildDialog → Type 0
ErrorEnds d = (is_some d.build_error ≡ false) ⊎ (d.done ≡ true)

on_stream-ErrorEnds : (v : Value) (d : BuildDialog) → ErrorEnds d → ErrorEnds (on_stream v d)
on_stream-ErrorEnds v d h = elim (Bool-cases (truthy v)) [ inl t ↦ rw t h | inr f ↦ rw f h ]

on_build_error-ErrorEnds :
    (v : Value) (d : BuildDialog) → ErrorEnds d → ErrorEnds (on_build_error v d)
on_build_error-ErrorEnds v d h = elim (Bool-cases (truthy v)) [
  | inl t ↦ rw t (inr refl)
  | inr f ↦ rw f h
]

on_done-ErrorEnds : (v : Value) (d : BuildDialog) → ErrorEnds d → ErrorEnds (on_done v d)
on_done-ErrorEnds v d h = elim (Bool-cases (truthy v)) [ inl t ↦ rw t (inr refl) | inr f ↦ rw f h ]

on_event-ErrorEnds : (v : Value) (d : BuildDialog) → ErrorEnds d → ErrorEnds (on_event v d)
unfolding on_event
on_event-ErrorEnds v d h = elim (Bool-cases (is_nullish v)) [
  | inl t ↦ rw t h
  | inr f ↦ rw f (
      on_done-ErrorEnds (member "done" v) _ (
        on_build_error-ErrorEnds (member "error" v) _
          (on_stream-ErrorEnds (member "stream" v) d h)))
]

on_message-ErrorEnds :
    (m : Option Value) (d : BuildDialog) → ErrorEnds d → ErrorEnds (on_message m d)
unfolding on_message
on_message-ErrorEnds none d h = h
on_message-ErrorEnds (some v) d h = elim (Bool-cases (is_nullish v)) [
  | inl t ↦ rw t h
  | inr f ↦ rw f (on_event-ErrorEnds (member "data" v) d h)
]

build_step-ErrorEnds : (s : BuildStep) (d : BuildDialog) → ErrorEnds d → ErrorEnds (build_step s d)
unfolding build_step on_started build_again on_socket_error add_build_arg remove_build_arg
    update_build_key update_build_value
build_step-ErrorEnds press_build d h = h
build_step-ErrorEnds fail d h = h
build_step-ErrorEnds again d h = inl refl
build_step-ErrorEnds socket_error d h = inr refl
build_step-ErrorEnds add_arg d h = h
build_step-ErrorEnds (started id) d h = inl refl
build_step-ErrorEnds (message m) d h = on_message-ErrorEnds m d h
build_step-ErrorEnds (remove_arg i) d h = h
build_step-ErrorEnds (set_key i v) d h = h
build_step-ErrorEnds (set_value i v) d h = h

build_steps-keep :
    (ss : List BuildStep) (d : BuildDialog) → ErrorEnds d → ErrorEnds (build_steps ss d)
unfolding build_steps
build_steps-keep [] d h = h
build_steps-keep (s ∷ ss) d h = build_steps-keep ss (build_step s d) (build_step-ErrorEnds s d h)

-- Whatever happens to the dialog, an error that it shows has ended the build: it never says that a
-- build goes on beside an error.
build_steps-ErrorEnds : (ss : List BuildStep) → ErrorEnds (build_steps ss opened)
unfolding opened
build_steps-ErrorEnds ss = build_steps-keep ss opened (inl refl)

-- The value of the last argument with the key.
unfoldable pub last_value : String → List BuildArg → Option String
last_value k [] = none
last_value k (a ∷ more) =
    let later = last_value k more in
    if is_some later then later else if a.key == k then some a.value else none

abbrev or_else_some : Option String → Option String → Option String
or_else_some none o = o
or_else_some (some v) o = some v

lookup-args_onto :
    (k : String) (args : List BuildArg) (acc : Dict String)
    → nonempty k ≡ true
    → lookup k (args_onto acc args) ≡ or_else_some (last_value k args) (lookup k acc)
unfolding args_onto last_value
lookup-args_onto k [] acc h = refl
lookup-args_onto k (a ∷ more) acc h = elim (Bool-cases (nonempty a.key)) [
  | inl t ↦
      rw
        (t, lookup-args_onto k more (insert a.key a.value acc) h, lookup-insert a.key k a.value acc)
        (split_cases (a.key == k) (last_value k more) a.value (lookup k acc))
  | inr f ↦
      rw (f, lookup-args_onto k more acc h, keyless a.key k f h)
        (split_none (last_value k more) (lookup k acc))
]
  where
    split_cases :
        (b : Bool) (o : Option String) (v : String) (was : Option String)
        → or_else_some o (if b then some v else was)
          ≡ or_else_some (if is_some o then o else if b then some v else none) was
    split_cases true none v was = refl
    split_cases false none v was = refl
    split_cases b (some w) v was = refl

    split_none :
        (o was : Option String)
        → or_else_some o was ≡ or_else_some (if is_some o then o else none) was
    split_none none was = refl
    split_none (some w) was = refl

    keyless : (a k : String) → nonempty a ≡ false → nonempty k ≡ true → (a == k) ≡ false
    keyless a k f h = elim (Bool-cases (a == k)) [
      | inl t ↦ let e = same_text a k t in absurd cc
      | inr n ↦ n
    ]

-- The build argument that is sent under a name is the last of that name in the dialog; there is
-- none where the dialog has none.
args_onto-last :
    (k : String) (args : List BuildArg)
    → nonempty k ≡ true
    → lookup k (args_onto [] args) ≡ last_value k args
unfolding lookup
args_onto-last k args h = lookup-args_onto k args [] h ∙ or_none (last_value k args)
  where
    or_none : (o : Option String) → or_else_some o none ≡ o
    or_none none = refl
    or_none (some v) = refl
