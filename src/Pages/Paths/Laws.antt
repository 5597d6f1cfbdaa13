-- ===== src/Pages/Paths/Laws.antt =====
-- pages/ContainerFiles.tsx: the links lead where their names say.
use vps_pilot.Base.Filter.{keep, keep_everything}
use Prim.Native.String.{String}
use text.Mathlib.TextLemmas.{nil-append, cons-append, append_assoc}
use vps_pilot.Base.{
  ℕ, zero, suc, ◌<>◌, ◌≡◌, refl, sym, ap, ◌∙◌, true, false, none, some, List, [], ◌∷◌, ◌++◌, arith,
  All, All-append,
}
use vps_pilot.Base.Text.{nonempty, split, join, Free, split-append_sep, split-of_Free}
use vps_pilot.Pages.Paths.{ends_with, breadcrumbs, entry_path, navigate, take, go_to}

-- The name of a directory: not empty and without a slash.
abbrev IsName : String → Type 0
IsName n = Free b'/' n × (nonempty n ≡ true)

-- The path of nested directories.
unfoldable pub path_of : List String → String
unfolding join
path_of names = "/" <> join "/" names

split-join :
    (n : String) (ns : List String) → All IsName (n ∷ ns) → split b'/' (join "/" (n ∷ ns)) ≡ n ∷ ns
unfolding join
split-join n [] ((h, k), hs) = split-of_Free b'/' n h
split-join n (m ∷ ns) ((h, k), hs) =
    split-append_sep "/" n (join "/" (m ∷ ns)) h ∙ ap (λ ts. n ∷ ts) (split-join m ns hs)

names-Nonempty : (ns : List String) → All IsName ns → All (λ n. nonempty n ≡ true) ns
names-Nonempty [] hs = tt
names-Nonempty (n ∷ ns) ((h, k), hs) = (k, names-Nonempty ns hs)

breadcrumbs-path : (ns : List String) → All IsName ns → breadcrumbs (path_of ns) ≡ ns
unfolding breadcrumbs path_of join split
breadcrumbs-path [] hs = refl
breadcrumbs-path (n ∷ ns) hs =
    ap (λ t. keep nonempty (split b'/' t)) (sym (nil-append ("/" <> join "/" (n ∷ ns))))
    ∙ ap (keep nonempty)
        (split-append_sep "/" "" (join "/" (n ∷ ns)) tt ∙ ap (λ ts. "" ∷ ts) (split-join n ns hs))
    ∙ keep_everything nonempty (n ∷ ns) (names-Nonempty (n ∷ ns) hs)

nonempty-append : (s t : String) → nonempty t ≡ true → nonempty (s <> t) ≡ true
nonempty-append String.[] t h = rw nil-append h
nonempty-append (String.◌∷◌ c s) t h = rw cons-append refl

ends_with-append :
    (sep : ℕ) (s t : String) → nonempty t ≡ true → ends_with sep (s <> t) ≡ ends_with sep t
unfolding ends_with
ends_with-append sep String.[] t h = rw nil-append refl
ends_with-append sep (String.◌∷◌ c s) t h =
    rw (cons-append, ends_with, nonempty-append s t h) (ends_with-append sep s t h)

ends_with-Free : (sep : ℕ) (s : String) → Free sep s → ends_with sep s ≡ false
unfolding ends_with
ends_with-Free sep String.[] h = refl
ends_with-Free sep (String.◌∷◌ c s) (h, hs) = rw (ends_with-Free sep s hs) (ground arith)

nonempty-join :
    (n : String) (ns : List String) → All IsName (n ∷ ns) → nonempty (join "/" (n ∷ ns)) ≡ true
unfolding join
nonempty-join n [] ((h, k), hs) = k
nonempty-join n (m ∷ ns) ((h, k), hs) =
    nonempty-append n ("/" <> join "/" (m ∷ ns)) (rw cons-append refl)

ends_with-join :
    (n : String) (ns : List String)
    → All IsName (n ∷ ns)
    → ends_with b'/' (join "/" (n ∷ ns)) ≡ false
unfolding join
ends_with-join n [] ((h, k), hs) = ends_with-Free b'/' n h
ends_with-join n (m ∷ ns) (h, hs) =
    let rest = join "/" (m ∷ ns) in
    ends_with-append b'/' n ("/" <> rest) (rw cons-append refl)
    ∙ ends_with-append b'/' "/" rest (nonempty-join m ns hs)
    ∙ ends_with-join m ns hs

join-snoc :
    (n : String) (ns : List String) (name : String)
    → join "/" (n ∷ ns) <> ("/" <> name) ≡ join "/" ((n ∷ ns) ++ name ∷ [])
unfolding join
join-snoc n [] name = refl
join-snoc n (m ∷ ns) name =
    append_assoc n ("/" <> join "/" (m ∷ ns)) ("/" <> name)
    ∙ ap (λ t. n <> t)
        (append_assoc "/" (join "/" (m ∷ ns)) ("/" <> name)
          ∙ ap (λ t. "/" <> t) (join-snoc m ns name))

entry_path-inside :
    (ns : List String) (name : String)
    → All IsName ns
    → entry_path (path_of ns) name ≡ path_of (ns ++ name ∷ [])
unfolding entry_path path_of ends_with join
entry_path-inside [] name hs = refl
entry_path-inside (n ∷ ns) name hs =
    let names = join "/" (n ∷ ns) in
    let open_end : ends_with b'/' ("/" <> names) ≡ false =
      ends_with-append b'/' "/" names (nonempty-join n ns hs) ∙ ends_with-join n ns hs in
    rw open_end (append_assoc "/" names ("/" <> name) ∙ ap (λ t. "/" <> t) (join-snoc n ns name))

go_to-inside :
    (idx : ℕ) (ns : List String)
    → All IsName ns
    → go_to (some idx) (path_of ns) ≡ path_of (take (suc idx) ns)
unfolding go_to path_of
go_to-inside idx ns hs = ap (λ ps. "/" <> join "/" (take (suc idx) ps)) (breadcrumbs-path ns hs)

-- A click: on a directory of the list, on a name of the path, or on the house.
pub data Click : Type 0 where
  enter : String → Click
  name_at : ℕ → Click
  home : Click

unfoldable click : Click → String → String
unfolding navigate go_to
click (enter name) path = navigate (record { name = name; is_dir = true }) path
click (name_at idx) path = go_to (some idx) path
click home path = go_to none path

-- What it does to the stack of directories.
unfoldable click_stack : Click → List String → List String
unfolding take
click_stack (enter name) ns = ns ++ name ∷ []
click_stack (name_at idx) ns = take (suc idx) ns
click_stack home ns = []

unfoldable pub clicks : List Click → String → String
unfolding click
clicks [] path = path
clicks (c ∷ cs) path = clicks cs (click c path)

unfoldable pub clicks_stack : List Click → List String → List String
unfolding click_stack
clicks_stack [] ns = ns
clicks_stack (c ∷ cs) ns = clicks_stack cs (click_stack c ns)

abbrev pub EntersName : Click → Type 0
EntersName (enter name) = IsName name
EntersName _ = Unit

take-All : {A : Type 0} (P : A → Type 0) (n : ℕ) (xs : List A) → All P xs → All P (take n xs)
unfolding take
take-All P zero xs h = tt
take-All P (suc n) [] h = tt
take-All P (suc n) (x ∷ xs) (h, hs) = (h, take-All P n xs hs)

click_stack-IsName :
    (c : Click) (ns : List String) → EntersName c → All IsName ns → All IsName (click_stack c ns)
unfolding click_stack
click_stack-IsName (enter name) ns h hs = All-append IsName ns (name ∷ []) hs (h, tt)
click_stack-IsName (name_at idx) ns h hs = take-All IsName (suc idx) ns hs
click_stack-IsName home ns h hs = tt

click-refines :
    (c : Click) (ns : List String)
    → All IsName ns
    → click c (path_of ns) ≡ path_of (click_stack c ns)
unfolding click click_stack navigate go_to path_of
click-refines (enter name) ns hs = entry_path-inside ns name hs
click-refines (name_at idx) ns hs = go_to-inside idx ns hs
click-refines home ns hs = refl

stack-IsName :
    (cs : List Click) (ns : List String)
    → All EntersName cs
    → All IsName ns
    → All IsName (clicks_stack cs ns)
unfolding clicks_stack
stack-IsName [] ns ks hs = hs
stack-IsName (c ∷ cs) ns (k, ks) hs =
    stack-IsName cs (click_stack c ns) ks (click_stack-IsName c ns k hs)

clicks-from :
    (cs : List Click) (ns : List String)
    → All EntersName cs
    → All IsName ns
    → clicks cs (path_of ns) ≡ path_of (clicks_stack cs ns)
unfolding clicks clicks_stack
clicks-from [] ns ks hs = refl
clicks-from (c ∷ cs) ns (k, ks) hs =
    ap (clicks cs) (click-refines c ns hs)
    ∙ clicks-from cs (click_stack c ns) ks (click_stack-IsName c ns k hs)

-- The path of a container's files, and the names shown for it, are those of a stack of
-- directories, if only directories with non-empty names without a slash are entered: a directory
-- is pushed, a name of the path cuts the stack behind it, and the house empties it.
pub clicks-refine :
    (cs : List Click)
    → All EntersName cs
    → (clicks cs "/" ≡ path_of (clicks_stack cs []))
      × (breadcrumbs (clicks cs "/") ≡ clicks_stack cs [])
unfolding path_of join
clicks-refine cs ks =
    let shown = clicks-from cs [] ks tt in
    (shown, ap breadcrumbs shown ∙ breadcrumbs-path (clicks_stack cs []) (stack-IsName cs [] ks tt))
