-- ===== src/Tests/Hooks.antt =====
-- src/hooks.rs: two scripts over an interpreter that keeps the names of the functions.
use seestar_proxy.Base.{
  String, ◌≡◌, refl, Bool, true, false, ◌||◌, Option, none, some, List, [], ◌∷◌, str_eq,
  if◌then◌else◌,
}
use seestar_proxy.Base.Text.{Text, codes, text_eq}
use seestar_proxy.Json.{Serde}
use seestar_proxy.Hooks.Loading.{
  Lua, loaded, script_error, Engine, load_script, load_scripts, engine_of, new, Made, new-Made,
}

-- A script is the name of the function that it defines, and "bad" fails.
abbrev member : String → List String → Bool
member n [] = false
member n (m ∷ ms) = str_eq n m || member n ms

abbrev lua : Lua (List String)
lua = record {
  fresh = [];
  exec = λ t s.
      if text_eq t (codes "bad")
      then none
      else some ((if text_eq t (codes "c") then "on_client_connect" else "on_event") ∷ s);
  defines = λ s n. member n s;
  call = λ n args s. (n ∷ s, true);
}

abbrev read : String → Option Text
read p =
    if str_eq p "a.lua"
    then some (codes "c")
    else if str_eq p "b.lua"
    then some (codes "e")
    else some (codes "bad")

abbrev scripts : List String
scripts = "a.lua" ∷ "b.lua" ∷ []

abbrev engine : Engine (List String)
engine = engine_of (List String) lua read ("on_event" ∷ "on_client_connect" ∷ [])

made : new (List String) lua read scripts ≡ loaded engine
unfolding new load_scripts load_script text_eq
made = refl

new-Made_example : Made (List String) lua read scripts (new (List String) lua read scripts)
new-Made_example = new-Made (List String) lua read scripts

stopped : new (List String) lua read ("a.lua" ∷ "x.lua" ∷ "b.lua" ∷ []) ≡ script_error "x.lua"
unfolding new load_scripts load_script text_eq
stopped = refl

flags : (engine.has_on_client_connect ≡ true) × (engine.has_on_request ≡ false)
unfolding engine_of
flags = (refl, refl)

abbrev serde : Serde
serde = record { from_str = λ t. none; to_string = λ v. some (codes "{}") }
