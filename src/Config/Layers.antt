-- ===== src/Config/Layers.antt =====
-- src/config.rs: layering a file twice is layering it once, and what each layer decides.
use seestar_proxy.Base.{
  ℕ, ◌≡◌, refl, inl, inr, String, Bool, true, false, Bool-cases, Option, none, some, List, [], ◌∷◌,
  ◌++◌, arith, if◌then◌else◌, All,
}
use seestar_proxy.Config.{
  FileConfig, Config, fill, apply_default, enable, raise, contains, push_hooks, append_hooks,
  apply_file,
}

fill_twice {ℓ} : {A : Type ℓ} (v file : Option A) → fill (fill v file) file ≡ fill v file
unfolding fill
fill_twice none none = refl
fill_twice none (some w) = refl
fill_twice (some v) file = refl

apply_default_twice {ℓ} :
    {A : Type ℓ} (is_default : A → Bool) (v : A) (file : Option A)
    → apply_default is_default (apply_default is_default v file) file
      ≡ apply_default is_default v file
unfolding apply_default
apply_default_twice is_default v none = refl
apply_default_twice is_default v (some w) = ground arith

enable_twice : (v : Bool) (file : Option Bool) → enable (enable v file) file ≡ enable v file
unfolding enable
enable_twice v none = refl
enable_twice v (some false) = refl
enable_twice v (some true) = refl

raise_twice : (v : ℕ) (file : Option ℕ) → raise (raise v file) file ≡ raise v file
unfolding raise
raise_twice v none = refl
raise_twice v (some w) = ground arith

module _ (path_eq : String → String → Bool) where
  contains-append :
      (h : String) (gs hs : List String)
      → contains path_eq h gs ≡ true
      → contains path_eq h (gs ++ hs) ≡ true
  unfolding contains
  contains-append h [] hs e = absurd cc
  contains-append h (g ∷ gs) hs e = ground (arith, contains-append h gs hs)

  contains_last :
      (h : String) (gs : List String)
      → path_eq h h ≡ true
      → contains path_eq h (gs ++ h ∷ []) ≡ true
  unfolding contains
  contains_last h [] e = ground arith
  contains_last h (g ∷ gs) e = ground (arith, contains_last h gs e)

  contains-push_hooks :
      (h : String) (gs hs : List String)
      → contains path_eq h gs ≡ true
      → contains path_eq h (push_hooks path_eq gs hs) ≡ true
  unfolding push_hooks
  contains-push_hooks h gs [] e = e
  contains-push_hooks h gs (k ∷ hs) e =
      contains-push_hooks h (if contains path_eq k gs then gs else gs ++ k ∷ []) hs
        (elim (Bool-cases (contains path_eq k gs)) [
          | inl f ↦ rw f e
          | inr f ↦ rw f (contains-append h gs (k ∷ []) e)
        ])

  -- Every hook of the list is there in the end.
  push_hooks_each :
      (gs hs : List String)
      → ((h : String) → path_eq h h ≡ true)
      → All (λ h. contains path_eq h (push_hooks path_eq gs hs) ≡ true) hs
  unfolding push_hooks
  push_hooks_each gs [] r = tt
  push_hooks_each gs (h ∷ hs) r =
      let next = if contains path_eq h gs then gs else gs ++ h ∷ [] in
      (
        contains-push_hooks h next hs (elim (Bool-cases (contains path_eq h gs)) [
          | inl f ↦ rw f f
          | inr f ↦ rw f (contains_last h gs (r h))
        ]),
        push_hooks_each next hs r,
      )

  push_hooks_none :
      (gs hs : List String)
      → All (λ h. contains path_eq h gs ≡ true) hs
      → push_hooks path_eq gs hs ≡ gs
  unfolding push_hooks
  push_hooks_none gs [] all = refl
  push_hooks_none gs (h ∷ hs) all = rw (all.0, push_hooks) (push_hooks_none gs hs all.1)

  append_hooks_twice :
      (gs : List String) (file : Option (List String))
      → ((h : String) → path_eq h h ≡ true)
      → append_hooks path_eq (append_hooks path_eq gs file) file ≡ append_hooks path_eq gs file
  unfolding append_hooks
  append_hooks_twice gs none r = refl
  append_hooks_twice gs (some hs) r =
      push_hooks_none (push_hooks path_eq gs hs) hs (push_hooks_each gs hs r)

  -- Where the equality of paths is reflexive, a file that is applied again changes nothing: each value
  -- is settled by the first time, and no hook is added twice.
  pub apply_file_twice :
      (file : FileConfig) (c : Config)
      → ((h : String) → path_eq h h ≡ true)
      → apply_file path_eq file (apply_file path_eq file c) ≡ apply_file path_eq file c
  unfolding apply_file
  apply_file_twice file c r = simp (
    fill_twice,
    apply_default_twice,
    enable_twice,
    raise_twice,
    append_hooks_twice c.hooks file.hooks r,
  )
