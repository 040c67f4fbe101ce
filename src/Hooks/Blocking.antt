-- ===== src/Hooks/Blocking.antt =====
-- src/hooks.rs: what becomes of a message for each answer of a hook.
use seestar_proxy.Base.{
  ◌≡◌, ◌≢◌, refl, sym, ap, ◌∙◌, ◌⊎◌, inl, inr, Bool, true, false, ◌||◌, Bool-cases, none, some,
  Option-cases, arith, unwrap_or, ◌>>=◌,
}
use seestar_proxy.Base.Text.{Text, codes, text_eq}
use seestar_proxy.Json.{
  Value, null, boolean, number, string, array, object, Fields, Serde, get, as_bool, remove,
}
use seestar_proxy.Base.Text.Equal.{text_eq→≡, text_eq_refl}
use seestar_proxy.Hooks
use seestar_proxy.Hooks.{
  HookAction, forward, block, modify, reply, LuaValue, nil, table, other, Call, no_function,
  conversion_error, call_error, returned, interpret_string, interpret_table, interpret,
  remove_reply, call_message_hook,
}

-- The words that block a message, and those that let it pass.
abbrev pub IsBlockWord : Text → Type 0
IsBlockWord s = (s ≡ codes "block") ⊎ ((s ≡ codes "drop") ⊎ (s ≡ codes "reject"))

abbrev pub IsPassWord : Text → Type 0
IsPassWord s = (s ≡ codes "forward") ⊎ (s ≡ codes "pass")

-- A table is a synthetic reply if its field `_reply` is `true`.
abbrev pub IsReply : Value → Type 0
IsReply v = get v "_reply" ≡ some (boolean true)

-- What each answer means.
pub data Meaning (serde : Serde) : Call → HookAction → Type 0 where
  absent : Meaning serde no_function forward
  not_converted : Meaning serde conversion_error forward
  failed : Meaning serde call_error forward
  nothing : Meaning serde (returned nil) forward
  true_passes : Meaning serde (returned (Hooks.boolean true)) forward
  false_blocks : Meaning serde (returned (Hooks.boolean false)) block
  block_word : (s : Text) → IsBlockWord s → Meaning serde (returned (Hooks.string s)) block
  pass_word : (s : Text) → IsPassWord s → Meaning serde (returned (Hooks.string s)) forward
  text :
      (s : Text)
      → ¬ (IsBlockWord s)
      → ¬ (IsPassWord s)
      → Meaning serde (returned (Hooks.string s)) (modify s)
  synthetic :
      (fs : Fields) (json : Text)
      → IsReply (object fs)
      → serde.to_string (object (remove "_reply" fs)) ≡ some json
      → Meaning serde (returned (table (some (object fs)))) (reply json)
  unprintable_reply :
      (fs : Fields)
      → IsReply (object fs)
      → serde.to_string (object (remove "_reply" fs)) ≡ none
      → Meaning serde (returned (table (some (object fs)))) block
  changed :
      (v : Value) (json : Text)
      → ¬ (IsReply v)
      → serde.to_string v ≡ some json
      → Meaning serde (returned (table (some v))) (modify json)
  unprintable :
      (v : Value)
      → ¬ (IsReply v)
      → serde.to_string v ≡ none
      → Meaning serde (returned (table (some v))) forward
  not_json : Meaning serde (returned (table none)) forward
  another_type : Meaning serde (returned other) forward

differs : (s t : Text) → text_eq s t ≡ false → s ≢ t
differs s t e same = absurd (ground (arith, e, ap (text_eq s) (sym same), text_eq_refl s))

IsBlockWord-cases :
    (s : Text)
    → (IsBlockWord s
        × ((text_eq s (codes "block") || text_eq s (codes "drop") || text_eq s (codes "reject"))
            ≡ true))
      ⊎ ((¬ (IsBlockWord s))
          × ((text_eq s (codes "block") || text_eq s (codes "drop") || text_eq s (codes "reject"))
              ≡ false))
IsBlockWord-cases s = elim (Bool-cases (text_eq s (codes "block"))) [
  | inl e ↦ inl (inl (text_eq→≡ s (codes "block") e), rw e refl)
  | inr e ↦ elim (Bool-cases (text_eq s (codes "drop"))) [
    | inl f ↦ inl (inr (inl (text_eq→≡ s (codes "drop") f)), rw (e, f) refl)
    | inr f ↦ elim (Bool-cases (text_eq s (codes "reject"))) [
      | inl g ↦ inl (inr (inr (text_eq→≡ s (codes "reject") g)), rw (e, f, g) refl)
      | inr g ↦ inr (none_of e f g, rw (e, f, g) refl)
    ]
  ]
]
  where
    none_of :
        text_eq s (codes "block") ≡ false
        → text_eq s (codes "drop") ≡ false
        → text_eq s (codes "reject") ≡ false
        → ¬ (IsBlockWord s)
    none_of e f g (inl h) = differs s (codes "block") e h
    none_of e f g (inr (inl h)) = differs s (codes "drop") f h
    none_of e f g (inr (inr h)) = differs s (codes "reject") g h

IsPassWord-cases :
    (s : Text)
    → (IsPassWord s × ((text_eq s (codes "forward") || text_eq s (codes "pass")) ≡ true))
      ⊎ ((¬ (IsPassWord s)) × ((text_eq s (codes "forward") || text_eq s (codes "pass")) ≡ false))
IsPassWord-cases s = elim (Bool-cases (text_eq s (codes "forward"))) [
  | inl e ↦ inl (inl (text_eq→≡ s (codes "forward") e), rw e refl)
  | inr e ↦ elim (Bool-cases (text_eq s (codes "pass"))) [
    | inl f ↦ inl (inr (text_eq→≡ s (codes "pass") f), rw (e, f) refl)
    | inr f ↦ inr (none_of e f, rw (e, f) refl)
  ]
]
  where
    none_of :
        text_eq s (codes "forward") ≡ false → text_eq s (codes "pass") ≡ false → ¬ (IsPassWord s)
    none_of e f (inl h) = differs s (codes "forward") e h
    none_of e f (inr h) = differs s (codes "pass") f h

interpret_string-Meaning :
    (serde : Serde) (s : Text) → Meaning serde (returned (Hooks.string s)) (interpret_string s)
unfolding interpret_string
interpret_string-Meaning serde s = elim (IsBlockWord-cases s) [
  | inl (word, e) ↦ rw (interpret_string, e) (block_word s word)
  | inr (no_block, e) ↦ elim (IsPassWord-cases s) [
    | inl (word, f) ↦ rw (interpret_string, e, f) (pass_word s word)
    | inr (no_pass, f) ↦ rw (interpret_string, e, f) (text s no_block no_pass)
  ]
]

-- The test of the field `_reply`.
abbrev flag : Value → Bool
flag v = unwrap_or (do x ← get v "_reply"; as_bool x) false

IsReply-flag : (v : Value) → IsReply v → flag v ≡ true
unfolding as_bool
IsReply-flag v h = rw (flag, h) refl

flag-IsReply : (v : Value) → flag v ≡ true → IsReply v
unfolding as_bool
flag-IsReply v h = elim (Option-cases (get v "_reply")) [
  | inl e ↦ absurd (ground (arith, e))
  | inr (x, e) ↦ e ∙ ap some (go x (sym (ap (λ o. unwrap_or (do y ← o; as_bool y) false) e) ∙ h))
]
  where
    go : (x : Value) → unwrap_or (as_bool x) false ≡ true → x ≡ boolean true
    go null h = absurd (ground arith)
    go (boolean true) h = refl
    go (boolean false) h = absurd (ground arith)
    go (number n) h = absurd (ground arith)
    go (string s) h = absurd (ground arith)
    go (array vs) h = absurd (ground arith)
    go (object fs) h = absurd (ground arith)

not_flag : (v : Value) → flag v ≡ false → ¬ (IsReply v)
not_flag v e h = absurd (ground (arith, e, IsReply-flag v h))

interpret_table-kept :
    (serde : Serde) (v : Value)
    → flag v ≡ false
    → Meaning serde (returned (table (some v))) (interpret_table serde v)
unfolding interpret_table
interpret_table-kept serde v e = elim (Option-cases (serde.to_string v)) [
  | inl f ↦ rw (interpret_table, e, f) (unprintable v (not_flag v e) f)
  | inr (json, f) ↦ rw (interpret_table, e, f) (changed v json (not_flag v e) f)
]

interpret_table-Meaning :
    (serde : Serde) (v : Value)
    → Meaning serde (returned (table (some v))) (interpret_table serde v)
unfolding interpret_table get remove_reply
interpret_table-Meaning serde null = interpret_table-kept serde null refl
interpret_table-Meaning serde (boolean b) = interpret_table-kept serde (boolean b) refl
interpret_table-Meaning serde (number n) = interpret_table-kept serde (number n) refl
interpret_table-Meaning serde (string s) = interpret_table-kept serde (string s) refl
interpret_table-Meaning serde (array vs) = interpret_table-kept serde (array vs) refl
interpret_table-Meaning serde (object fs) = elim (Bool-cases (flag (object fs))) [
  | inr e ↦ interpret_table-kept serde (object fs) e
  | inl e ↦ elim (Option-cases (serde.to_string (object (remove "_reply" fs)))) [
    | inl f ↦ rw (interpret_table, e, f) (unprintable_reply fs (flag-IsReply (object fs) e) f)
    | inr (json, f) ↦ rw (interpret_table, e, f) (synthetic fs json (flag-IsReply (object fs) e) f)
  ]
]

-- Hooks fail open: without the function, when the message cannot be converted, and after an error in
-- the script, the message is forwarded as it is. A script that returns nothing, `true`, `forward`,
-- `pass`, a value of another type, or a table that is not JSON, forwards it too; `false`, `block`,
-- `drop` and `reject` block it; any other string takes its place. A table whose field `_reply` is
-- `true` is sent back without that field, and blocks the message if it cannot be printed; any other
-- table takes the message's place, which is forwarded if the table cannot be printed.
pub call_message_hook-Meaning :
    (serde : Serde) (c : Call) → Meaning serde c (call_message_hook serde c)
unfolding call_message_hook interpret
call_message_hook-Meaning serde no_function = absent
call_message_hook-Meaning serde conversion_error = not_converted
call_message_hook-Meaning serde call_error = failed
call_message_hook-Meaning serde (returned nil) = nothing
call_message_hook-Meaning serde (returned (Hooks.string s)) = interpret_string-Meaning serde s
call_message_hook-Meaning serde (returned (Hooks.boolean true)) = true_passes
call_message_hook-Meaning serde (returned (Hooks.boolean false)) = false_blocks
call_message_hook-Meaning serde (returned (table none)) = not_json
call_message_hook-Meaning serde (returned (table (some v))) = interpret_table-Meaning serde v
call_message_hook-Meaning serde (returned other) = another_type
