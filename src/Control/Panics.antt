-- ===== src/Control/Panics.antt =====
-- src/control.rs: the reader task's slices of a message, which panic inside a character.
use seestar_proxy.Base.{
  ℕ, ◌-◌, ◌≤◌, ◌<◌, ◌≡◌, refl, inl, inr, true, Bool-cases, Option-cases, [], ◌∷◌, arith, ltb, All,
  min,
}
use seestar_proxy.Base.Text.{
  Bytes, Text, from_utf8_lossy, trim, can_slice, is_char_boundary, utf8_len,
}
use seestar_proxy.Json.{Value}
use seestar_proxy.Protocol.{is_event, json_rpc_id}
use seestar_proxy.Control.Pending.{lookup}
use seestar_proxy.Control.State.{Proxy, Env, next}
use seestar_proxy.Control.Upstream.{
  hint_end, can_hint, handle_event, deliver, handle_untracked, handle_response, classify,
  handle_parsed, handle_trimmed, handle_message,
}

abbrev pub IsAscii : Text → Type 0
IsAscii = All (λ c. c < 128)

is_char_boundary-IsAscii :
    (n : ℕ) (t : Text) → IsAscii t → n ≤ utf8_len t → is_char_boundary n t ≡ true
unfolding is_char_boundary utf8_len
is_char_boundary-IsAscii n [] a h = ground arith
is_char_boundary-IsAscii n (c ∷ t) a h = ground (arith, a.0, is_char_boundary-IsAscii (n - 1) t a.1)

can_slice-IsAscii : (n : ℕ) (t : Text) → IsAscii t → can_slice n t ≡ true
unfolding can_slice
can_slice-IsAscii n t a = is_char_boundary-IsAscii (min n (utf8_len t)) t a (omega arith)

can_hint-IsAscii : (t : Text) → IsAscii t → can_hint t ≡ true
unfolding can_hint
can_hint-IsAscii t a = elim (Bool-cases (ltb 20 (utf8_len t))) [
  | inl e ↦ rw e (can_slice-IsAscii (hint_end t) t a)
  | inr e ↦ rw e refl
]

classify-next : (env : Env) (t : Text) (msg : Value) (p : Proxy) → (classify env t msg p).2 ≡ next
unfolding classify handle_event handle_response deliver handle_untracked
classify-next env t msg p = elim (Bool-cases (is_event msg)) [
  | inl e ↦ rw e refl
  | inr e ↦ elim (Option-cases (json_rpc_id msg)) [
    | inl f ↦ rw e (rw f refl)
    | inr (rid, f) ↦ elim (Option-cases (lookup rid p.pending)) [
      | inl g ↦ rw e (rw f (rw (g, handle_response) refl))
      | inr (r, g) ↦ rw e (rw f (rw (g, handle_response) refl))
    ]
  ]
]

handle_parsed-next :
    (env : Env) (t : Text) (p : Proxy) → IsAscii t → (handle_parsed env t p).2 ≡ next
unfolding handle_parsed
handle_parsed-next env t p a = elim (Option-cases (env.serde.from_str t)) [
  | inl e ↦ rw (e, handle_parsed) (rw (can_slice-IsAscii 100 t a) refl)
  | inr (msg, e) ↦ rw (e, handle_parsed) (classify-next env t msg p)
]

handle_trimmed-next :
    (env : Env) (t : Text) (p : Proxy) → IsAscii t → (handle_trimmed env t p).2 ≡ next
unfolding handle_trimmed
handle_trimmed-next env [] p a = refl
handle_trimmed-next env (c ∷ cs) p a =
    rw (can_hint-IsAscii (c ∷ cs) a, handle_trimmed)
      (handle_parsed-next env (c ∷ cs) (record p { handshake_done = true }) a)

-- A message of the telescope in ASCII, valid JSON or not, never stops the reader task: its slices for
-- the log panic only inside a character of several bytes.
pub handle_message-next :
    (env : Env) (line : Bytes) (p : Proxy)
    → IsAscii (trim (from_utf8_lossy line))
    → (handle_message env line p).2 ≡ next
unfolding handle_message
handle_message-next env line p a = handle_trimmed-next env (trim (from_utf8_lossy line)) p a
