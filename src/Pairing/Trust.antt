-- ===== src/Pairing/Trust.antt =====
-- src/bin/ble_pair.rs: the password of the home network goes only to a telescope that has answered.
use seestar_proxy.Base.{
  String, ◌≡◌, refl, sym, ap, ◌∙◌, ◌⊎◌, inl, inr, Bool, true, false, ◌&&◌, ◌||◌, Bool-cases,
  Option-cases, Option, none, some, List, [], ◌∷◌, ◌++◌, arith, if◌then◌else◌, is_some, unwrap_or,
  ◌>>=◌, All, append_assoc, str_eq, ltb,
}
use seestar_proxy.Base.Text.{Bytes}
use seestar_proxy.Json.{Value, string, object, field, end, get, lookup, as_str}
use seestar_proxy.Pairing.{
  Args, Env, Link, Result, ok, failed, panicked, and_then, already_trusted, challenge_of, request,
  decode, await_next, send_and_recv, spontaneous, read_challenge, obtain_challenge, code_of,
  is_zero, check_code, verify, authenticate, wifi, pair,
}

-- A message that sets the network, which holds its password.
abbrev pub is_wifi : Value → Bool
is_wifi v =
    let ble_method = unwrap_or (do m ← get v "ble_method"; as_str m) "" in
    str_eq ble_method "iscope_set_wifi" || str_eq ble_method "set_wifi_ssid"

abbrev pub Other : Value → Type 0
Other v = is_wifi v ≡ false

abbrev pub link_of {ℓ} : {A : Type ℓ} → Result A → Link
link_of (ok a l) = l
link_of (failed l) = l
link_of (panicked l) = l

-- Only other messages have been sent, and a result is as `P` says.
abbrev Holds {ℓ} : {A : Type ℓ} → (A → Link → Type 0) → Result A → Type 0
Holds P (ok a l) = P a l × All Other l.sent
Holds P (failed l) = All Other l.sent
Holds P (panicked l) = All Other l.sent

and_then-Holds {ℓ κ} :
    {A : Type ℓ} {B : Type κ} (P : A → Link → Type 0) (Q : B → Link → Type 0) (r : Result A)
    (f : A → Link → Result B)
    → Holds P r
    → ((a : A) (l : Link) → P a l → All Other l.sent → Holds Q (f a l))
    → Holds Q (and_then r f)
unfolding and_then
and_then-Holds P Q (ok a l) f h k = k a l h.0 h.1
and_then-Holds P Q (failed l) f h k = h
and_then-Holds P Q (panicked l) f h k = h

module _ (env : Env) where
  -- A notification by which the telescope shows that it takes the client: the code zero, an answer
  -- without a challenge, code and error, or the mark itself as its challenge.
  pub data Vouches (bs : Bytes) : Type 0 where
    verified : is_zero (code_of (decode env bs)) ≡ true → Vouches bs
    acknowledged :
        challenge_of (decode env bs) ≡ none
        → (is_some (get (decode env bs) "code") || is_some (get (decode env bs) "error")) ≡ false
        → Vouches bs
    marked :
        (ch : String)
        → challenge_of (decode env bs) ≡ some ch
        → str_eq ch already_trusted ≡ true
        → Vouches bs

  abbrev pub Vouched : List (Option Bytes) → List (Option Bytes) → Type 0
  Vouched ns rest =
      (before : List (Option Bytes)) × (bs : Bytes) × (ns ≡ before ++ some bs ∷ rest) × Vouches bs

  abbrev After : List (Option Bytes) → List (Option Bytes) → Type 0
  After ns rest = (before : List (Option Bytes)) × (ns ≡ before ++ rest)

  abbrev Received : List (Option Bytes) → Value → Link → Type 0
  Received ns v l' = (bs : Bytes) × (ns ≡ some bs ∷ l'.notifs) × (v ≡ decode env bs)

  await_next-Holds :
      (ns : List (Option Bytes)) (l : Link)
      → All Other l.sent
      → Holds (Received ns) (await_next env ns l)
  unfolding await_next
  await_next-Holds [] l h = h
  await_next-Holds (none ∷ ns) l h = h
  await_next-Holds (some bs ∷ ns) l h = ((bs, refl, refl), h)

  send_and_recv-Holds :
      (msg : Value) (l : Link)
      → Other msg
      → All Other l.sent
      → Holds (Received l.notifs) (send_and_recv env msg l)
  unfolding send_and_recv
  send_and_recv-Holds msg l o h = elim (Bool-cases (env.to_vec msg && env.write msg)) [
    | inr e ↦ rw (send_and_recv, e) h
    | inl e ↦
        rw (send_and_recv, e) (await_next-Holds l.notifs (record l { sent = msg ∷ l.sent }) (o, h))
  ]

  -- The challenge, and what it is worth if it is the mark.
  abbrev Obtained : List (Option Bytes) → String → Link → Type 0
  Obtained ns ch l = After ns l.notifs × (str_eq ch already_trusted ≡ true → Vouched ns l.notifs)

  spontaneous_lem :
      (ns : List (Option Bytes)) (l : Link)
      → Obtained ns (spontaneous env ns).0 (record l { notifs = (spontaneous env ns).1 })
  unfolding spontaneous
  spontaneous_lem [] l = (([], refl), λ h. absurd cc)
  spontaneous_lem (none ∷ ns) l = ((none ∷ [], refl), λ h. absurd cc)
  spontaneous_lem (some bs ∷ ns) l = (
    (some bs ∷ [], refl),
    λ h. elim (Option-cases (challenge_of (decode env bs))) [
      | inl e ↦ ([], bs, refl, mark_absent (challenge_of (decode env bs)) e h)
      | inr (ch, e) ↦ (
        [],
        bs,
        refl,
        marked ch e (sym (ap (λ c. str_eq (unwrap_or c "") already_trusted) e) ∙ h),
      )
    ],
  )
    where
      mark_absent :
          (c : Option String)
          → c ≡ none
          → str_eq (unwrap_or c "") already_trusted ≡ true
          → Vouches bs
      mark_absent none e h = absurd (ground arith)
      mark_absent (some c) e h = absurd cc

  one_later :
      (ns ms : List (Option Bytes)) (bs : Bytes) (rest : List (Option Bytes))
      → After ns ms
      → ms ≡ some bs ∷ rest
      → (before : List (Option Bytes)) × (ns ≡ before ++ some bs ∷ rest)
  one_later ns ms bs rest (before, e) f = (before, e ∙ ap (λ m. before ++ m) f)

  one_further :
      (ns : List (Option Bytes)) (bs : Bytes) (rest : List (Option Bytes))
      → (before : List (Option Bytes)) × (ns ≡ before ++ some bs ∷ rest)
      → After ns rest
  one_further ns bs rest (before, e) =
      (before ++ some bs ∷ [], e ∙ sym (append_assoc before (some bs ∷ []) rest))

  read_challenge-Holds :
      (ns ms : List (Option Bytes)) (v : Value) (l : Link)
      → After ns ms
      → Received ms v l
      → All Other l.sent
      → Holds (Obtained ns) (read_challenge v l)
  unfolding read_challenge
  read_challenge-Holds ns ms v l a (bs, e, same) h =
      let (before, f) = one_later ns ms bs l.notifs a e in
      elim (Option-cases (challenge_of v)) [
        | inr (ch, g) ↦
            rw (read_challenge, g)
              (
                (
                  one_further ns bs l.notifs (before, f),
                  λ k. (before, bs, f, marked ch (sym (ap challenge_of same) ∙ g) k),
                ),
                h,
              )
        | inl g ↦ elim (Bool-cases (is_some (get v "code") || is_some (get v "error"))) [
          | inl b ↦ rw (read_challenge, g, b) h
          | inr b ↦
              rw (read_challenge, g, b)
                (
                  (
                    one_further ns bs l.notifs (before, f),
                    λ k. (
                      before,
                      bs,
                      f,
                      acknowledged (sym (ap challenge_of same) ∙ g) (
                          sym (ap (λ x. is_some (get x "code") || is_some (get x "error")) same)
                          ∙ b),
                    ),
                  ),
                  h,
                )
        ]
      ]

module _ (env : Env) (args : Args) where
  obtain_challenge-Holds :
      (ns : List (Option Bytes)) (first : String) (l : Link)
      → Obtained env ns first l
      → All Other l.sent
      → Holds (Obtained env ns) (obtain_challenge env args first l)
  unfolding obtain_challenge get lookup as_str
  obtain_challenge-Holds ns first l o h = elim (Bool-cases (str_eq first "")) [
    | inr e ↦ rw (obtain_challenge, e) (o, h)
    | inl e ↦
        rw (obtain_challenge, e)
          (and_then-Holds (Received env l.notifs) (Obtained env ns)
            (send_and_recv env (request 1 "get_verify_str" args.sn (string "verify")) l)
            read_challenge
            (send_and_recv-Holds env (request 1 "get_verify_str" args.sn (string "verify")) l refl
              h)
            (λ v l'. read_challenge-Holds env ns l.notifs v l' o.0))
  ]

  -- The answer to `verify_client`.
  abbrev Checked : List (Option Bytes) → Unit {0} → Link → Type 0
  Checked ns done l = Vouched env ns l.notifs

  check_code-Holds :
      (ns ms : List (Option Bytes)) (v : Value) (l : Link)
      → After env ns ms
      → Received env ms v l
      → All Other l.sent
      → Holds (Checked ns) (check_code v l)
  unfolding check_code
  check_code-Holds ns ms v l a (bs, e, same) h =
      let (before, f) = one_later env ns ms bs l.notifs a e in
      elim (Bool-cases (is_zero (code_of v))) [
        | inr b ↦ rw (check_code, b) h
        | inl b ↦
            rw (check_code, b)
              ((before, bs, f, verified (sym (ap (λ x. is_zero (code_of x)) same) ∙ b)), h)
      ]

  abbrev proof_of : (signature challenge : String) → Value
  proof_of signature challenge =
      request 2 "verify_client" args.sn
        (object (field "sign" (string signature) (field "data" (string challenge) end)))

  verify-Holds :
      (ns : List (Option Bytes)) (ch : String) (l : Link)
      → After env ns l.notifs
      → All Other l.sent
      → Holds (Checked ns) (verify env args ch l)
  unfolding verify get lookup as_str
  verify-Holds ns ch l a h = elim (Option-cases (do key ← args.key; env.sign_challenge key ch)) [
    | inl e ↦ rw (verify, e) h
    | inr (signature, e) ↦ elim (Bool-cases (ltb (env.utf8_length signature) 8)) [
      | inl b ↦ rw (verify, e, b) h
      | inr b ↦
          rw (verify, e, b)
            (and_then-Holds (Received env l.notifs) (Checked ns)
              (send_and_recv env (proof_of signature ch) l) check_code
              (send_and_recv-Holds env (proof_of signature ch) l refl h)
              (λ v l'. check_code-Holds ns l.notifs v l' a))
    ]
  ]

  authenticate-Holds :
      (l : Link) → All Other l.sent → Holds (Checked l.notifs) (authenticate env args l)
  unfolding authenticate
  authenticate-Holds l h =
      let ns = l.notifs in
      let (first, rest) = spontaneous env ns in
      let l' = record l { notifs = rest } in
      and_then-Holds (Obtained env ns) (Checked ns) (obtain_challenge env args first l')
        (λ ch m. if str_eq ch already_trusted then ok tt m else verify env args ch m)
        (obtain_challenge-Holds ns first l' (spontaneous_lem env ns l) h)
        (λ ch m o k. elim (Bool-cases (str_eq ch already_trusted)) [
          | inl e ↦ rw e (o.1 e, k)
          | inr e ↦ rw e (verify-Holds ns ch m o.0 k)
        ])

  -- The password of the home network is sent only to a telescope that has shown that it takes the
  -- client: either no message that sets the network has been sent, or among the notifications is one
  -- that vouches for it, an answer with the code zero, an answer without challenge, code and error, or
  -- one whose challenge is the program's own mark of trust.
  pub pair-Vouched :
      (ns : List (Option Bytes))
      → All Other (link_of (pair env args ns)).sent
        ⊎ ((rest : List (Option Bytes)) × Vouched env ns rest)
  unfolding pair
  pair-Vouched ns =
      go (authenticate env args (record { sent = []; notifs = ns }))
        (authenticate-Holds (record { sent = []; notifs = ns }) tt)
    where
      go :
          (r : Result {0} Unit)
          → Holds (Checked ns) r
          → All Other (link_of (and_then r (λ done l. wifi env args l))).sent
            ⊎ ((rest : List (Option Bytes)) × Vouched env ns rest)
      go (ok done l) h = inr (l.notifs, h.0)
      go (failed l) h = inl h
      go (panicked l) h = inl h
