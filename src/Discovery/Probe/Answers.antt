-- ===== src/Discovery/Probe/Answers.antt =====
-- src/discovery.rs: which answer the bridge starts with, and where its replies come from.
use seestar_proxy.Base.{
  ◌≡◌, ◌≢◌, String, is_some, ◌∙◌, refl, sym, ap, ◌||◌, ◌⊎◌, inl, inr, Bool, true, false, Bool-cases,
  Option-cases, Option, none, some, List, [], ◌∷◌, ◌++◌, arith, if◌then◌else◌, ◌>>=◌, unwrap_or,
  All,
}
use mathlib.Core.Option.{some-injective}
use seestar_proxy.Base.Text.{Bytes, Text, codes, text_eq, from_utf8_lossy, trim, find}
use seestar_proxy.Base.Text.Equal.{text_eq→≡, text_eq_refl}
use seestar_proxy.Json.{
  Value, null, boolean, number, string, array, object, Fields, get, lookup, insert, as_str,
}
use seestar_proxy.Discovery.{Address, Env, patch_ip, set_ip, serial, has_real_info, start}
use seestar_proxy.Discovery.Probe.{
  Parsers, trim_ascii_end, is_firmware_error, skip, give_up, answered, judge, await_answer,
  is_object, device_state, await_state, from_state, fetch_device_info_tcp, minimal, probe_upstream,
  recv_bind_ip, send_bind_ip, is_unspecified,
}

-- Whether a word stands in the text of a datagram.
abbrev pub mentions : String → Bytes → Bool
mentions word bytes = is_some (find (codes word) (from_utf8_lossy bytes))

object-cases :
    (r : Value)
    → ((fs : Fields) × (r ≡ object fs)) ⊎ (((fs : Fields) → r ≢ object fs) × (is_object r ≡ false))
unfolding is_object
object-cases (object fs) = inl (fs, refl)
object-cases (boolean b) = inr (λ fs e. cc, refl)
object-cases (number n) = inr (λ fs e. cc, refl)
object-cases (string t) = inr (λ fs e. cc, refl)
object-cases (array vs) = inr (λ fs e. cc, refl)
object-cases null = inr (λ fs e. cc, refl)

result_of :
    (v w x r : Value) → some v ≡ some w → get v "result" ≡ some r → get w "result" ≡ some x → r ≡ x
result_of v w x r same g h =
    some-injective _ _ (sym g ∙ ap (λ o. get (unwrap_or o v) "result") same ∙ h)

module _ (ps : Parsers) (upstream_ip : Bytes) where
  -- The JSON of a datagram of the telescope.
  abbrev pub Reads : Address × Bytes → Value → Type 0
  Reads (src, buf) v = (src.ip ≡ upstream_ip) × (ps.from_slice (trim_ascii_end buf) ≡ some v)

  -- A datagram of the telescope that is not JSON, and mentions a code or an error.
  abbrev pub Rejects : Address × Bytes → Type 0
  Rejects (src, buf) =
      (src.ip ≡ upstream_ip)
      × (ps.from_slice (trim_ascii_end buf) ≡ none)
      × ((mentions "\"code\"" (trim_ascii_end buf) ≡ true)
          ⊎ (mentions "\"error\"" (trim_ascii_end buf) ≡ true))

  -- A datagram of another host, or one of the telescope that is not JSON and mentions neither.
  abbrev pub Skipped : Address × Bytes → Type 0
  Skipped (src, buf) =
      (src.ip ≢ upstream_ip)
      ⊎ ((ps.from_slice (trim_ascii_end buf) ≡ none)
          × (mentions "\"code\"" (trim_ascii_end buf) ≡ false)
          × (mentions "\"error\"" (trim_ascii_end buf) ≡ false))

  -- A line whose JSON has an object as its result, and one that has not.
  abbrev pub HasState : Text → Value → Type 0
  HasState l r =
      (v : Value) × (fs : Fields) × (ps.from_str (trim l) ≡ some v)
      × (get v "result" ≡ some (object fs))
      × (r ≡ object fs)

  abbrev pub Stateless : Text → Type 0
  Stateless l = ¬ ((r : Value) × HasState l r)

  -- The telescope does not answer the probe in time, or rejects it.
  pub data Silent (ds : List (Address × Bytes)) : Type 0 where
    timed_out : All Skipped ds → Silent ds
    rejected :
        (before after : List (Address × Bytes)) (d : Address × Bytes)
        → ds ≡ before ++ d ∷ after
        → All Skipped before
        → Rejects d
        → Silent ds

  -- It gives no device state either.
  abbrev pub Mute : Option (List Text) → Type 0
  Mute none = Unit
  Mute (some ls) = All Stateless ls

  -- What the bridge may take for the telescope's device information.
  pub data Probed (ds : List (Address × Bytes)) (lines : Option (List Text)) : Value → Type 0 where
    direct :
        (before after : List (Address × Bytes)) (d : Address × Bytes) (v : Value)
        → ds ≡ before ++ d ∷ after
        → All Skipped before
        → Reads d v
        → Probed ds lines v
    by_state :
        (before after : List Text) (l : Text) (r : Value)
        → Silent ds
        → lines ≡ some (before ++ l ∷ after)
        → All Stateless before
        → HasState l r
        → Probed ds lines (from_state r)
    neither : Silent ds → Mute lines → Probed ds lines minimal

  -- How the two loops end.
  abbrev Answered : List (Address × Bytes) → Type 0
  Answered ds =
      (before : List (Address × Bytes)) × (d : Address × Bytes) × (after : List (Address × Bytes))
      × (v : Value) × (ds ≡ before ++ d ∷ after)
      × All Skipped before
      × Reads d v
      × (await_answer ps upstream_ip ds ≡ some v)

  judge-cases :
      (d : Address × Bytes)
      → (Skipped d × (judge ps upstream_ip d ≡ skip))
        ⊎ ((Rejects d × (judge ps upstream_ip d ≡ give_up))
            ⊎ ((v : Value) × Reads d v × (judge ps upstream_ip d ≡ answered v)))
  unfolding judge is_firmware_error
  judge-cases (src, buf) =
      let slice = trim_ascii_end buf in
      elim (Bool-cases (text_eq src.ip upstream_ip)) [
        | inr e ↦ inl (
          inl (λ same.
              absurd (ground (arith, e, ap (text_eq src.ip) (sym same), text_eq_refl src.ip))),
          rw (judge, e) refl,
        )
        | inl e ↦
            let from = text_eq→≡ src.ip upstream_ip e in
            elim (Option-cases (ps.from_slice slice)) [
              | inr (v, f) ↦ inr (inr (v, (from, f), rw (judge, e, f) refl))
              | inl f ↦ elim (Bool-cases (mentions "\"code\"" slice)) [
                | inl g ↦ inr (inl ((from, f, inl g), rw (judge, e, f, is_firmware_error, g) refl))
                | inr g ↦ elim (Bool-cases (mentions "\"error\"" slice)) [
                  | inl h ↦
                      inr (inl ((from, f, inr h), rw (judge, e, f, is_firmware_error, g, h) refl))
                  | inr h ↦ inl (inr (f, g, h), rw (judge, e, f, is_firmware_error, g, h) refl)
                ]
              ]
            ]
      ]

  device_state-cases :
      (l : Text)
      → (Stateless l × (device_state ps l ≡ none))
        ⊎ ((r : Value) × HasState l r × (device_state ps l ≡ some r))
  unfolding device_state is_object
  device_state-cases l = elim (Option-cases (ps.from_str (trim l))) [
    | inl e ↦
        inl (λ (r, (v, fs, f, g, h)). absurd (ground (arith, e, f)), rw (device_state, e) refl)
    | inr (v, e) ↦ elim (Option-cases (get v "result")) [
      | inl g ↦ inl (
        λ (r, (w, fs, f, h, k)). absurd (ground (arith, e, f, g, h)),
        rw (device_state, e, g) refl,
      )
      | inr (r, g) ↦ elim (object-cases r) [
        | inl (fs, o) ↦ inr (r, (v, fs, e, g ∙ ap some o, o), rw (device_state, e, g, o) refl)
        | inr (never, o) ↦ inl (
          λ (r', (w, fs, f, h, k)). never fs (result_of v w (object fs) r (sym e ∙ f) g h),
          rw (device_state, e, g, o) refl,
        )
      ]
    ]
  ]

  await_answer_lem :
      (ds : List (Address × Bytes))
      → Answered ds ⊎ (Silent ds × (await_answer ps upstream_ip ds ≡ none))
  unfolding await_answer
  await_answer_lem [] = inr (timed_out tt, refl)
  await_answer_lem (d ∷ ds) = elim (judge-cases d) [
    | inr (inr (v, reads, e)) ↦ inl ([], d, ds, v, refl, tt, reads, rw (await_answer, e) refl)
    | inr (inl (rejects, e)) ↦ inr (rejected [] ds d refl tt rejects, rw (await_answer, e) refl)
    | inl (skips, e) ↦ elim (await_answer_lem ds) [
      | inl (before, c, after, v, same, skipped, f, g) ↦
          inl
            (d ∷ before, c, after, v, ap (◌∷◌ d) same, (skips, skipped), f, rw (await_answer, e) g)
      | inr (timed_out skipped, g) ↦ inr (timed_out (skips, skipped), rw (await_answer, e) g)
      | inr (rejected before after c same skipped f, g) ↦ inr (
        rejected (d ∷ before) after c (ap (◌∷◌ d) same) (skips, skipped) f,
        rw (await_answer, e) g,
      )
    ]
  ]

  abbrev Found : List Text → Type 0
  Found ls =
      (before : List Text) × (l : Text) × (after : List Text) × (r : Value) × (ls
        ≡ before ++ l ∷ after)
      × All Stateless before
      × HasState l r
      × (await_state ps ls ≡ some r)

  await_state_lem : (ls : List Text) → Found ls ⊎ (All Stateless ls × (await_state ps ls ≡ none))
  unfolding await_state
  await_state_lem [] = inr (tt, refl)
  await_state_lem (l ∷ ls) = elim (device_state-cases l) [
    | inr (r, has, e) ↦ inl ([], l, ls, r, refl, tt, has, rw (await_state, e) refl)
    | inl (lacks, e) ↦ elim (await_state_lem ls) [
      | inl (before, k, after, r, same, stateless, f, g) ↦
          inl
            (l ∷ before, k, after, r, ap (◌∷◌ l) same, (lacks, stateless), f, rw (await_state, e) g)
      | inr (stateless, g) ↦ inr ((lacks, stateless), rw (await_state, e) g)
    ]
  ]

  -- The bridge takes the JSON of the first datagram of the telescope's address that is JSON, after
  -- others that are passed over: datagrams of other addresses, and those that are not JSON and mention
  -- no code and no error. If there is none in time, or one of the telescope that is not JSON and does
  -- mention them comes before, it takes the response built from the first line over TCP whose JSON has
  -- an object as its result; and if there is none either, the minimal response.
  pub probe_upstream-Probed :
      (ds : List (Address × Bytes)) (lines : Option (List Text))
      → Probed ds lines (probe_upstream ps upstream_ip ds lines)
  unfolding probe_upstream fetch_device_info_tcp
  probe_upstream-Probed ds lines = elim (await_answer_lem ds) [
    | inl (before, d, after, v, same, skipped, e, f) ↦
        rw (probe_upstream, f) (direct before after d v same skipped e)
    | inr (silent, f) ↦ rw (probe_upstream, f) (go lines silent)
  ]
    where
      go :
          (lines : Option (List Text))
          → Silent ds
          → Probed ds lines (unwrap_or (fetch_device_info_tcp ps lines) minimal)
      go none silent = neither silent tt
      go (some ls) silent = elim (await_state_lem ls) [
        | inl (before, l, after, r, same, stateless, e, f) ↦
            rw (fetch_device_info_tcp, f)
              (by_state before after l r silent (ap some same) stateless e)
        | inr (stateless, f) ↦ rw (fetch_device_info_tcp, f) (neither silent stateless)
      ]

-- The bridge that has to start with the minimal response tells the app the proxy's address, and
-- goes on asking the telescope.
pub start-minimal :
    (env : Env)
    → (info : Value) × (start env minimal
        ≡ some (record { device_info = info; have_real_info = false }))
      × ((do result ← get info "result"; ip ← get result "ip"; as_str ip) ≡ some env.proxy_ip)
unfolding start patch_ip set_ip has_real_info serial minimal lookup insert get as_str
start-minimal env = (_, refl, refl)

recv_bind_ip-unspecified :
    (bind_addr : Bytes) → is_unspecified bind_addr ≡ true → recv_bind_ip bind_addr ≡ bind_addr
unfolding recv_bind_ip
recv_bind_ip-unspecified bind_addr e = rw e (ground arith)

-- The replies leave from the address that the proxy is bound to, whichever socket sends them.
pub send_bind_ip_lem : (bind_addr : Bytes) → send_bind_ip bind_addr ≡ bind_addr
unfolding send_bind_ip
send_bind_ip_lem bind_addr =
    choose (is_unspecified bind_addr || text_eq bind_addr (recv_bind_ip bind_addr)) (λ h.
      elim (Bool-cases (is_unspecified bind_addr)) [
        | inl e ↦ sym (recv_bind_ip-unspecified bind_addr e)
        | inr e ↦ text_eq→≡ bind_addr (recv_bind_ip bind_addr) (second _ _ e h)
      ])
  where
    choose : {x y : Bytes} (t : Bool) → (t ≡ true → x ≡ y) → (if t then y else x) ≡ x
    choose true h = sym (h refl)
    choose false h = refl

    second : (a b : Bool) → a ≡ false → (a || b) ≡ true → b ≡ true
    second true b e h = absurd (ground arith)
    second false b e h = h
