-- ===== src/Discovery/Replies.antt =====
-- src/discovery.rs: what the bridge sends, and when the device information changes.
use seestar_proxy.Base.{
  ◌≡◌, refl, ap, ◌∙◌, ◌⊎◌, inl, inr, String, Bool, false, not, ◌&&◌, Bool-cases, some, Option-cases,
  List, [], ◌∷◌, ◌++◌, arith, All, unwrap_or, ◌>>=◌, str_eq, str_eq_refl, subst,
}
use seestar_proxy.Base.Text.{Bytes, from_utf8, text_eq, trim}
use seestar_proxy.Json.{Value, object, null, string, number, array, boolean, get, lookup, as_str}
use seestar_proxy.Json.Laws.{lookup-insert_self}
use seestar_proxy.Discovery.{
  set_ip, patch_ip, Address, Destination, telescope, Env, Bridge, next, error, panic, Outcome,
  probe, note_response, refresh, answer, is_answer, handle_request, handle_packet, start, turn, run,
}

-- A result, if there is one, has the proxy's address.
unfoldable pub IsPatched : String → Value → Type 0
unfolding get
IsPatched ip info = (r : Value) → get info "result" ≡ some r → get r "ip" ≡ some (string ip)

set_ip_lem : (ip : String) (v w : Value) → set_ip ip v ≡ some w → get w "ip" ≡ some (string ip)
unfolding set_ip get lookup
set_ip_lem ip (object fs) w e = ground (arith, lookup-insert_self "ip" (string ip) fs)
set_ip_lem ip null w e = ground (arith, str_eq_refl "ip")
set_ip_lem ip (boolean b) w e = absurd cc
set_ip_lem ip (number n) w e = absurd cc
set_ip_lem ip (string s) w e = absurd cc
set_ip_lem ip (array a) w e = absurd cc

patch_ip-IsPatched : (ip : String) (v w : Value) → patch_ip ip v ≡ some w → IsPatched ip w
unfolding patch_ip IsPatched get
patch_ip-IsPatched ip (object fs) w e r f = elim (Option-cases (lookup "result" fs)) [
  | inl none_found ↦ absurd (ground arith)
  | inr (result, found) ↦ elim (Option-cases (set_ip ip result)) [
    | inl failed ↦ absurd (ground arith)
    | inr (patched, g) ↦
        ground (arith, set_ip_lem ip result patched g, lookup-insert_self "result" patched fs)
  ]
]
patch_ip-IsPatched ip null w e r f = absurd (ground arith)
patch_ip-IsPatched ip (boolean b) w e r f = absurd (ground arith)
patch_ip-IsPatched ip (number n) w e r f = absurd (ground arith)
patch_ip-IsPatched ip (string s) w e r f = absurd (ground arith)
patch_ip-IsPatched ip (array a) w e r f = absurd (ground arith)

-- What may be sent: information about the device under the proxy's address, or a probe.
unfoldable pub MaySend : Env → Destination × Bytes → Type 0
unfolding IsPatched
MaySend env (to, bytes) =
    (v : Value) × (env.to_vec v ≡ some bytes)
    × (IsPatched env.proxy_ip v ⊎ ((v ≡ probe env) × (to ≡ telescope)))

abbrev Keeps : Env → Outcome → Type 0
Keeps env (b, sends, flow) = IsPatched env.proxy_ip b.device_info × All (MaySend env) sends

note_response-Keeps :
    (env : Env) (src : Address) (request : Value) (b : Bridge)
    → IsPatched env.proxy_ip b.device_info
    → Keeps env (note_response env src request b)
unfolding note_response
note_response-Keeps env src request b v =
    elim (Bool-cases (text_eq src.ip env.upstream_ip && not b.have_real_info)) [
      | inr e ↦ rw e (v, tt)
      | inl e ↦ elim (Option-cases (patch_ip env.proxy_ip request)) [
        | inl f ↦ rw e (rw f (v, tt))
        | inr (w, f) ↦ rw e (rw f (patch_ip-IsPatched env.proxy_ip request w f, tt))
      ]
    ]

refresh-MaySend : (env : Env) (b : Bridge) → All (MaySend env) (refresh env b)
unfolding refresh MaySend
refresh-MaySend env b = elim (Bool-cases b.have_real_info) [
  | inl e ↦ rw e tt
  | inr e ↦ elim (Option-cases (env.to_vec (probe env))) [
    | inl f ↦ rw e (rw f tt)
    | inr (bytes, f) ↦ rw e (rw f ((probe env, f, inr (refl, refl)), tt))
  ]
]

answer-Keeps :
    (env : Env) (src : Address) (b : Bridge)
    → IsPatched env.proxy_ip b.device_info
    → Keeps env (answer env src b)
unfolding answer MaySend
answer-Keeps env src b v = elim (Option-cases (env.to_vec b.device_info)) [
  | inl e ↦ rw (e, answer) (v, tt)
  | inr (bytes, e) ↦
      rw (e, answer)
        (v, ((b.device_info, e, inl v), ((b.device_info, e, inl v), refresh-MaySend env b)))
]

handle_request-Keeps :
    (env : Env) (src : Address) (request : Value) (b : Bridge)
    → IsPatched env.proxy_ip b.device_info
    → Keeps env (handle_request env src request b)
unfolding handle_request
handle_request-Keeps env src request b v =
    elim (Bool-cases
      (not (str_eq (unwrap_or (do v ← get request "method"; as_str v) "") "scan_iscope"))) [
        | inl e ↦ rw e (v, tt)
        | inr e ↦ elim (Bool-cases (is_answer request)) [
          | inl f ↦ rw e (rw f (note_response-Keeps env src request b v))
          | inr f ↦ rw e (rw f (answer-Keeps env src b v))
        ]
      ]

handle_packet-Keeps :
    (env : Env) (src : Address) (buf : Bytes) (b : Bridge)
    → IsPatched env.proxy_ip b.device_info
    → Keeps env (handle_packet env src buf b)
unfolding handle_packet
handle_packet-Keeps env src buf b v =
    elim (Option-cases (do msg ← from_utf8 buf; env.from_str (trim msg))) [
      | inl e ↦ rw (e, handle_packet) (v, tt)
      | inr (request, e) ↦ rw (e, handle_packet) (handle_request-Keeps env src request b v)
    ]

module _ {ℓ κ} {A : Type ℓ} (P : A → Type κ) where
  All-append : (xs ys : List A) → All P xs → All P ys → All P (xs ++ ys)
  All-append [] ys p q = q
  All-append (x ∷ xs) ys p q = (p.0, All-append xs ys p.1 q)

turn-Keeps :
    (env : Env) (later : Bridge → Outcome) (o : Outcome)
    → ((b : Bridge) → IsPatched env.proxy_ip b.device_info → Keeps env (later b))
    → Keeps env o
    → Keeps env (turn later o)
turn-Keeps env later (b, sends, next) all (v, may) =
    let (v', more) = all b v in (v', All-append (MaySend env) sends (later b).1 may more)
turn-Keeps env later (b, sends, error) all k = k
turn-Keeps env later (b, sends, panic) all k = k

run-Keeps :
    (env : Env) (packets : List (Address × Bytes)) (b : Bridge)
    → IsPatched env.proxy_ip b.device_info
    → Keeps env (run env packets b)
unfolding run
run-Keeps env [] b v = (v, tt)
run-Keeps env ((src, buf) ∷ packets) b v =
    turn-Keeps env (run env packets) (handle_packet env src buf b)
      (λ b' v'. run-Keeps env packets b' v') (handle_packet-Keeps env src buf b v)

-- Whatever packets arrive, everything that the bridge sends is either the device information with
-- the proxy's own address in its result, if it has a result, or a probe to the telescope: no answer
-- leads a client past the proxy.
pub run-MaySend :
    (env : Env) (info : Value) (b : Bridge) (packets : List (Address × Bytes))
    → start env info ≡ some b
    → All (MaySend env) (run env packets b).1
unfolding start
run-MaySend env info b packets e = elim (Option-cases (patch_ip env.proxy_ip info)) [
  | inl failed ↦ absurd (ground arith)
  | inr (w, f) ↦
      let same : w ≡ b.device_info = ground arith in
      (run-Keeps env packets b
        (subst (IsPatched env.proxy_ip) same (patch_ip-IsPatched env.proxy_ip info w f))).1
]

-- A packet that may bring the telescope's information.
abbrev pub is_news : Env → Bridge → Address → Bool
is_news env b src = text_eq src.ip env.upstream_ip && not b.have_real_info

handle_request-old :
    (env : Env) (src : Address) (request : Value) (b : Bridge)
    → is_news env b src ≡ false
    → (handle_request env src request b).0 ≡ b
unfolding handle_request note_response answer
handle_request-old env src request b old =
    elim (Bool-cases
      (not (str_eq (unwrap_or (do v ← get request "method"; as_str v) "") "scan_iscope"))) [
        | inl e ↦ rw e refl
        | inr e ↦ elim (Bool-cases (is_answer request)) [
          | inl f ↦ rw e (rw f (rw old refl))
          | inr f ↦ elim (Option-cases (env.to_vec b.device_info)) [
            | inl g ↦ rw e (rw f (rw (g, answer) refl))
            | inr (bytes, g) ↦ rw e (rw f (rw (g, answer) refl))
          ]
        ]
      ]

handle_packet-old :
    (env : Env) (src : Address) (buf : Bytes) (b : Bridge)
    → is_news env b src ≡ false
    → (handle_packet env src buf b).0 ≡ b
unfolding handle_packet
handle_packet-old env src buf b old =
    elim (Option-cases (do msg ← from_utf8 buf; env.from_str (trim msg))) [
      | inl e ↦ rw (e, handle_packet) refl
      | inr (request, e) ↦ rw (e, handle_packet) (handle_request-old env src request b old)
    ]

turn-old :
    (later : Bridge → Outcome) (b : Bridge) (o : Outcome)
    → o.0 ≡ b
    → (later b).0 ≡ b
    → (turn later o).0 ≡ b
turn-old later b (b', sends, next) e h = ap (λ c. (later c).0) e ∙ h
turn-old later b (b', sends, error) e h = e
turn-old later b (b', sends, panic) e h = e

-- The device information changes only by the telescope's own packets, and only until one of them has
-- brought it: packets from others, and all packets after that, leave the bridge as it is.
pub run_old :
    (env : Env) (packets : List (Address × Bytes)) (b : Bridge)
    → All (λ p. is_news env b p.0 ≡ false) packets
    → (run env packets b).0 ≡ b
unfolding run
run_old env [] b old = refl
run_old env ((src, buf) ∷ packets) b old =
    turn-old (run env packets) b (handle_packet env src buf b)
      (handle_packet-old env src buf b old.0) (run_old env packets b old.1)
