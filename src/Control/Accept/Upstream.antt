-- ===== src/Control/Accept/Upstream.antt =====
-- src/control.rs: which address the upstream task takes, and how often it is started.
use seestar_proxy.Base.{
  ℕ, ◌+◌, ◌||◌, ◌≡◌, refl, sym, ap, ap₂, ◌∙◌, Bool, true, false, Bool-cases, Option, none, some,
  List, [], ◌∷◌, ◌++◌, arith, if◌then◌else◌, unwrap_or, All, inl, inr,
}
use seestar_proxy.Metrics.{Metrics}
use seestar_proxy.Control.Accept.{
  SocketAddr, localhost, Listener, start, Event, accepted, ended, woken, Effect, notify_upstream,
  client_connect, client_disconnect, resolve, step, run,
}

-- The destination of the first client that has one.
abbrev pub first_dst : List Event → Option SocketAddr
first_dst [] = none
first_dst (accepted a none ∷ es) = first_dst es
first_dst (accepted a (some dst) ∷ es) = some dst
first_dst (_ ∷ es) = first_dst es

-- The telescope's address, from the configuration and the clients so far.
abbrev pub known : Bool → Option SocketAddr → List Event → Option SocketAddr
known transparent (some a) es = some a
known transparent none es = if transparent then first_dst es else none

abbrev pub Asleep : Event → Type 0
Asleep (accepted a dst) = Unit
Asleep (ended a) = Unit
Asleep woken = true ≡ false

pub known-nil : (t : Bool) (r : Option SocketAddr) → r ≡ known t r []
known-nil true none = refl
known-nil false none = refl
known-nil t (some a) = refl

resolve-some :
    (t : Bool) (dst : Option SocketAddr) (a : SocketAddr) → resolve t dst (some a) ≡ some a
unfolding resolve
resolve-some true dst a = refl
resolve-some false dst a = refl

pub known-resolve :
    (t : Bool) (dst r : Option SocketAddr) (a : SocketAddr) (es : List Event)
    → known t (resolve t dst r) es ≡ known t r (accepted a dst ∷ es)
unfolding resolve
known-resolve t dst (some x) a es = ap (λ r. known t r es) (resolve-some t dst x)
known-resolve true none none a es = refl
known-resolve true (some dst) none a es = refl
known-resolve false dst none a es = refl

pub known-ended :
    (t : Bool) (r : Option SocketAddr) (a : SocketAddr) (es : List Event)
    → known t r es ≡ known t r (ended a ∷ es)
known-ended t none a es = refl
known-ended t (some x) a es = refl

-- How often the upstream task is notified.
abbrev pub notified : List Effect → ℕ
notified [] = 0
notified (notify_upstream ∷ es) = 1 + notified es
notified (_ ∷ es) = notified es

notified-append : (es fs : List Effect) → notified (es ++ fs) ≡ notified es + notified fs
notified-append [] fs = omega arith
notified-append (notify_upstream ∷ es) fs = omega (arith, notified-append es fs)
notified-append (client_connect a ∷ es) fs = notified-append es fs
notified-append (client_disconnect a ∷ es) fs = notified-append es fs

abbrev pub has_client : List Event → Bool
has_client [] = false
has_client (accepted a dst ∷ es) = true
has_client (_ ∷ es) = has_client es

has_client-cons :
    (e : Event) (es : List Event) → has_client (e ∷ es) ≡ (has_client (e ∷ []) || has_client es)
has_client-cons (accepted a dst) es = refl
has_client-cons (ended a) es = refl
has_client-cons woken es = refl

-- The first of two parts that starts, starts.
once :
    (s x y : Bool)
    → (if s then 0 else if x then 1 else 0) + (if s || x then 0 else if y then 1 else 0)
      ≡ (if s then 0 else if x || y then 1 else 0)
once true x y = refl
once false true y = refl
once false false true = refl
once false false false = refl

module _ (transparent hooks : Bool) where
  run-known :
      (es : List Event) (l : Listener)
      → All Asleep es
      → (run transparent hooks es l).0.resolved_upstream ≡ known transparent l.resolved_upstream es
  unfolding run step
  run-known [] l h = known-nil transparent l.resolved_upstream
  run-known (accepted a dst ∷ es) l h =
      run-known es (step transparent hooks (accepted a dst) l).0 h.1
      ∙ known-resolve transparent dst l.resolved_upstream a es
  run-known (ended a ∷ es) l h =
      run-known es (step transparent hooks (ended a) l).0 h.1
      ∙ known-ended transparent l.resolved_upstream a es
  run-known (woken ∷ es) l h = absurd (ground arith)

  run-append :
      (es fs : List Event) (l : Listener)
      → (run transparent hooks (es ++ fs) l).0
        ≡ (run transparent hooks fs (run transparent hooks es l).0).0
  unfolding run
  run-append [] fs l = refl
  run-append (e ∷ es) fs l = run-append es fs (step transparent hooks e l).0

  -- Once the address is there it stays.
  run-fixed :
      (fs : List Event) (a : SocketAddr) (l : Listener)
      → l.resolved_upstream ≡ some a
      → l.upstream_addr ≡ some a
      → ((run transparent hooks fs l).0.resolved_upstream ≡ some a)
        × ((run transparent hooks fs l).0.upstream_addr ≡ some a)
  unfolding run step
  run-fixed [] a l h k = (h, k)
  run-fixed (accepted c dst ∷ fs) a l h k =
      run-fixed fs a (step transparent hooks (accepted c dst) l).0
        (ap (resolve transparent dst) h ∙ resolve-some transparent dst a) k
  run-fixed (ended c ∷ fs) a l h k = run-fixed fs a (step transparent hooks (ended c) l).0 h k
  run-fixed (woken ∷ fs) a l h k =
      let same : some (unwrap_or l.resolved_upstream localhost) ≡ some a =
        ap (λ r. some (unwrap_or r localhost)) h in
      run-fixed fs a (step transparent hooks woken l).0 same same

  step-notified :
      (e : Event) (l : Listener)
      → (notified (step transparent hooks e l).1
          ≡ (if l.upstream_started_once then 0 else if has_client (e ∷ []) then 1 else 0))
        × ((step transparent hooks e l).0.upstream_started_once
            ≡ (l.upstream_started_once || has_client (e ∷ [])))
  unfolding step
  step-notified (accepted a dst) l = elim (Bool-cases l.upstream_started_once) [
    | inl e ↦ elim (Bool-cases hooks) [
      | inl f ↦ rw (e, f) (refl, refl)
      | inr f ↦ rw (e, f) (refl, refl)
    ]
    | inr e ↦ elim (Bool-cases hooks) [
      | inl f ↦ rw (e, f) (refl, refl)
      | inr f ↦ rw (e, f) (refl, refl)
    ]
  ]
  step-notified (ended a) l = elim (Bool-cases l.upstream_started_once) [
    | inl e ↦ elim (Bool-cases hooks) [
      | inl f ↦ rw (e, f) (refl, refl)
      | inr f ↦ rw (e, f) (refl, refl)
    ]
    | inr e ↦ elim (Bool-cases hooks) [
      | inl f ↦ rw (e, f) (refl, refl)
      | inr f ↦ rw (e, f) (refl, refl)
    ]
  ]
  step-notified woken l = elim (Bool-cases l.upstream_started_once) [
    | inl e ↦ rw e (refl, refl)
    | inr e ↦ rw e (refl, refl)
  ]

  run-notified :
      (es : List Event) (l : Listener)
      → notified (run transparent hooks es l).1
        ≡ (if l.upstream_started_once then 0 else if has_client es then 1 else 0)
  unfolding run
  run-notified [] l = elim (Bool-cases l.upstream_started_once) [
    | inl e ↦ rw e refl
    | inr e ↦ rw e refl
  ]
  run-notified (e ∷ es) l =
      let a = step transparent hooks e l in
      let (x, y) = step-notified e l in
      notified-append a.1 (run transparent hooks es a.0).1
      ∙ ap₂ ◌+◌ x (
          run-notified es a.0
          ∙ ap (λ (b : Bool). if b then 0 else if has_client es then 1 else 0) y)
      ∙ once l.upstream_started_once (has_client (e ∷ [])) (has_client es)
      ∙ ap (λ (b : Bool). if l.upstream_started_once then 0 else if b then 1 else 0)
          (sym (has_client-cons e es))

  -- The telescope's address is chosen once: when the upstream task wakes it takes the configured
  -- address, or in transparent mode the destination of the first client so far that has one, or the
  -- local port 4700 if none has; and whatever clients come later, that address stays the one that
  -- both the task and the listener hold. The task is notified once, by the first client.
  pub run-upstream :
      (m : Option Metrics) (upstream : Option SocketAddr) (es fs : List Event)
      → All Asleep es
      → let (l, out) = run transparent hooks (es ++ woken ∷ fs) (start m upstream) in
        let chosen = some (unwrap_or (known transparent upstream es) localhost) in
        (l.upstream_addr ≡ chosen)
        × (l.resolved_upstream ≡ chosen)
        × (notified out ≡ (if has_client (es ++ woken ∷ fs) then 1 else 0))
  unfolding start run step
  run-upstream m upstream es fs asleep =
      let l = (run transparent hooks es (start m upstream)).0 in
      let chosen : some (unwrap_or l.resolved_upstream localhost)
          ≡ some (unwrap_or (known transparent upstream es) localhost) =
        ap (λ r. some (unwrap_or r localhost)) (run-known es (start m upstream) asleep) in
      let (a, b) = run-fixed fs _ (step transparent hooks woken l).0 chosen chosen in
      let same = run-append es (woken ∷ fs) (start m upstream) in
      (
        ap (λ x. x.upstream_addr) same ∙ b,
        ap (λ x. x.resolved_upstream) same ∙ a,
        run-notified (es ++ woken ∷ fs) (start m upstream),
      )
