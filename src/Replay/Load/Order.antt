-- ===== src/Replay/Load/Order.antt =====
-- src/replay.rs: the frame files of a session that is loaded.
use seestar_proxy.Base.{
  ℕ, arith, ◌+◌, ◌≡◌, refl, sym, ap, ap₂, ◌∙◌, ◌⊎◌, inl, inr, Bool, Bool-cases, true, false, ◌&&◌,
  none, some, List, [], ◌∷◌, ◌++◌, if◌then◌else◌, if_lem, ◌==◌, ==_iff, All,
}
use mathlib.Core.List.{reverse, reverse-append, reverse-reverse}
use seestar_proxy.Base.Text.{Text, codes, text_eq}
use seestar_proxy.Base.Text.Equal.{text_eq→≡}
use seestar_proxy.Replay.{load_control}
use seestar_proxy.Replay.Load.{
  RecordedManifest, Env, Session, ReplaySession, starts_with, is_frame, precedes, frame_names,
  insert_name, sort, frame_interval, frame_paths, loaded, load,
}

-- A list in the order of names, and how often a name stands in one.
abbrev pub Ascending : List Text → Type 0
Ascending [] = Unit {0}
Ascending (n ∷ ns) = All (λ m. precedes n m ≡ true) ns × Ascending ns

abbrev pub occurs : Text → List Text → ℕ
occurs n [] = 0
occurs n (m ∷ ms) = (if text_eq n m then 1 else 0) + occurs n ms

precedes_total : (n m : Text) → precedes n m ≡ false → precedes m n ≡ true
unfolding precedes
precedes_total [] m h = absurd cc
precedes_total (c ∷ cs) [] h = refl
precedes_total (c ∷ cs) (d ∷ ds) h = ground (arith, precedes_total cs ds)

precedes_trans : (n m k : Text) → precedes n m ≡ true → precedes m k ≡ true → precedes n k ≡ true
unfolding precedes
precedes_trans [] m k h i = refl
precedes_trans (c ∷ cs) [] k h i = absurd (ground arith)
precedes_trans (c ∷ cs) (d ∷ ds) [] h i = absurd (ground arith)
precedes_trans (c ∷ cs) (d ∷ ds) (e ∷ es) h i = ground (arith, precedes_trans cs ds es)

later_names :
    (n m : Text) (ms : List Text)
    → precedes n m ≡ true
    → All (λ k. precedes m k ≡ true) ms
    → All (λ k. precedes n k ≡ true) ms
later_names n m [] h i = tt
later_names n m (k ∷ ks) h (i, is) = (precedes_trans n m k h i, later_names n m ks h is)

insert_name-All :
    (k n : Text) (ms : List Text)
    → precedes k n ≡ true
    → All (λ m. precedes k m ≡ true) ms
    → All (λ m. precedes k m ≡ true) (insert_name n ms)
unfolding insert_name
insert_name-All k n [] h i = (h, tt)
insert_name-All k n (m ∷ ms) h (i, is) =
    if_lem (All (λ j. precedes k j ≡ true)) (precedes n m) (λ _. (h, (i, is)))
      (λ _. (i, insert_name-All k n ms h is))

insert_name-Ascending : (n : Text) (ms : List Text) → Ascending ms → Ascending (insert_name n ms)
unfolding insert_name
insert_name-Ascending n [] h = (tt, tt)
insert_name-Ascending n (m ∷ ms) (h, hs) =
    if_lem Ascending (precedes n m) (λ e. ((e, later_names n m ms e h), (h, hs)))
      (λ e. (insert_name-All m n ms (precedes_total n m e) h, insert_name-Ascending n ms hs))

sort-Ascending : (ns : List Text) → Ascending (sort ns)
unfolding sort
sort-Ascending [] = tt
sort-Ascending (n ∷ ns) = insert_name-Ascending n (sort ns) (sort-Ascending ns)

occurs-insert_name :
    (k n : Text) (ms : List Text)
    → occurs k (insert_name n ms) ≡ (if text_eq k n then 1 else 0) + occurs k ms
unfolding insert_name
occurs-insert_name k n [] = refl
occurs-insert_name k n (m ∷ ms) =
    if_lem (λ js. occurs k js ≡ (if text_eq k n then 1 else 0) + occurs k (m ∷ ms)) (precedes n m)
      (λ _. refl) (λ _. omega (arith, occurs-insert_name k n ms))

occurs-sort : (k : Text) (ns : List Text) → occurs k (sort ns) ≡ occurs k ns
unfolding sort
occurs-sort k [] = refl
occurs-sort k (n ∷ ns) = omega (arith, occurs-insert_name k n (sort ns), occurs-sort k ns)

text_eq→same : (n m : Text) → text_eq n m ≡ true → is_frame n ≡ is_frame m
text_eq→same n m h = ap is_frame (text_eq→≡ n m h)

-- One more name that is of a frame, and one that is not.
count_on :
    (e f : Bool) (x y : ℕ)
    → (e ≡ true → f ≡ true)
    → x ≡ (if f then y else 0)
    → (if e then 1 else 0) + x ≡ (if f then (if e then 1 else 0) + y else 0)
count_on true true x y g h = ap (λ r. 1 + r) h
count_on true false x y g h = absurd (ground (arith, g refl))
count_on false true x y g h = ap (λ r. 0 + r) h
count_on false false x y g h = omega (arith, h)

count_off :
    (e f : Bool) (x y : ℕ)
    → (e ≡ true → f ≡ false)
    → x ≡ (if f then y else 0)
    → x ≡ (if f then (if e then 1 else 0) + y else 0)
count_off true true x y g h = absurd (ground (arith, g refl))
count_off true false x y g h = h
count_off false true x y g h = omega (arith, h)
count_off false false x y g h = h

occurs-frame_names :
    (k : Text) (ns : List Text)
    → occurs k (frame_names ns) ≡ (if is_frame k then occurs k ns else 0)
unfolding frame_names
occurs-frame_names k [] = if_lem (λ n. 0 ≡ n) (is_frame k) (λ _. refl) (λ _. refl)
occurs-frame_names k (n ∷ ns) =
    if_lem (λ js. occurs k js ≡ (if is_frame k then occurs k (n ∷ ns) else 0)) (is_frame n)
      (λ f.
        count_on (text_eq k n) (is_frame k) (occurs k (frame_names ns)) (occurs k ns)
          (λ e. text_eq→same k n e ∙ f) (occurs-frame_names k ns))
      (λ f.
        count_off (text_eq k n) (is_frame k) (occurs k (frame_names ns)) (occurs k ns)
          (λ e. text_eq→same k n e ∙ f) (occurs-frame_names k ns))

-- `frame_`, then anything, that ends in `.bin`.
abbrev pub IsFrameName : Text → Type 0
IsFrameName k =
    ((rest : Text) × (k ≡ codes "frame_" ++ rest)) × ((front : Text) × (k ≡ front ++ codes ".bin"))

starts_with_inv : (p k : Text) → starts_with p k ≡ true → (rest : Text) × (k ≡ p ++ rest)
starts_with_inv [] k h = (k, refl)
starts_with_inv (c ∷ cs) [] h = absurd (ground arith)
starts_with_inv (c ∷ cs) (d ∷ ds) h = elim (Bool-cases (c == d)) [
  | inr e ↦ absurd (ground arith)
  | inl e ↦ elim (Bool-cases (starts_with cs ds)) [
    | inr f ↦ absurd (ground arith)
    | inl f ↦
        let (rest, same) = starts_with_inv cs ds f in (rest, ap₂ ◌∷◌ (sym ((==_iff c d).0 e)) same)
  ]
]

starts_with-append : (p rest : Text) → starts_with p (p ++ rest) ≡ true
starts_with-append [] rest = refl
starts_with-append (c ∷ cs) rest = ground (arith, starts_with-append cs rest)

is_frame_inv : (k : Text) → is_frame k ≡ true → IsFrameName k
unfolding is_frame
is_frame_inv k h = elim (Bool-cases (starts_with (codes "frame_") k)) [
  | inr e ↦ absurd (ground arith)
  | inl e ↦ elim (Bool-cases (starts_with (reverse (codes ".bin")) (reverse k))) [
    | inr f ↦ absurd (ground arith)
    | inl f ↦
        let (back, same) = starts_with_inv (reverse (codes ".bin")) (reverse k) f in
        (
          starts_with_inv (codes "frame_") k e,
          (
            reverse back,
            sym (reverse-reverse k)
                ∙ ap reverse same
                ∙ reverse-append (reverse (codes ".bin")) back,
          ),
        )
  ]
]

is_frame-IsFrameName : (k : Text) → IsFrameName k → is_frame k ≡ true
unfolding is_frame
is_frame-IsFrameName k ((rest, e), (front, f)) =
    let starts : starts_with (codes "frame_") k ≡ true =
      ap (starts_with (codes "frame_")) e ∙ starts_with-append (codes "frame_") rest in
    let ends : starts_with (reverse (codes ".bin")) (reverse k) ≡ true =
      ap (λ t. starts_with (reverse (codes ".bin")) (reverse t)) f
      ∙ ap (starts_with (reverse (codes ".bin"))) (reverse-append front (codes ".bin"))
      ∙ starts_with-append (reverse (codes ".bin")) (reverse front) in
    ap₂ ◌&&◌ starts ends

-- A name of a frame stands among the paths as often as in the directory, any other name does not.
abbrev pub Chosen : List Text → List Text → Text → Type 0
Chosen names paths k =
    (IsFrameName k × (occurs k paths ≡ occurs k names))
    ⊎ ((¬ (IsFrameName k)) × (occurs k paths ≡ 0))

occurs-Chosen : (k : Text) (names : List Text) → Chosen names (sort (frame_names names)) k
occurs-Chosen k names =
    let count = occurs-sort k (frame_names names) ∙ occurs-frame_names k names in
    elim (Bool-cases (is_frame k)) [
      | inl e ↦ inl (is_frame_inv k e, count ∙ rw e refl)
      | inr e ↦ inr (λ v. absurd (ground (arith, is_frame-IsFrameName k v)), count ∙ rw e refl)
    ]

-- A session whose manifest parses, whose frames can be listed, and whose interval between frames does
-- not make `Duration::from_secs_f64` panic, is loaded with that interval. Its frames are the files of the directory whose
-- names start with `frame_` and end with `.bin`, each as often as it is listed, in the order of their
-- names.
pub load-Ascending :
    (env : Env) (s : Session) (text : Text) (manifest : RecordedManifest) (names : List Text)
    (interval : ℕ)
    → s.manifest ≡ some text
    → env.parse_manifest text ≡ some manifest
    → s.frames_is_dir ≡ true
    → s.frames ≡ some names
    → frame_interval env manifest ≡ some interval
    → (r : ReplaySession) × (load env s ≡ loaded r)
      × (r.frame_interval ≡ interval)
      × Ascending r.frame_paths
      × ((k : Text) → Chosen names r.frame_paths k)
unfolding load frame_paths
load-Ascending env s text manifest names interval e f d l i = (
  record {
    control_messages = elim s.control [ none ↦ [] | some t ↦ load_control env.from_str t ];
    frame_paths = sort (frame_names names);
    frame_interval = interval;
  },
  rw (load, e, f, listed, i) refl,
  refl,
  sort-Ascending (frame_names names),
  λ k. occurs-Chosen k names,
)
  where
    listed : frame_paths s ≡ some (sort (frame_names names))
    listed = rw (frame_paths, d, l) refl
