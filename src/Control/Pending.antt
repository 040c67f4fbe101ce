-- ===== src/Control/Pending.antt =====
-- src/control.rs: the map of requests that wait for the telescope, from proxy id to owner.
use seestar_proxy.Base.{
  ℕ, ◌≤◌, ◌<◌, ◌≡◌, refl, false, Option, none, some, List, [], ◌∷◌, arith, ◌==◌, if◌then◌else◌,
  length, All,
}
use seestar_proxy.Json.{Value}

-- `client` names the channel `client_tx`.
pub record PendingRequest : Type 0 where
  pub client : ℕ
  pub original_id : Value

abbrev pub PendingMap : Type 0
PendingMap = List (ℕ × PendingRequest)

-- `HashMap::get`, `remove` and `insert`. The order of the entries stands for the map's own.
unfoldable pub lookup : ℕ → PendingMap → Option PendingRequest
lookup k [] = none
lookup k ((j, r) ∷ m) = if j == k then some r else lookup k m

unfoldable pub remove : ℕ → PendingMap → PendingMap
remove k [] = []
remove k ((j, r) ∷ m) = if j == k then m else (j, r) ∷ remove k m

unfoldable pub insert : ℕ → PendingRequest → PendingMap → PendingMap
unfolding remove
insert k r m = (k, r) ∷ remove k m

-- Keys differ, and lie below `n`.
abbrev pub Absent : ℕ → PendingMap → Type 0
Absent k = All (λ e. (e.0 == k) ≡ false)

abbrev pub Distinct : PendingMap → Type 0
Distinct [] = Unit {0}
Distinct ((k, r) ∷ m) = Absent k m × Distinct m

abbrev pub Below : ℕ → PendingMap → Type 0
Below n = All (λ e. e.0 < n)

pub lookup-remove_ne :
    (k j : ℕ) (m : PendingMap) → (j == k) ≡ false → lookup k (remove j m) ≡ lookup k m
unfolding lookup remove
lookup-remove_ne k j [] h = refl
lookup-remove_ne k j ((i, r) ∷ m) h = ground (arith, lookup-remove_ne k j m)

pub lookup-cons_ne :
    (k j : ℕ) (r : PendingRequest) (m : PendingMap)
    → (j == k) ≡ false
    → lookup k ((j, r) ∷ m) ≡ lookup k m
unfolding lookup
lookup-cons_ne k j r m h = rw h

pub lookup-remove-none :
    (k j : ℕ) (m : PendingMap) → lookup k m ≡ none → lookup k (remove j m) ≡ none
unfolding lookup remove
lookup-remove-none k j [] h = refl
lookup-remove-none k j ((i, r) ∷ m) h = ground (arith, lookup-remove-none k j m)

pub lookup-insert_self :
    (k : ℕ) (r : PendingRequest) (m : PendingMap) → lookup k (insert k r m) ≡ some r
unfolding lookup insert
lookup-insert_self k r m = ground arith

pub lookup-Absent : (k : ℕ) (m : PendingMap) → Absent k m → lookup k m ≡ none
unfolding lookup
lookup-Absent k [] h = refl
lookup-Absent k (e ∷ m) h = ground (arith, lookup-Absent k m h.1)

pub lookup-remove_self : (k : ℕ) (m : PendingMap) → Distinct m → lookup k (remove k m) ≡ none
unfolding lookup remove
lookup-remove_self k [] h = refl
lookup-remove_self k ((j, r) ∷ m) h =
    ground (arith, lookup-remove_self k m h.1, lookup-Absent j m h.0)

pub lookup_above : (k n : ℕ) (m : PendingMap) → Below n m → n ≤ k → lookup k m ≡ none
unfolding lookup
lookup_above k n [] b h = refl
lookup_above k n (e ∷ m) b h = ground (arith, lookup_above k n m b.1)

pub remove_above : (k n : ℕ) (m : PendingMap) → Below n m → n ≤ k → remove k m ≡ m
unfolding remove
remove_above k n [] b h = refl
remove_above k n (e ∷ m) b h = ground (arith, remove_above k n m b.1)

pub Below-Absent : (k n : ℕ) (m : PendingMap) → Below n m → n ≤ k → Absent k m
Below-Absent k n [] b h = tt
Below-Absent k n (e ∷ m) b h = (ground arith, Below-Absent k n m b.1 h)

pub Below-mono : (n k : ℕ) (m : PendingMap) → Below n m → n ≤ k → Below k m
Below-mono n k [] b h = tt
Below-mono n k (e ∷ m) b h = (omega arith, Below-mono n k m b.1 h)

pub remove-Below : (k n : ℕ) (m : PendingMap) → Below n m → Below n (remove k m)
unfolding remove
remove-Below k n [] b = tt
remove-Below k n (e ∷ m) b = ground (arith, remove-Below k n m b.1)

remove-Absent : (k j : ℕ) (m : PendingMap) → Absent j m → Absent j (remove k m)
unfolding remove
remove-Absent k j [] b = tt
remove-Absent k j (e ∷ m) b = ground (arith, remove-Absent k j m b.1)

pub remove-Distinct : (k : ℕ) (m : PendingMap) → Distinct m → Distinct (remove k m)
unfolding remove
remove-Distinct k [] d = tt
remove-Distinct k ((j, r) ∷ m) d = ground (arith, remove-Absent k j m d.0, remove-Distinct k m d.1)

pub length-remove-le : (k : ℕ) (m : PendingMap) → length (remove k m) ≤ length m
unfolding remove
length-remove-le k [] = omega arith
length-remove-le k (e ∷ m) = ground (arith, length-remove-le k m)
