-- ===== src/Json/Laws.antt =====
-- How the entries of an object answer after an insertion or a removal.
use seestar_proxy.Base.{
  String, ◌≡◌, refl, some, arith, if◌then◌else◌, str_eq, str_eq_iff, str_eq_refl,
}
use seestar_proxy.Json.{Value, Fields, end, field, lookup, insert}

pub lookup-insert :
    (k j : String) (v : Value) (fs : Fields)
    → lookup j (insert k v fs) ≡ (if str_eq k j then some v else lookup j fs)
unfolding lookup insert
lookup-insert k j v end = refl
lookup-insert k j v (field i w fs) =
    ground (arith, str_eq_iff k j, str_eq_iff i k, str_eq_iff i j, lookup-insert k j v fs)

pub lookup-insert_self : (k : String) (v : Value) (fs : Fields) → lookup k (insert k v fs) ≡ some v
lookup-insert_self k v fs = simp (lookup-insert, str_eq_refl)

pub insert-insert :
    (k : String) (v w : Value) (fs : Fields) → insert k v (insert k w fs) ≡ insert k v fs
unfolding insert
insert-insert k v w end = ground (arith, str_eq_refl k)
insert-insert k v w (field i u fs) =
    ground (arith, str_eq_refl k, str_eq_iff i k, insert-insert k v w fs)
