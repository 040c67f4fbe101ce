-- ===== src/Wireguard/Checksum/Laws.antt =====
-- src/wireguard/tunnel_discovery.rs: the folding loop ends, and what it computes.
use seestar_proxy.Base.{ℕ, ◌+◌, ◌*◌, ◌%◌, ◌^◌, ◌≤◌, ◌<◌, ◌≡◌, ◌≢◌, [], ◌∷◌, arith, length, All}
use seestar_proxy.Base.Text.{Bytes}
use seestar_proxy.Wireguard.Checksum.{sum_words, fold_carries, fold_fuel, complement}

-- The fuel is enough for every `u32`: the loop ends by its own test, on a 16-bit value that is
-- congruent to the sum modulo 65535, and is 0 only for the sum 0.
fold_carries_lem :
    (s : ℕ)
    → s < 2 ^ 32
    → let r = fold_carries fold_fuel s in
      (r < 65536) × (r % 65535 ≡ s % 65535) × (r ≡ 0 → s ≡ 0) × (s ≡ 0 → r ≡ 0)
unfolding fold_carries
fold_carries_lem s h = ground arith

-- A sum with its complement added folds to all ones, so its own complement is 0: the receiver's
-- test.
pub complement-fold_carries :
    (s : ℕ)
    → s + 65536 < 2 ^ 32
    → complement (fold_carries fold_fuel (s + complement (fold_carries fold_fuel s))) ≡ 0
complement-fold_carries s h =
    let c = complement (fold_carries fold_fuel s) in
    let (below, same, zero_if, zero_of) = fold_carries_lem s (omega arith) in
    let (below', same', zero_if', zero_of') = fold_carries_lem (s + c) (omega arith) in
    let pos : fold_carries fold_fuel (s + c) ≢ 0 = λ e. omega (arith, zero_if' e, zero_of) in
    omega arith

pub sum_words-acc : (bs : Bytes) (acc : ℕ) → sum_words bs acc ≡ acc + sum_words bs 0
unfolding sum_words
sum_words-acc [] acc = omega arith
sum_words-acc (a ∷ []) acc = omega arith
sum_words-acc (a ∷ b ∷ bs) acc =
    omega (arith, sum_words-acc bs (acc + (a * 256 + b)), sum_words-acc bs (0 + (a * 256 + b)))

abbrev pub IsByte : ℕ → Type 0
IsByte b = b < 256

pub sum_words-le : (bs : Bytes) → All IsByte bs → sum_words bs 0 ≤ length bs * 65536
unfolding sum_words
sum_words-le [] h = omega arith
sum_words-le (a ∷ []) h = omega (arith, h.0)
sum_words-le (a ∷ b ∷ bs) h =
    omega (arith, sum_words-acc bs (0 + (a * 256 + b)), sum_words-le bs h.1.1, h.0, h.1.0)
