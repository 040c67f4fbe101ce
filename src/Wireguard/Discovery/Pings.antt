-- ===== src/Wireguard/Discovery/Pings.antt =====
-- src/wireguard/tunnel_discovery.rs: the ICMP checksum of an echo reply.
use seestar_proxy.Base.{
  ℕ, zero, suc, ◌+◌, ◌-◌, ◌*◌, ◌/◌, ◌%◌, ◌≤◌, ◌<◌, ◌≡◌, refl, sym, ap, ap₂, ◌∙◌, [], ◌∷◌, ◌++◌,
  arith, length, take, drop, All, length-append, length-take, length-drop, drop-drop, subst,
  drop-append_length, append_assoc,
}
use seestar_proxy.Base.Text.{Bytes}
use seestar_proxy.Wireguard.Checksum.{
  sum_words, fold_carries, fold_fuel, complement, ip_checksum, internet_checksum,
}
use seestar_proxy.Wireguard.Checksum.Laws.{
  IsByte, complement-fold_carries, sum_words-acc, sum_words-le,
}
use seestar_proxy.Wireguard.Packets.{found, write, be_bytes, header_length, address}
use seestar_proxy.Wireguard.Discovery.{echo_reply, handle_icmp_echo}

drop-append_past :
    (n : ℕ) (xs ys : Bytes) → length xs ≤ n → drop n (xs ++ ys) ≡ drop (n - length xs) ys
drop-append_past n [] ys h = ap (λ k. drop k ys) (omega arith)
drop-append_past zero (x ∷ xs) ys h = absurd (omega arith)
drop-append_past (suc n) (x ∷ xs) ys h =
    drop-append_past n xs ys (omega arith) ∙ ap (λ k. drop k ys) (omega arith)

length-write : (n : ℕ) (w xs : Bytes) → n + length w ≤ length xs → length (write n w xs) ≡ length xs
length-write n w xs h = omega (
  arith,
  length-append (take n xs) (w ++ drop (n + length w) xs),
  length-append w (drop (n + length w) xs),
  length-take n xs,
  length-drop (n + length w) xs,
)

-- A write below a position does not show behind it.
drop-write_below :
    (n m : ℕ) (w xs : Bytes) → m + length w ≤ n → n ≤ length xs → drop n (write m w xs) ≡ drop n xs
drop-write_below n m w xs h k =
    let tail = drop (m + length w) xs in
    drop-append_past n (take m xs) (w ++ tail) (omega (arith, length-take m xs))
    ∙ drop-append_past (n - length (take m xs)) w tail (omega (arith, length-take m xs))
    ∙ drop-drop (n - length (take m xs) - length w) (m + length w) xs
    ∙ ap (λ i. drop i xs) (omega (arith, length-take m xs))

drop-take :
    (n k : ℕ) (xs : Bytes) → n ≤ length xs → take (n + k) xs ≡ take n xs ++ take k (drop n xs)
drop-take zero k xs h = ap (λ i. take i xs) (omega arith)
drop-take (suc n) k [] h = absurd (omega arith)
drop-take (suc n) k (x ∷ xs) h =
    ap (λ i. take i (x ∷ xs)) {x = suc n + k} {y = suc (n + k)} (omega arith)
    ∙ ap (◌∷◌ x) (drop-take n k xs (omega arith))

-- A write behind a position is a write into the rest.
drop-write :
    (n k : ℕ) (w xs : Bytes) → n ≤ length xs → drop n (write (n + k) w xs) ≡ write k w (drop n xs)
drop-write n k w xs h =
    let back = w ++ drop (k + length w) (drop n xs) in
    ap₂ (λ a b. drop n (a ++ (w ++ b))) (drop-take n k xs h)
      (ap (λ i. drop i xs) {x = n + k + length w} {y = n + (k + length w)} (omega arith)
        ∙ sym (drop-drop (k + length w) n xs))
    ∙ ap (drop n) (append_assoc (take n xs) (take k (drop n xs)) back)
    ∙ drop-append_length n (take n xs) (take k (drop n xs) ++ back)
        (omega (arith, length-take n xs))

sum_words_four :
    (a b c d : ℕ) (rest : Bytes)
    → sum_words (a ∷ b ∷ c ∷ d ∷ rest) 0 ≡ 0 + (a * 256 + b) + (c * 256 + d) + sum_words rest 0
unfolding sum_words
sum_words_four a b c d rest = sum_words-acc rest (0 + (a * 256 + b) + (c * 256 + d))

-- A message that carries the checksum of itself with the field cleared passes the receiver's test.
internet_checksum-filled :
    (code : ℕ) (rest : Bytes)
    → code < 256
    → All IsByte rest
    → length rest < 65530
    → let check = internet_checksum (0 ∷ code ∷ 0 ∷ 0 ∷ rest) in
      internet_checksum (0 ∷ code ∷ (check / 256 % 256) ∷ check % 256 ∷ rest) ≡ 0
unfolding internet_checksum
internet_checksum-filled code rest small bytes short =
    let sum = sum_words (0 ∷ code ∷ 0 ∷ 0 ∷ rest) 0 in
    let check = complement (fold_carries fold_fuel sum) in
    let filled = 0 ∷ code ∷ (check / 256 % 256) ∷ check % 256 ∷ rest in
    let total : sum_words filled 0 ≡ sum + check = omega (
      arith,
      sum_words_four 0 code 0 0 rest,
      sum_words_four 0 code (check / 256 % 256) (check % 256) rest,
    ) in
    ap (λ n. complement (fold_carries fold_fuel n)) total
    ∙ complement-fold_carries sum
        (omega (arith, sum_words_four 0 code 0 0 rest, sum_words-le rest bytes))

-- The message of a reply: what `echo_reply` writes behind the header.
echo_reply-message :
    (packet src dst : Bytes) (ihl kind code k1 k2 : ℕ) (rest : Bytes)
    → length src ≡ 4
    → length dst ≡ 4
    → 20 ≤ ihl
    → ihl + 4 ≤ length packet
    → drop ihl packet ≡ kind ∷ code ∷ k1 ∷ k2 ∷ rest
    → let check = internet_checksum (0 ∷ code ∷ 0 ∷ 0 ∷ rest) in
      drop ihl (echo_reply packet ihl src dst) ≡ 0 ∷ code ∷ (check / 256 % 256) ∷ check % 256 ∷ rest
unfolding echo_reply
echo_reply-message packet src dst ihl kind code k1 k2 rest s d long fits e =
    let one = write 12 dst packet in
    let two = write 16 src one in
    let swapped = write 10 (0 ∷ 0 ∷ []) two in
    let summed = write 10 (be_bytes (ip_checksum (take ihl swapped))) swapped in
    let l1 : length one ≡ length packet = length-write 12 dst packet (omega arith) in
    let l2 : length two ≡ length packet = length-write 16 src one (omega arith) ∙ l1 in
    let l3 : length swapped ≡ length packet = length-write 10 (0 ∷ 0 ∷ []) two (omega arith) ∙ l2 in
    let l4 : length summed ≡ length packet =
      length-write 10 (be_bytes (ip_checksum (take ihl swapped))) swapped (omega arith) ∙ l3 in
    let kept : drop ihl summed ≡ kind ∷ code ∷ k1 ∷ k2 ∷ rest =
      drop-write_below ihl 10 (be_bytes (ip_checksum (take ihl swapped))) swapped (omega arith)
        (omega arith)
      ∙ drop-write_below ihl 10 (0 ∷ 0 ∷ []) two (omega arith) (omega arith)
      ∙ drop-write_below ihl 16 src one (omega arith) (omega arith)
      ∙ drop-write_below ihl 12 dst packet (omega arith) (omega arith)
      ∙ e in
    let retyped = write ihl (0 ∷ []) summed in
    let typed = write (ihl + 2) (0 ∷ 0 ∷ []) retyped in
    let l5 : length retyped ≡ length packet = length-write ihl (0 ∷ []) summed (omega arith) ∙ l4 in
    let l6 : length typed ≡ length packet =
      length-write (ihl + 2) (0 ∷ 0 ∷ []) retyped (omega arith) ∙ l5 in
    let cleared : drop ihl typed ≡ 0 ∷ code ∷ 0 ∷ 0 ∷ rest =
      drop-write ihl 2 (0 ∷ 0 ∷ []) retyped (omega arith)
      ∙ ap (write 2 (0 ∷ 0 ∷ [])) (
          ap (λ i. drop ihl (write i (0 ∷ []) summed)) {x = ihl} {y = ihl + 0} (omega arith)
          ∙ drop-write ihl 0 (0 ∷ []) summed (omega arith)
          ∙ ap (write 0 (0 ∷ [])) kept) in
    drop-write ihl 2 (be_bytes (internet_checksum (drop ihl typed))) typed (omega arith)
    ∙ ap (λ m. write 2 (be_bytes (internet_checksum m)) m) cleared

handle_icmp_echo_found :
    (packet ip reply : Bytes)
    → handle_icmp_echo packet ip ≡ found reply
    → (header_length packet + 8 ≤ length packet)
      × (echo_reply packet (header_length packet) (address 12 packet) (address 16 packet) ≡ reply)
unfolding handle_icmp_echo
handle_icmp_echo_found packet ip reply e = (ground arith, ground arith)

first_four :
    (xs : Bytes) → 4 ≤ length xs → (a b c d : ℕ) × (rest : Bytes) × (xs ≡ a ∷ b ∷ c ∷ d ∷ rest)
first_four (a ∷ b ∷ c ∷ d ∷ rest) h = (a, b, c, d, rest, refl)
first_four [] h = absurd (omega arith)
first_four (a ∷ []) h = absurd (omega arith)
first_four (a ∷ b ∷ []) h = absurd (omega arith)
first_four (a ∷ b ∷ c ∷ []) h = absurd (omega arith)

All-drop : (n : ℕ) (xs : Bytes) → All IsByte xs → All IsByte (drop n xs)
All-drop zero xs h = h
All-drop (suc n) [] h = tt
All-drop (suc n) (x ∷ xs) h = All-drop n xs h.1

-- The answer to a ping carries the message of the request with type 0 and a new checksum, and passes
-- the receiver's test, if the IPv4 header of the request has its 20 bytes at least.
pub handle_icmp_echo-message :
    (packet ip reply : Bytes)
    → All IsByte packet
    → length packet < 65536
    → 20 ≤ header_length packet
    → handle_icmp_echo packet ip ≡ found reply
    → (kind code k1 k2 c1 c2 : ℕ) × (rest : Bytes) × (drop (header_length packet) packet
        ≡ kind ∷ code ∷ k1 ∷ k2 ∷ rest)
      × (drop (header_length packet) reply ≡ 0 ∷ code ∷ c1 ∷ c2 ∷ rest)
      × (internet_checksum (drop (header_length packet) reply) ≡ 0)
handle_icmp_echo-message packet ip reply bytes short long e =
    let ihl = header_length packet in
    let (fits, same) = handle_icmp_echo_found packet ip reply e in
    let (kind, code, k1, k2, rest, split) =
      first_four (drop ihl packet) (omega (arith, length-drop ihl packet)) in
    let check = internet_checksum (0 ∷ code ∷ 0 ∷ 0 ∷ rest) in
    let message : drop ihl reply ≡ 0 ∷ code ∷ (check / 256 % 256) ∷ check % 256 ∷ rest =
      ap (drop ihl) (sym same)
      ∙ echo_reply-message packet (address 12 packet) (address 16 packet) ihl kind code k1 k2 rest
          refl refl long (omega arith) split in
    let all : All IsByte (kind ∷ code ∷ k1 ∷ k2 ∷ rest) =
      subst (All IsByte) split (All-drop ihl packet bytes) in
    (
      kind,
      code,
      k1,
      k2,
      check / 256 % 256,
      check % 256,
      rest,
      split,
      message,
      ap internet_checksum message
          ∙ internet_checksum-filled code rest all.1.0 all.1.1.1.1
              (omega (arith, ap length split, length-drop ihl packet)),
    )
