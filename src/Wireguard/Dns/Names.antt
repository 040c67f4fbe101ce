-- ===== src/Wireguard/Dns/Names.antt =====
-- src/wireguard/dns.rs: the parser reads back the names that a resolver sends.
use seestar_proxy.Base.{
  ℕ, zero, suc, ◌+◌, ◌≤◌, ◌<◌, ◌≡◌, refl, sym, ap, ◌∙◌, false, some, List, [], ◌∷◌, ◌++◌,
  append_assoc, arith, ltb_le, leb_lt, ◌==◌, length, take, drop, All, length-append, length-drop,
  drop-drop, drop-append_length, take-append_length,
}
use seestar_proxy.Base.Text.{Bytes, Text, from_utf8_lossy}
use seestar_proxy.Protocol.{byte_at}
use seestar_proxy.Wireguard.Dns.{dns_header_len, push_label, parse_labels, parse_query_name}

-- Labels behind their lengths, and the final zero.
abbrev pub encode : List Bytes → Bytes
encode [] = 0 ∷ []
encode (l ∷ ls) = length l ∷ l ++ encode ls

-- The labels as text, with a dot between two.
abbrev pub join : Text → List Bytes → Text
join name [] = name
join name (l ∷ ls) = join (push_label name (from_utf8_lossy l)) ls

byte_at-drop :
    (pos b : ℕ) (bytes rest : Bytes)
    → drop pos bytes ≡ b ∷ rest
    → (byte_at bytes pos ≡ b)
      × (drop (pos + 1) bytes ≡ rest)
      × (length bytes ≡ pos + suc (length rest))
byte_at-drop pos b bytes rest e =
    (at pos bytes e, sym (drop-drop 1 pos bytes) ∙ ap (drop 1) e, size)
  where
    at : (n : ℕ) (bs : Bytes) → drop n bs ≡ b ∷ rest → byte_at bs n ≡ b
    at zero [] f = absurd cc
    at zero (x ∷ bs) f = ground arith
    at (suc n) [] f = absurd cc
    at (suc n) (x ∷ bs) f = at n bs f

    size : length bytes ≡ pos + suc (length rest)
    size = omega (arith, length-drop pos bytes, ap length e)

parse_labels_label :
    (fuel : ℕ) (bytes : Bytes) (pos n : ℕ) (name : Text) (l : Bytes)
    → byte_at bytes pos ≡ n
    → take n (drop (pos + 1) bytes) ≡ l
    → 0 < n
    → pos + 1 + n ≤ length bytes
    → parse_labels (suc fuel) bytes pos name
      ≡ parse_labels fuel bytes (pos + 1 + n) (push_label name (from_utf8_lossy l))
unfolding parse_labels
parse_labels_label fuel bytes pos n name l at label positive fits =
    rw (leb_lt (length bytes) pos (omega arith), at, parse_labels)
      (rw (not_zero n positive, ltb_le (length bytes) (pos + 1 + n) fits, label))
  where
    not_zero : (k : ℕ) → 0 < k → (k == 0) ≡ false
    not_zero k h = ground arith

parse_labels-encode :
    (fuel : ℕ) (bytes : Bytes) (pos : ℕ) (name : Text) (ls : List Bytes) (rest : Bytes)
    → length ls < fuel
    → All (λ l. 0 < length l) ls
    → drop pos bytes ≡ encode ls ++ rest
    → parse_labels fuel bytes pos name ≡ some (join name ls, pos + length (encode ls))
unfolding parse_labels
parse_labels-encode zero bytes pos name ls rest enough v e = absurd (omega arith)
parse_labels-encode (suc fuel) bytes pos name [] rest enough v e =
    let (at, next, size) = byte_at-drop pos 0 bytes rest e in
    rw (leb_lt (length bytes) pos (omega arith), at, parse_labels) refl
parse_labels-encode (suc fuel) bytes pos name (l ∷ ls) rest enough v e =
    let n = length l in
    let tail = encode ls ++ rest in
    let (at, next, size) = byte_at-drop pos n bytes (l ++ tail) (e ∙ regroup) in
    parse_labels_label fuel bytes pos n name l at
      (ap (take n) next ∙ take-append_length n l tail refl) v.0
      (omega (arith, length-append l tail))
    ∙ parse_labels-encode fuel bytes (pos + 1 + n) (push_label name (from_utf8_lossy l)) ls rest
        (omega arith) v.1
        (sym (drop-drop n (pos + 1) bytes) ∙ ap (drop n) next ∙ drop-append_length n l tail refl)
    ∙ ap (λ k. some (join name (l ∷ ls), k)) (omega (arith, length-append l (encode ls)))
  where
    regroup : encode (l ∷ ls) ++ rest ≡ length l ∷ l ++ (encode ls ++ rest)
    regroup = ap (◌∷◌ (length l)) (append_assoc l (encode ls) rest)

length-encode : (ls : List Bytes) → length ls ≤ length (encode ls)
length-encode [] = omega arith
length-encode (l ∷ ls) = omega (arith, length-append l (encode ls), length-encode ls)

-- A query with a header, a name of labels that are not empty, and the question's four bytes is
-- parsed to its labels, joined by dots and in lower case, and to the end of its question.
pub parse_query_name-encode :
    (to_lowercase : Text → Text) (header : Bytes) (ls : List Bytes) (rest : Bytes)
    → length header ≡ dns_header_len
    → All (λ l. 0 < length l) ls
    → 4 ≤ length rest
    → parse_query_name to_lowercase (header ++ (encode ls ++ rest))
      ≡ some (to_lowercase (join [] ls), 12 + length (encode ls) + 4)
unfolding parse_query_name
parse_query_name-encode to_lowercase header ls rest h v enough =
    let query = header ++ (encode ls ++ rest) in
    let size : length query ≡ 12 + (length (encode ls) + length rest) =
      omega (arith, length-append header (encode ls ++ rest), length-append (encode ls) rest) in
    rw (ltb_le (length query) (dns_header_len + 1) (omega (arith, size)), parse_query_name)
      (rw
        (parse_labels-encode (suc (length query)) query 12 [] ls rest
          (omega (arith, size, length-encode ls)) v
          (drop-append_length 12 header (encode ls ++ rest) h))
        (rw (ltb_le (length query) (12 + length (encode ls) + 4) (omega (arith, size)))))
