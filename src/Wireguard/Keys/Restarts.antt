-- ===== src/Wireguard/Keys/Restarts.antt =====
-- src/wireguard/keys.rs and `start` of src/wireguard/mod.rs: a restart finds the keys of the last start.
use seestar_proxy.Base.{
  ℕ, ◌≡◌, refl, sym, ap, ap₂, ◌∙◌, true, false, some, Option-cases, inl, inr, [], ◌∷◌, ◌++◌, arith,
  ==_iff, length, All, subst,
}
use mathlib.Core.List.{reverse, reverse-cons, reverse-append, reverse-reverse}
use seestar_proxy.Base.Text.{Bytes, Text, codes, is_whitespace, trim, trim_start}
use seestar_proxy.Wireguard.DeviceInfo.{client_config}
use seestar_proxy.Wireguard.Keys.{
  Crypto, WgKeypair, File, missing, unreadable, contains, Disk, pair, try_persist, load,
  load_or_generate, Files, start_config,
}

abbrev pub IsPlain : ℕ → Type 0
IsPlain c = is_whitespace c ≡ false

All-append : (P : ℕ → Type 0) (xs ys : Text) → All P xs → All P ys → All P (xs ++ ys)
All-append P [] ys h k = k
All-append P (x ∷ xs) ys (p, h) k = (p, All-append P xs ys h k)

All-reverse : (P : ℕ → Type 0) (xs : Text) → All P xs → All P (reverse xs)
All-reverse P [] h = tt
All-reverse P (x ∷ xs) (p, h) =
    subst (All P) (sym (reverse-cons x xs))
      (All-append P (reverse xs) (x ∷ []) (All-reverse P xs h) (p, tt))

trim_start-plain : (c : ℕ) (s : Text) → IsPlain c → trim_start (c ∷ s) ≡ c ∷ s
unfolding trim_start
trim_start-plain c s h = rw h refl

trim_start-IsPlain : (s : Text) → All IsPlain s → trim_start s ≡ s
unfolding trim_start
trim_start-IsPlain [] h = refl
trim_start-IsPlain (c ∷ s) h = trim_start-plain c s h.0

-- A line without white space is what `trim` leaves of it with its newline.
trim-line : (s : Text) → All IsPlain s → trim (s ++ codes "\n") ≡ s
unfolding trim trim_start is_whitespace
trim-line [] h = refl
trim-line (c ∷ s) h =
    ap (λ t. reverse (trim_start (reverse t))) (trim_start-plain c (s ++ codes "\n") h.0)
    ∙ ap (λ t. reverse (trim_start t)) (reverse-append (c ∷ s) (codes "\n"))
    ∙ ap reverse (trim_start-IsPlain (reverse (c ∷ s)) (All-reverse IsPlain (c ∷ s) h))
    ∙ reverse-reverse (c ∷ s)

module _ (crypto : Crypto) where
  open crypto use {encode, decode}

  -- What base64 promises: decoding is the inverse, and there is no white space.
  pub record Codec : Type 0 where
    pub decode-encode : (bs : Bytes) → decode (encode bs) ≡ some bs
    pub encode-IsPlain : (bs : Bytes) → All IsPlain (encode bs)

  module _ (ok : Codec) where
    load-encode :
        (k : Bytes) → length k ≡ 32 → load crypto (encode k ++ codes "\n") ≡ some (pair crypto k)
    unfolding load
    load-encode k e =
        rw
          (
            trim-line (encode k) (ok.encode-IsPlain k),
            ok.decode-encode k,
            (==_iff (length k) 32).1 e,
          )
          refl

    load_or_generate-again :
        (disk later : Disk) (random other : Bytes) (file : File) (k : WgKeypair)
        → disk.directory ≡ true
        → disk.written ≡ true
        → length random ≡ 32
        → (load_or_generate crypto disk random file).0 ≡ some k
        → load_or_generate crypto later other (load_or_generate crypto disk random file).1
          ≡ (some k, (load_or_generate crypto disk random file).1)
    unfolding load_or_generate try_persist
    load_or_generate-again disk later random other missing k d w e h =
        rw (try_persist, d, w)
          (ap (λ x. (x, contains (encode random ++ codes "\n"))) (load-encode random e ∙ h))
    load_or_generate-again disk later random other unreadable k d w e h = absurd (ground arith)
    load_or_generate-again disk later random other (contains t) k d w e h =
        ap (λ x. (x, contains t)) h

    -- The client's configuration survives restarts: if a start succeeds on a disk that takes the key
    -- files, then every later start from the files that it leaves gives the same configuration and
    -- leaves the same files, whatever the generator gives and the disk allows then. Generated keys
    -- have 32 bytes, and base64 is a parameter that decodes what it has encoded and writes no white
    -- space.
    pub start_config-again :
        (disk later : Disk) (random random' other other' : Bytes) (endpoint config : Text)
        (files : Files crypto)
        → disk.directory ≡ true
        → disk.written ≡ true
        → length random ≡ 32
        → length random' ≡ 32
        → (start_config crypto disk random random' endpoint files).0 ≡ some config
        → start_config crypto later other other' endpoint
            (start_config crypto disk random random' endpoint files).1
          ≡ (some config, (start_config crypto disk random random' endpoint files).1)
    unfolding start_config
    start_config-again disk later random random' other other' endpoint config files d w e e' h =
        elim (Option-cases (load_or_generate crypto disk random files.server).0) [
          | inl f ↦ absurd (ground arith)
          | inr (s, f) ↦ elim (Option-cases (load_or_generate crypto disk random' files.client).0) [
            | inl g ↦ absurd (ground arith)
            | inr (c, g) ↦
                let again = load_or_generate-again disk later random other files.server s d w e f in
                let again' =
                  load_or_generate-again disk later random' other' files.client c d w e' g in
                let left : Files crypto = record {
                  server = (load_or_generate crypto disk random files.server).1;
                  client = (load_or_generate crypto disk random' files.client).1;
                } in
                let made =
                  client_config (encode c.private) (codes "10.99.0.2/32") (encode s.public) endpoint
                    (codes "0.0.0.0/0") in
                let one : start_config crypto disk random random' endpoint files
                    ≡ (some made, left) =
                  rw (start_config, f, g) refl in
                let two : start_config crypto later other other' endpoint left ≡ (some made, left) =
                  rw (start_config, again, ap (λ x. x.1) again, again') refl in
                ap (λ x. start_config crypto later other other' endpoint x.1) one
                ∙ two
                ∙ ap₂ (λ x y. (x, y)) (sym (ap (λ x. x.0) one) ∙ h) (sym (ap (λ x. x.1) one))
          ]
        ]
