-- ===== src/Tests/Probe.antt =====
-- src/discovery.rs and src/wireguard: the device information and the keys at concrete answers.
use seestar_proxy.Base.{
  ◌+◌, ◌-◌, ◌≡◌, refl, ap, ap₂, true, false, Option, none, some, [], ◌∷◌, arith, map, replicate,
  All, if◌then◌else◌,
}
use seestar_proxy.Base.Text.{Bytes, Text, codes, is_whitespace, text_eq}
use seestar_proxy.Json.{Value, object, field, end, string}
use seestar_proxy.Discovery.{Address}
use seestar_proxy.Discovery.Probe.{Parsers, probe_upstream, await_answer}
use seestar_proxy.Discovery.Probe.Answers.{Probed, probe_upstream-Probed}
use seestar_proxy.Wireguard.DeviceInfo.{Env, endpoint}
use seestar_proxy.Wireguard.Keys.{Crypto, Disk, missing, Files, start_config}
use seestar_proxy.Wireguard.Keys.Restarts.{Codec, start_config-again}

abbrev state_value : Value
state_value =
    object
      (field "result" (object (field "device" (object (field "sn" (string "4dd") end)) end)) end)

abbrev event_value : Value
event_value = object (field "Event" (string "PiStatus") end)

-- "s" is a device state, "e" an event, and nothing else is JSON.
abbrev parse : Text → Option Value
parse t =
    if text_eq t (codes "s")
    then some state_value
    else if text_eq t (codes "e")
    then some event_value
    else none

abbrev parsers : Parsers
parsers = record { from_slice = parse; from_str = parse }

abbrev telescope : Address
telescope = record { ip = 10 ∷ 0 ∷ 0 ∷ 9 ∷ []; port = 4720 }

abbrev other : Address
other = record { ip = 10 ∷ 0 ∷ 0 ∷ 3 ∷ []; port = 4720 }

-- Another host's answer and an echo that is no JSON are passed over; an error message is not.
answers :
    (await_answer parsers telescope.ip
        ((other, codes "s") ∷ (telescope, codes "{name}") ∷ (telescope, codes "s\n") ∷ [])
      ≡ some state_value)
    × (await_answer parsers telescope.ip
          ((telescope, codes "{\"error\"") ∷ (telescope, codes "s\n") ∷ [])
        ≡ none)
unfolding await_answer
answers = (refl, refl)

probe_upstream-Probed_example :
    Probed parsers telescope.ip
      ((telescope, codes "{\"error\"") ∷ [])
      (some (codes "e" ∷ codes "s" ∷ []))
      (probe_upstream parsers telescope.ip
        ((telescope, codes "{\"error\"") ∷ [])
        (some (codes "e" ∷ codes "s" ∷ [])))
probe_upstream-Probed_example =
    probe_upstream-Probed parsers telescope.ip ((telescope, codes "{\"error\"") ∷ [])
      (some (codes "e" ∷ codes "s" ∷ []))

abbrev env : Env
env = record {
  serde = record { from_str = parse; to_string = λ v. some (codes "{}") };
  info_on = true;
}

abbrev device : Value
device = object (field "device" (object (field "sn" (string "4dd") end)) end)

-- A base64 of its own: each byte is a letter past the white space.
abbrev crypto : Crypto
crypto = record {
  encode = map (λ b. b + 0x10000);
  decode = λ t. some (map (λ c. c - 0x10000) t);
  public_of = λ bs. bs;
}

map-map : (bs : Bytes) → map (λ c. c - 0x10000) (map (λ b. b + 0x10000) bs) ≡ bs
map-map [] = refl
map-map (b ∷ bs) = ap₂ ◌∷◌ (omega arith) (map-map bs)

letters : (bs : Bytes) → All (λ c. is_whitespace c ≡ false) (map (λ b. b + 0x10000) bs)
unfolding is_whitespace
letters [] = tt
letters (b ∷ bs) = (ground arith, letters bs)

crypto-Codec : Codec crypto
crypto-Codec = record { decode-encode = λ bs. ap some (map-map bs); encode-IsPlain = letters }

abbrev good_disk : Disk
good_disk = record { directory = true; written = true; permitted = true }

abbrev bad_disk : Disk
bad_disk = record { directory = false; written = false; permitted = false }

abbrev none_yet : Files crypto
none_yet = record { server = missing; client = missing }

abbrev first_start : Option Text × Files crypto
first_start =
    start_config crypto good_disk (replicate 32 1) (replicate 32 2) (codes "pi:51820") none_yet

config_made : (c : Text) × (first_start.0 ≡ some c)
unfolding start_config
config_made = (_, refl)

start_config-again_example :
    start_config crypto bad_disk (replicate 32 3) [] (codes "pi:51820") first_start.1
    ≡ (some config_made.0, first_start.1)
start_config-again_example =
    start_config-again crypto crypto-Codec good_disk bad_disk (replicate 32 1) (replicate 32 2)
      (replicate 32 3) [] (codes "pi:51820") config_made.0 none_yet refl refl (omega arith)
      (omega arith) config_made.1

endpoints :
    (endpoint (some (codes "pi:1")) none (codes "0.0.0.0") 51820 ≡ codes "pi:1")
    × (endpoint none (some (codes "10.0.0.7")) (codes "0.0.0.0") 51820 ≡ codes "10.0.0.7:51820")
unfolding endpoint
endpoints = (refl, refl)
