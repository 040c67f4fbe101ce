-- ===== src/Wireguard/Keys.antt =====
-- src/wireguard/keys.rs: the key pairs of the tunnel, kept in files so that a client's configuration
-- survives a restart. base64 and x25519 are parameters; a secret is its bytes.
pub mod Restarts
use seestar_proxy.Base.{
  ℕ, Bool, true, false, Option, none, some, List, [], ◌∷◌, ◌++◌, if◌then◌else◌, ◌==◌, length, ◌>>=◌,
}
use seestar_proxy.Base.Text.{Bytes, Text, codes, trim}
use seestar_proxy.Wireguard.DeviceInfo.{client_config}

pub record Crypto : Type 0 where
  pub encode : Bytes → Text
  pub decode : Text → Option Bytes
  pub public_of : Bytes → Bytes

pub record WgKeypair : Type 0 where
  pub private : Bytes
  pub public : Bytes

-- A key file. A path that exists need not be readable.
pub data File : Type 0 where
  missing unreadable : File
  contains : Text → File

-- What the disk allows: the directory, the write, and the permissions.
pub record Disk : Type 0 where
  pub directory : Bool
  pub written : Bool
  pub permitted : Bool

module _ (crypto : Crypto) where
  open crypto use {encode, decode, public_of}

  abbrev pub pair : Bytes → WgKeypair
  pair secret = record { private = secret; public = public_of secret }

  -- The file afterwards, and whether it went well. A file whose permissions cannot be set stays.
  unfoldable pub try_persist : Disk → WgKeypair → File → File × Bool
  try_persist disk k file =
      if disk.directory
      then (if disk.written
          then (contains (encode k.private ++ codes "\n"), disk.permitted)
          else (file, false))
      else (file, false)

  unfoldable pub load : Text → Option WgKeypair
  unfolding trim
  load contents = do
    decoded ← decode (trim contents)
    if length decoded == 32 then some (pair decoded) else none

  -- The key pair, or none for an error, and the file afterwards. `random` is what the generator gives.
  unfoldable pub load_or_generate : Disk → (random : Bytes) → File → Option WgKeypair × File
  unfolding load try_persist
  load_or_generate disk random missing =
      (some (pair random), (try_persist disk (pair random) missing).0)
  load_or_generate disk random unreadable = (none, unreadable)
  load_or_generate disk random (contains contents) = (load contents, contains contents)

  -- The two key files at a start, and the keys that the configuration of the client is made of.
  pub record Files : Type 0 where
    pub server : File
    pub client : File

  -- The client's configuration, or none if a key does not load.
  unfoldable pub start_config :
      Disk → (random random' : Bytes) (endpoint : Text) → Files → Option Text × Files
  unfolding load_or_generate client_config
  start_config disk random random' endpoint files =
      let (server_keys, server) = load_or_generate disk random files.server in
      let (client_keys, client) = load_or_generate disk random' files.client in
      elim server_keys [
        | none ↦ (none, record files { server = server })
        | some s ↦ (
          do
            c ← client_keys
            some (
                client_config (encode c.private) (codes "10.99.0.2/32") (encode s.public) endpoint
                  (codes "0.0.0.0/0")),
          record { server = server; client = client },
        )
      ]
