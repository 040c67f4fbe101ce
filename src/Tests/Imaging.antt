-- ===== src/Tests/Imaging.antt =====
-- src/imaging.rs: one small frame, and one command.
use seestar_proxy.Base.{◌≡◌, refl, true, none, List, [], ◌∷◌, ◌++◌, map, arith, All, replicate}
use seestar_proxy.Base.Text.{codes}
use seestar_proxy.Protocol.{parse}
use seestar_proxy.Lines.{newline, bytes, Stream}
use seestar_proxy.Imaging
use seestar_proxy.Imaging.{Env, lost, upstream_reader_task}
use seestar_proxy.Imaging.Frames.{Frame, IsFrame, frame_bytes, sent}
use seestar_proxy.Imaging.Frames.Reading.{stream}
use seestar_proxy.Imaging.Broadcast.{upstream_reader_task-Told}
use seestar_proxy.Imaging.Frames.Reading.{Why}
use seestar_proxy.Imaging.Clients
use seestar_proxy.Imaging.Clients.{handle_client, stop}

abbrev env : Imaging.Env
env = record {
  recording = true;
  clock = λ n. record { elapsed_ms = n; epoch_ms = 1000 };
  image_line = λ kind w h size. kind;
  frame_line = λ kind size. kind;
}

-- A handshake frame of two bytes.
abbrev small : Frame
small = record {
  header = (0 ∷ 0 ∷ 0 ∷ 0 ∷ 0 ∷ 0 ∷ 0 ∷ 0 ∷ 0 ∷ 2 ∷ []) ++ replicate 70 0;
  payload = codes "ok";
}

small-IsFrame : IsFrame small
unfolding parse
small-IsFrame = record { whole = refl; sized = refl; bounded = omega arith }

upstream_reader_task-Told_example :
    let (r, effects, left, e) = upstream_reader_task env (codes "x") none in
    (fs : List Frame) × All IsFrame fs
    × (codes "x" ≡ stream fs left)
    × (sent effects ≡ map frame_bytes fs)
    × Why e left
upstream_reader_task-Told_example = upstream_reader_task-Told env (codes "x") none

abbrev client : Clients.Env
client = record {
  from_str = λ t. none;
  now = record { elapsed_ms = 5; epoch_ms = 1000 };
  upstream_open = true;
}

-- The command `{}` in two reads, and a blank line.
abbrev pieces : Stream
pieces = bytes (codes "{") ∷ bytes (b'}' ∷ newline ∷ newline ∷ []) ∷ []
