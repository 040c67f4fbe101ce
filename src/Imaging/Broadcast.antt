-- ===== src/Imaging/Broadcast.antt =====
-- src/imaging.rs: the whole task of the frame reader: what every client gets, and what is counted.
use seestar_proxy.Base.{
  ℕ, suc, ◌+◌, ◌%◌, ◌^◌, ◌≤◌, ◌<◌, ◌≡◌, refl, ap, ◌∙◌, true, false, Bool-cases, inl, inr, Option,
  some, List, [], ◌∷◌, map, arith, ◌==◌, length, All, length-append,
}
use seestar_proxy.Base.Text.{Bytes}
use seestar_proxy.Protocol.{header_size, parse, FrameHeader}
use seestar_proxy.Metrics.{Metrics, u64, push_log, push_log_with_payload}
use seestar_proxy.Imaging.{lost, Env, Reader, log_frame, count_frame, upstream_reader_task, set_up}
use seestar_proxy.Imaging.Frames.{Frame, IsFrame, frame_bytes, sent, counted}
use seestar_proxy.Imaging.Frames.Reading.{
  stream, Why, Told, read_frames-frames, read_frames-Told, stream_frame,
}

abbrev started : Option Metrics → Reader
started m = record { metrics = set_up true m; frame_count = 0 }

length-stream :
    (fs : List Frame) (rest : Bytes) → All IsFrame fs → length fs ≤ length (stream fs rest)
length-stream [] rest v = omega arith
length-stream (f ∷ fs) rest v = omega (
  arith,
  v.0.whole,
  length-stream fs rest v.1,
  ap length (stream_frame f fs rest),
  length-append (frame_bytes f) (stream fs rest),
  length-append f.header f.payload,
)

-- However the connection ends, what was broadcast is a list of well-formed frames, in the order and
-- with the bytes of the input, which they make up but for the bytes not taken; and those do not
-- start with a well-formed frame, for the reason that the reader stopped with.
pub upstream_reader_task-Told :
    (env : Env) (bs : Bytes) (m : Option Metrics)
    → let (r, effects, left, e) = upstream_reader_task env bs m in
      (fs : List Frame) × All IsFrame fs
      × (bs ≡ stream fs left)
      × (sent effects ≡ map frame_bytes fs)
      × Why e left
unfolding upstream_reader_task Told
upstream_reader_task-Told env bs m =
    let (fs, all, split, count, sends, why) =
      read_frames-Told (length bs) env bs (started m) (omega arith) in
    (fs, all, split, sends, why)

-- Frames that the telescope sends, then less than a header, are broadcast one for one.
pub upstream_reader_task-frames :
    (env : Env) (fs : List Frame) (rest : Bytes) (m : Option Metrics)
    → All IsFrame fs
    → length rest < header_size
    → let (r, effects, left, e) = upstream_reader_task env (stream fs rest) m in
      (sent effects ≡ map frame_bytes fs) × (left ≡ rest) × (e ≡ lost)
unfolding upstream_reader_task
upstream_reader_task-frames env fs rest m v short =
    let (count, sends, left, ended) =
      read_frames-frames (length (stream fs rest)) env fs rest (started m) (length-stream fs rest v)
        v short in
    (sends, left, ended)

unfoldable pub total_bytes : List Frame → ℕ
total_bytes [] = 0
total_bytes (f ∷ fs) = header_size + length f.payload + total_bytes fs

abbrev Counts : ℕ → ℕ → Option Metrics → Type 0
Counts n b o = (m : Metrics) × (o ≡ some m) × (m.imaging_frames ≡ u64 n) × (m.imaging_bytes ≡ u64 b)

log_frame-counts :
    (env : Env) (count : ℕ) (h : FrameHeader) (m : Metrics)
    → ((log_frame env count h m).imaging_frames ≡ m.imaging_frames)
      × ((log_frame env count h m).imaging_bytes ≡ m.imaging_bytes)
unfolding log_frame push_log push_log_with_payload
log_frame-counts env count h m = elim (Bool-cases (count % 30 == 1)) [
  | inl e ↦ rw e (refl, refl)
  | inr e ↦ rw e (refl, refl)
]

count_frame-Counts :
    (env : Env) (f : Frame) (r : Reader) (n b : ℕ)
    → Counts n b r.metrics
    → Counts
        (n + 1)
        (b + (header_size + length f.payload))
        (count_frame env f.header f.payload r).metrics
unfolding count_frame
count_frame-Counts env f r n b (m, e, frames, size) =
    let count = u64 (r.frame_count + 1) in
    let more : Metrics = record m {
      imaging_frames = u64 (m.imaging_frames + 1);
      imaging_bytes = u64 (m.imaging_bytes + (header_size + length f.payload));
    } in
    let (same_frames, same_bytes) = log_frame-counts env count (parse f.header) more in
    (
      log_frame env count (parse f.header) more,
      rw (e, count_frame),
      omega (arith, same_frames),
      omega (arith, same_bytes),
    )

Counts-eq : (n n' b b' : ℕ) (o : Option Metrics) → n ≡ n' → b ≡ b' → Counts n b o → Counts n' b' o
Counts-eq n n' b b' o p q (m, e, frames, size) = (m, e, frames ∙ ap u64 p, size ∙ ap u64 q)

counted-Counts :
    (env : Env) (fs : List Frame) (r : Reader) (n b : ℕ)
    → Counts n b r.metrics
    → Counts (n + length fs) (b + total_bytes fs) (counted env fs r).metrics
unfolding total_bytes
counted-Counts env [] r n b c =
    Counts-eq n (n + 0) b (b + 0) r.metrics (omega arith) (omega arith) c
counted-Counts env (f ∷ fs) r n b c =
    let k = header_size + length f.payload in
    Counts-eq (n + 1 + length fs) (n + suc (length fs)) (b + k + total_bytes fs)
      (b + (k + total_bytes fs)) (counted env (f ∷ fs) r).metrics (omega arith) (omega arith)
      (counted-Counts env fs (count_frame env f.header f.payload r) (n + 1) (b + k)
        (count_frame-Counts env f r n b c))

-- The counters of frames and of bytes grow by what was broadcast, modulo 2 ^ 64, and at the end the
-- imaging connection is marked as down.
pub upstream_reader_task-counts :
    (env : Env) (fs : List Frame) (rest : Bytes) (m : Metrics)
    → All IsFrame fs
    → length rest < header_size
    → m.imaging_frames < 2 ^ 64
    → m.imaging_bytes < 2 ^ 64
    → (m' : Metrics) × ((upstream_reader_task env (stream fs rest) (some m)).0.metrics ≡ some m')
      × (m'.imaging_frames ≡ u64 (m.imaging_frames + length fs))
      × (m'.imaging_bytes ≡ u64 (m.imaging_bytes + total_bytes fs))
      × (m'.upstream_imaging_up ≡ false)
unfolding upstream_reader_task
upstream_reader_task-counts env fs rest m v short small small' =
    let (count, sends, left, ended) =
      read_frames-frames (length (stream fs rest)) env fs rest (started (some m))
        (length-stream fs rest v) v short in
    let (m', e, frames, size) =
      counted-Counts env fs (started (some m)) m.imaging_frames m.imaging_bytes
        (record m { upstream_imaging_up = true }, refl, omega arith, omega arith) in
    (
      record m' { upstream_imaging_up = false },
      ap (set_up false) (ap (λ r. r.metrics) count ∙ e),
      frames,
      size,
      refl,
    )
