-- ===== src/Imaging/Frames/Reading.antt =====
-- src/imaging.rs: the loop of the frame reader on frames, and on any input.
use seestar_proxy.Base.{
  ℕ, zero, suc, ◌+◌, ◌≤◌, ◌<◌, ◌≡◌, refl, sym, ap, ◌∙◌, Bool-cases, inl, inr, List, [], ◌∷◌, ◌++◌,
  map, append_assoc, arith, ltb, length, take, drop, All, length-append, length-drop, length-take,
  take-append-drop, lt→ltb, subst, ◌⊎◌, ltb→lt, ltb_false→le,
}
use seestar_proxy.Base.Text.{Bytes}
use seestar_proxy.Protocol.{header_size, parse}
use seestar_proxy.Imaging.{
  max_frame_size, read_exact, End, lost, unreasonable, cut_off, frame, ended, read_payload,
  next_frame, Effect, Env, Reader, count_frame, frame_effects, read_frames,
}
use seestar_proxy.Imaging.Frames.{
  Frame, IsFrame, frame_bytes, concat, sent, sent-frame_effects, next_frame-frame, counted,
}

-- The bytes of frames, and what follows them.
abbrev pub stream : List Frame → Bytes → Bytes
stream fs rest = concat (map frame_bytes fs) ++ rest

next_frame-lost : (bs : Bytes) → length bs < header_size → next_frame bs ≡ ended lost
unfolding next_frame read_exact
next_frame-lost bs short = rw (lt→ltb (length bs) header_size short, next_frame)

read_frames_ended :
    (fuel : ℕ) (env : Env) (bs : Bytes) (r : Reader) (e : End)
    → next_frame bs ≡ ended e
    → read_frames (suc fuel) env bs r ≡ (r, [], bs, e)
unfolding read_frames
read_frames_ended fuel env bs r e eq = rw (eq, read_frames)

read_frames_frame :
    (fuel : ℕ) (env : Env) (bs header payload rest : Bytes) (r : Reader)
    → next_frame bs ≡ frame header payload rest
    → read_frames (suc fuel) env bs r ≡ (
        let (r', later, left, e) = read_frames fuel env rest (count_frame env header payload r) in
        (r', frame_effects env header payload ++ later, left, e))
unfolding read_frames
read_frames_frame fuel env bs header payload rest r eq = rw (eq, read_frames)

-- The outcome of a run that read these frames.
abbrev pub Reads :
    Env → List Frame → Bytes → End → Reader → Reader × List Effect × Bytes × End → Type 0
Reads env fs rest e r (r', effects, left, e') =
    (r' ≡ counted env fs r) × (sent effects ≡ map frame_bytes fs) × (left ≡ rest) × (e' ≡ e)

Reads-frame :
    (env : Env) (f : Frame) (fs : List Frame) (rest : Bytes) (e : End) (r : Reader)
    (o : Reader × List Effect × Bytes × End)
    → Reads env fs rest e (count_frame env f.header f.payload r) o
    → let (r', later, left, e') = o in
      Reads env (f ∷ fs) rest e r (r', frame_effects env f.header f.payload ++ later, left, e')
Reads-frame env f fs rest e r (r', later, left, e') (a, b, c, d) =
    (a, sent-frame_effects env f.header f.payload later ∙ ap (◌∷◌ (frame_bytes f)) b, c, d)

pub stream_frame :
    (f : Frame) (fs : List Frame) (rest : Bytes)
    → stream (f ∷ fs) rest ≡ frame_bytes f ++ stream fs rest
stream_frame f fs rest = append_assoc (frame_bytes f) (concat (map frame_bytes fs)) rest

pub read_frames-frames :
    (fuel : ℕ) (env : Env) (fs : List Frame) (rest : Bytes) (r : Reader)
    → length fs ≤ fuel
    → All IsFrame fs
    → length rest < header_size
    → Reads env fs rest lost r (read_frames fuel env (stream fs rest) r)
unfolding read_frames
read_frames-frames zero env [] rest r enough v short = (refl, refl, refl, refl)
read_frames-frames zero env (f ∷ fs) rest r enough v short = elim enough [ ]
read_frames-frames (suc fuel) env [] rest r enough v short =
    subst (Reads env [] rest lost r)
      (sym (read_frames_ended fuel env rest r lost (next_frame-lost rest short)))
      (refl, refl, refl, refl)
read_frames-frames (suc fuel) env (f ∷ fs) rest r enough v short =
    subst (Reads env (f ∷ fs) rest lost r)
      (sym (
        read_frames_frame fuel env (stream (f ∷ fs) rest) f.header f.payload (stream fs rest) r
          (ap next_frame (stream_frame f fs rest) ∙ next_frame-frame f (stream fs rest) v.0)))
      (Reads-frame env f fs rest lost r
        (read_frames fuel env (stream fs rest) (count_frame env f.header f.payload r))
        (read_frames-frames fuel env fs rest (count_frame env f.header f.payload r) (omega arith)
          v.1 short))

-- Why the reader stopped, by the bytes it did not take.
abbrev pub Why : End → Bytes → Type 0
Why lost left = length left < header_size
Why unreasonable left =
    (header_size ≤ length left) × (max_frame_size < (parse (take header_size left)).size)
Why cut_off left =
    (header_size ≤ length left) × (length left < header_size + (parse (take header_size left)).size)

next_frame-cases :
    (bs : Bytes)
    → ((e : End) × (next_frame bs ≡ ended e) × Why e bs)
      ⊎ ((f : Frame) × (rest : Bytes) × (next_frame bs ≡ frame f.header f.payload rest)
          × (bs ≡ frame_bytes f ++ rest)
          × IsFrame f)
unfolding next_frame read_exact read_payload
next_frame-cases bs = elim (Bool-cases (ltb (length bs) header_size)) [
  | inl short ↦ inl (lost, rw (short, next_frame), ltb→lt (length bs) header_size short)
  | inr long ↦
      let h = take header_size bs in
      let size = (parse h).size in
      let body = drop header_size bs in
      elim (Bool-cases (ltb max_frame_size size)) [
        | inl big ↦ inl (
          unreasonable,
          rw (long, next_frame) (rw (big, read_payload)),
          (ltb_false→le (length bs) header_size long, ltb→lt max_frame_size size big),
        )
        | inr fits ↦ elim (Bool-cases (ltb (length body) size)) [
          | inl cut ↦ inl (
            cut_off,
            rw (long, next_frame) (rw (fits, read_payload) (rw cut)),
            (
              ltb_false→le (length bs) header_size long,
              omega (arith, length-drop header_size bs, ltb→lt (length body) size cut),
            ),
          )
          | inr whole ↦ inr (
            record { header = h; payload = take size body },
            drop size body,
            rw (long, next_frame) (rw (fits, read_payload) (rw whole)),
            sym (
                append_assoc h (take size body) (drop size body)
                ∙ ap (◌++◌ h) (take-append-drop size body)
                ∙ take-append-drop header_size bs),
            record {
              whole =
                  omega
                    (arith, length-take header_size bs, ltb_false→le (length bs) header_size long);
              sized = omega (arith, length-take size body, ltb_false→le (length body) size whole);
              bounded = ltb_false→le max_frame_size size fits;
            },
          )
        ]
      ]
]

-- Every run reads whole frames, and says of the rest why it is not one.
unfoldable pub Told : Env → Bytes → Reader → Reader × List Effect × Bytes × End → Type 0
Told env bs r (r', effects, left, e) =
    (fs : List Frame) × All IsFrame fs
    × (bs ≡ stream fs left)
    × (r' ≡ counted env fs r)
    × (sent effects ≡ map frame_bytes fs)
    × Why e left

Told-ended :
    (env : Env) (bs : Bytes) (r : Reader) (e : End) → Why e bs → Told env bs r (r, [], bs, e)
unfolding Told
Told-ended env bs r e w = ([], tt, refl, refl, refl, w)

Told-frame :
    (env : Env) (bs rest : Bytes) (f : Frame) (r : Reader) (o : Reader × List Effect × Bytes × End)
    → IsFrame f
    → bs ≡ frame_bytes f ++ rest
    → Told env rest (count_frame env f.header f.payload r) o
    → let (r', later, left, e) = o in
      Told env bs r (r', frame_effects env f.header f.payload ++ later, left, e)
unfolding Told
Told-frame env bs rest f r (r', later, left, e) v eq (fs, all, split, count, sends, why) = (
  f ∷ fs,
  (v, all),
  eq ∙ ap (◌++◌ (frame_bytes f)) split ∙ sym (stream_frame f fs left),
  count,
  sent-frame_effects env f.header f.payload later ∙ ap (◌∷◌ (frame_bytes f)) sends,
  why,
)

pub read_frames-Told :
    (fuel : ℕ) (env : Env) (bs : Bytes) (r : Reader)
    → length bs ≤ fuel
    → Told env bs r (read_frames fuel env bs r)
unfolding read_frames
read_frames-Told zero env bs r enough = Told-ended env bs r lost (omega arith)
read_frames-Told (suc fuel) env bs r enough = elim (next_frame-cases bs) [
  | inl (e, eq, why) ↦
      subst (Told env bs r) (sym (read_frames_ended fuel env bs r e eq)) (Told-ended env bs r e why)
  | inr (f, rest, eq, split, v) ↦
      subst (Told env bs r) (sym (read_frames_frame fuel env bs f.header f.payload rest r eq)) (
        Told-frame env bs rest f r
          (read_frames fuel env rest (count_frame env f.header f.payload r)) v split
          (read_frames-Told fuel env rest (count_frame env f.header f.payload r) (
            omega (
              arith,
              ap length split,
              length-append f.header f.payload,
              length-append (frame_bytes f) rest,
              v.whole,
            ))))
]
