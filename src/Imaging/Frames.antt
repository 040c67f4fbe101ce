-- ===== src/Imaging/Frames.antt =====
-- src/imaging.rs: what the frame reader broadcasts is what the telescope sent.
pub mod Reading
use seestar_proxy.Base.{
  ℕ, zero, suc, ◌+◌, ◌≤◌, ◌<◌, ◌≡◌, refl, sym, ap, ◌∙◌, Bool-cases, inl, inr, some, List, [], ◌∷◌,
  ◌++◌, map, append_assoc, arith, ltb, ltb_le, length, take, drop, All, length-append, length-drop,
  length-take, take-append_length, drop-append_length, take-append-drop, lt→ltb, subst, ◌⊎◌, ltb→lt,
  ltb_false→le,
}
use seestar_proxy.Base.Text.{Bytes}
use seestar_proxy.Protocol.{header_size, parse}
use seestar_proxy.Imaging.{
  max_frame_size, read_exact, End, lost, unreasonable, cut_off, frame, ended, read_payload,
  next_frame, Effect, recorded, to_all, Env, Reader, count_frame, frame_effects, read_frames,
}

-- A frame that the telescope sends: a header, and as many bytes as its size field says.
pub record Frame : Type 0 where
  pub header : Bytes
  pub payload : Bytes

pub record IsFrame (f : Frame) : Type 0 where
  pub whole : length f.header ≡ header_size
  pub sized : length f.payload ≡ (parse f.header).size
  pub bounded : (parse f.header).size ≤ max_frame_size

abbrev pub frame_bytes : Frame → Bytes
frame_bytes f = f.header ++ f.payload

abbrev pub concat : List Bytes → Bytes
concat [] = []
concat (c ∷ cs) = c ++ concat cs

-- What is put into the broadcast channel.
abbrev pub sent : List Effect → List Bytes
sent [] = []
sent (recorded header payload ∷ es) = sent es
sent (to_all bs ∷ es) = bs ∷ sent es

sent-append : (es fs : List Effect) → sent (es ++ fs) ≡ sent es ++ sent fs
sent-append [] fs = refl
sent-append (recorded h p ∷ es) fs = sent-append es fs
sent-append (to_all bs ∷ es) fs = ap (◌∷◌ bs) (sent-append es fs)

sent-frame_effects :
    (env : Env) (header payload : Bytes) (es : List Effect)
    → sent (frame_effects env header payload ++ es) ≡ (header ++ payload) ∷ sent es
unfolding frame_effects
sent-frame_effects env header payload es = elim (Bool-cases env.recording) [
  | inl e ↦ rw e refl
  | inr e ↦ rw e refl
]

read_exact-append :
    (n : ℕ) (xs ys : Bytes) → length xs ≡ n → read_exact n (xs ++ ys) ≡ some (xs, ys)
unfolding read_exact
read_exact-append n xs ys e = rw (
  ltb_le (length (xs ++ ys)) n (omega (arith, length-append xs ys)),
  take-append_length n xs ys e,
  drop-append_length n xs ys e,
)

next_frame-frame :
    (f : Frame) (rest : Bytes)
    → IsFrame f
    → next_frame (frame_bytes f ++ rest) ≡ frame f.header f.payload rest
unfolding next_frame read_payload
next_frame-frame f rest v = rw (append_assoc f.header f.payload rest) (
    rw (read_exact-append header_size f.header (f.payload ++ rest) v.whole, next_frame)
      (rw (ltb_le max_frame_size (parse f.header).size v.bounded, read_payload)
        (rw (read_exact-append (parse f.header).size f.payload rest v.sized))))

-- The reader after the frames.
abbrev pub counted : Env → List Frame → Reader → Reader
counted env [] r = r
counted env (f ∷ fs) r = counted env fs (count_frame env f.header f.payload r)
