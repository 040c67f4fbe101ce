-- ===== src/Recorder/Files.antt =====
-- src/recorder.rs: no frame file overwrites another, and the counts agree with the files.
use seestar_proxy.Base.{
  ℕ, suc, ◌+◌, ◌^◌, ◌<◌, ◌≡◌, refl, sym, ap, ◌∙◌, inl, inr, String, true, Bool-cases, not, ◌&&◌,
  List, [], ◌∷◌, ◌++◌, append_assoc, append-nil, arith, ◌==◌, if◌then◌else◌, length, All,
  length-append, subst,
}
use seestar_proxy.Base.Text.{Bytes}
use seestar_proxy.Protocol.{parse, is_image}
use seestar_proxy.Recorder.{
  FrameName, Files, write, Recorder, new, record_image, record_frame, kind, manifest,
}

-- The header and the payload of a frame, as `record_frame` takes them.
abbrev pub Frame : Type 0
Frame = Bytes × Bytes

abbrev pub record_frames : List Frame → Recorder → Recorder
record_frames [] r = r
record_frames ((header, payload) ∷ fs) r = record_frames fs (record_frame header payload r)

-- A stacked image has the id 23, any other image is a preview.
abbrev pub stack_id : ℕ
stack_id = 23

abbrev file_name : ℕ → Bytes → FrameName
file_name n header =
    if (parse header).id == stack_id
    then record { idx = n; kind = "stack" }
    else record { idx = n; kind = "preview" }

-- The image frames among them, numbered from `n`, each as a file.
abbrev pub numbered : ℕ → List Frame → Files
numbered n [] = []
numbered n ((header, payload) ∷ fs) =
    if is_image (parse header)
    then (file_name n header, header ++ payload) ∷ numbered (suc n) fs
    else numbered n fs

-- How many of them are previews, and how many are stacked images.
abbrev pub previews : List Frame → ℕ
previews [] = 0
previews ((header, payload) ∷ fs) =
    (if is_image (parse header) && not ((parse header).id == stack_id) then 1 else 0) + previews fs

abbrev pub stacks : List Frame → ℕ
stacks [] = 0
stacks ((header, payload) ∷ fs) =
    (if is_image (parse header) && (parse header).id == stack_id then 1 else 0) + stacks fs

-- The name under which `record_image` writes is that.
file_name_lem :
    (n : ℕ) (header : Bytes) → file_name n header ≡ record { idx = n; kind = kind header }
file_name_lem n header = elim (Bool-cases ((parse header).id == 23)) [
  | inl e ↦ rw (file_name, kind, e) refl
  | inr e ↦ rw (file_name, kind, e) refl
]

abbrev IsBelow : ℕ → Files → Type 0
IsBelow n = All (λ f. f.0.idx < n)

write_new :
    (n : ℕ) (k : String) (contents : Bytes) (files : Files)
    → IsBelow n files
    → write (record { idx = n; kind = k }) contents files
      ≡ files ++ (record { idx = n; kind = k }, contents) ∷ []
unfolding write
write_new n k contents [] below = refl
write_new n k contents ((name, d) ∷ files) below =
    ground (arith, write_new n k contents files below.1)

IsBelow-append :
    (n : ℕ) (k : String) (contents : Bytes) (files : Files)
    → IsBelow n files
    → IsBelow (suc n) (files ++ (record { idx = n; kind = k }, contents) ∷ [])
IsBelow-append n k contents [] below = (omega arith, tt)
IsBelow-append n k contents (f ∷ files) below =
    (omega (arith, below.0), IsBelow-append n k contents files below.1)

-- The recorder after some frames.
record IsRecording (r : Recorder) : Type 0 where
  below : IsBelow r.frame_counter r.frames
  counted : r.frame_counter ≡ r.preview_count + r.stack_count

Stored : List Frame → Recorder → Type 0
Stored fs r =
    ((record_frames fs r).frames ≡ r.frames ++ numbered r.frame_counter fs)
    × ((record_frames fs r).frame_counter ≡ r.frame_counter + length (numbered r.frame_counter fs))
    × ((record_frames fs r).preview_count ≡ r.preview_count + previews fs)
    × ((record_frames fs r).stack_count ≡ r.stack_count + stacks fs)

-- One image frame recorded.
Adds : Bytes → Bytes → Recorder → Recorder → Type 0
Adds header payload r r' =
    (r'.frame_counter ≡ suc r.frame_counter)
    × (r'.frames
        ≡ r.frames
          ++ (record { idx = r.frame_counter; kind = kind header }, header ++ payload) ∷ [])
    × (r'.preview_count ≡ r.preview_count + (if (parse header).id == stack_id then 0 else 1))
    × (r'.stack_count ≡ r.stack_count + (if (parse header).id == stack_id then 1 else 0))

record_image-Adds :
    (header payload : Bytes) (r : Recorder)
    → IsRecording r
    → r.frame_counter + 1 < 2 ^ 32
    → Adds header payload r (record_image header payload r)
unfolding Adds record_image
record_image-Adds header payload r v room =
    let stored = write_new r.frame_counter (kind header) (header ++ payload) r.frames v.below in
    (
      omega arith,
      stored,
      elim (Bool-cases ((parse header).id == 23)) [
        | inl e ↦ rw e (omega arith)
        | inr e ↦ rw e (omega (arith, v.counted))
      ],
      elim (Bool-cases ((parse header).id == 23)) [
        | inl e ↦ rw e (omega (arith, v.counted))
        | inr e ↦ rw e (omega arith)
      ],
    )

record_image-IsRecording :
    (header payload : Bytes) (r r' : Recorder)
    → IsRecording r
    → Adds header payload r r'
    → IsRecording r'
unfolding Adds
record_image-IsRecording header payload r r' v (next, stored, p, s) = record {
  below = subst (IsBelow r'.frame_counter) (sym stored) (
      subst
        (λ n. IsBelow n (
          r.frames
          ++ (record { idx = r.frame_counter; kind = kind header }, header ++ payload) ∷ []))
        (sym next)
        (IsBelow-append r.frame_counter (kind header) (header ++ payload) r.frames v.below));
  counted = elim (Bool-cases ((parse header).id == 23)) [
    | inl e ↦ omega (arith, next, v.counted, rw e at p, rw e at s)
    | inr e ↦ omega (arith, next, v.counted, rw e at p, rw e at s)
  ];
}

Stored-cons :
    (header payload : Bytes) (fs : List Frame) (r r' : Recorder) (files : Files)
    → record_frame header payload r ≡ r'
    → numbered r.frame_counter ((header, payload) ∷ fs) ≡ files ++ numbered r'.frame_counter fs
    → r'.frames ≡ r.frames ++ files
    → r'.frame_counter ≡ r.frame_counter + length files
    → r'.preview_count + previews fs ≡ r.preview_count + previews ((header, payload) ∷ fs)
    → r'.stack_count + stacks fs ≡ r.stack_count + stacks ((header, payload) ∷ fs)
    → Stored fs r'
    → Stored ((header, payload) ∷ fs) r
unfolding Stored
Stored-cons header payload fs r r' files same more stored next p s (all, count, p', s') =
    let tail = numbered r'.frame_counter fs in
    (
      ap (λ x. (record_frames fs x).frames) same
          ∙ all
          ∙ ap (λ xs. xs ++ tail) stored
          ∙ append_assoc r.frames files tail
          ∙ sym (ap (λ xs. r.frames ++ xs) more),
      ap (λ x. (record_frames fs x).frame_counter) same
          ∙ omega (arith, count, next, ap length more, length-append files tail),
      ap (λ x. (record_frames fs x).preview_count) same ∙ p' ∙ p,
      ap (λ x. (record_frames fs x).stack_count) same ∙ s' ∙ s,
    )

-- What one frame more does to the two counts.
counts-previews :
    (header payload : Bytes) (fs : List Frame) (n m : ℕ)
    → is_image (parse header) ≡ true
    → m ≡ n + (if (parse header).id == stack_id then 0 else 1)
    → m + previews fs ≡ n + previews ((header, payload) ∷ fs)
counts-previews header payload fs n m e p = elim (Bool-cases ((parse header).id == 23)) [
  | inl f ↦ rw (previews, e, f) (omega (arith, rw f at p))
  | inr f ↦ rw (previews, e, f) (omega (arith, rw f at p))
]

counts-stacks :
    (header payload : Bytes) (fs : List Frame) (n m : ℕ)
    → is_image (parse header) ≡ true
    → m ≡ n + (if (parse header).id == stack_id then 1 else 0)
    → m + stacks fs ≡ n + stacks ((header, payload) ∷ fs)
counts-stacks header payload fs n m e p = elim (Bool-cases ((parse header).id == 23)) [
  | inl f ↦ rw (stacks, e, f) (omega (arith, rw f at p))
  | inr f ↦ rw (stacks, e, f) (omega (arith, rw f at p))
]

record_frames_from :
    (fs : List Frame) (r : Recorder)
    → IsRecording r
    → r.frame_counter + length fs < 2 ^ 32
    → Stored fs r
unfolding Stored record_frame Adds
record_frames_from [] r v room = (sym (append-nil r.frames), omega arith, omega arith, omega arith)
record_frames_from ((header, payload) ∷ fs) r v room = elim (Bool-cases (is_image (parse header))) [
  | inr e ↦
      Stored-cons header payload fs r r [] (rw (e, record_frame)) (rw e) (sym (append-nil r.frames))
        (omega arith) (rw (previews, e) (omega arith)) (rw (stacks, e) (omega arith))
        (record_frames_from fs r v (omega arith))
  | inl e ↦
      let r' = record_image header payload r in
      let adds : Adds header payload r r' = record_image-Adds header payload r v (omega arith) in
      let (next, stored, p, s) = adds in
      let f : FrameName × Bytes =
        (record { idx = r.frame_counter; kind = kind header }, header ++ payload) in
      Stored-cons header payload fs r r' (f ∷ []) (rw (e, record_frame))
        (subst (λ n. numbered r.frame_counter ((header, payload) ∷ fs) ≡ f ∷ numbered n fs)
          (sym next)
          (rw e (
            ap (λ n. (n, header ++ payload) ∷ numbered (suc r.frame_counter) fs)
              (file_name_lem r.frame_counter header))))
        stored (omega (arith, next))
        (counts-previews header payload fs r.preview_count r'.preview_count e p)
        (counts-stacks header payload fs r.stack_count r'.stack_count e s)
        (record_frames_from fs r' (record_image-IsRecording header payload r r' v adds)
          (omega (arith, next)))
]

-- In a directory without frame files, the recorder stores exactly the image frames among those that
-- it is given, each whole, in order, numbered from 0 and named by its kind, `stack` for the id 23 and
-- `preview` for any other image; and its manifest has their number, that of the previews and that of
-- the stacked images, as long as the 32-bit counter does not wrap.
pub record_frames_lem :
    (fs : List Frame)
    → length fs < 2 ^ 32
    → let r = record_frames fs (new []) in
      (r.frames ≡ numbered 0 fs)
      × ((manifest r).frame_count ≡ length r.frames)
      × ((manifest r).preview_frame_count ≡ previews fs)
      × ((manifest r).stack_frame_count ≡ stacks fs)
unfolding new manifest Stored
record_frames_lem fs room =
    let (stored, count, p, s) =
      record_frames_from fs (new []) (record { below = tt; counted = refl }) (omega arith) in
    (stored, omega (arith, count, ap length stored), omega (arith, p), omega (arith, s))
