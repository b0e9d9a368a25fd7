-- ===== src/Knowledge/Uploads.antt =====
-- The queue of uploads: the loop over the indices against what it is to do to each file.
use recif.Base.{
  ℕ, ◌+◌, ◌<◌, ◌≡◌, refl, sym, ap, ap₂, ◌∙◌, Bool-cases, inl, inr, List, [], ◌∷◌, ◌++◌, map, length,
  length-append, arith, append_assoc, append-nil, if◌then◌else◌,
}
use recif.Text.{Text}
use recif.Knowledge.{
  UploadFile, KnowledgePage, update_at, Ingested, is_queued, start_upload, close_upload,
  ingest_from, start_ingestion, QueueEdit, added, edit_queue, new_upload,
}

-- What the ingestion does to one file.
abbrev pub ingested : (Text → Ingested) → UploadFile → UploadFile
ingested server f = if is_queued f then close_upload (server f.file) (start_upload f) else f

module _ {ℓ} {A : Type ℓ} (g : A → A) where
  update_at-behind : (i k : ℕ) (xs : List A) → i < k → update_at i g k xs ≡ xs
  update_at-behind i k [] h = refl
  update_at-behind i k (x ∷ xs) h =
      ap₂ (λ y ys. y ∷ ys) (ground (arith, h)) (update_at-behind i (k + 1) xs (omega (arith, h)))

  update_at-there :
      (k : ℕ) (pre : List A) (x : A) (xs : List A)
      → update_at (k + length pre) g k (pre ++ x ∷ xs) ≡ pre ++ g x ∷ xs
  update_at-there k [] x xs =
      ap₂ (λ y ys. y ∷ ys) (ground arith) (update_at-behind (k + 0) (k + 1) xs (omega arith))
  update_at-there k (y ∷ pre) x xs =
      ap₂ (λ z zs. z ∷ zs) (ground arith)
        (ap (λ i. update_at i g (k + 1) (pre ++ x ∷ xs)) (omega arith)
          ∙ update_at-there (k + 1) pre x xs)

pub update_at-here {ℓ} :
    {A : Type ℓ} (g : A → A) (pre : List A) (x : A) (xs : List A)
    → update_at (length pre) g 0 (pre ++ x ∷ xs) ≡ pre ++ g x ∷ xs
update_at-here g pre x xs =
    ap (λ i. update_at i g 0 (pre ++ x ∷ xs)) (omega arith) ∙ update_at-there g 0 pre x xs

-- The edits that only add files.
abbrev pub additions : List (List Text) → List QueueEdit
additions = map added

-- The files of several lists, as they are put into the queue.
abbrev pub new_uploads : List (List Text) → List UploadFile
new_uploads [] = []
new_uploads (files ∷ more) = map new_upload files ++ new_uploads more

edit_queue-additions :
    (more : List (List Text)) (now : List UploadFile)
    → edit_queue (additions more) now ≡ now ++ new_uploads more
unfolding edit_queue
edit_queue-additions [] now = sym (append-nil now)
edit_queue-additions (files ∷ more) now =
    edit_queue-additions more (now ++ map new_upload files)
    ∙ append_assoc now (map new_upload files) (new_uploads more)

-- The files that are added during the requests for the files from index `i` on.
abbrev pub added_from : (ℕ → List (List Text)) → ℕ → List UploadFile → List UploadFile
added_from more i [] = []
added_from more i (f ∷ fs) =
    (if is_queued f then new_uploads (more i) else []) ++ added_from more (i + 1) fs

-- One file of the loop.
one_file :
    (server : Text → Ingested) (more : List (List Text)) (pre : List UploadFile) (f : UploadFile)
    (fs : List UploadFile)
    → (if is_queued f
        then update_at
            (length pre)
            (close_upload (server f.file))
            0
            (edit_queue (additions more) (update_at (length pre) start_upload 0 (pre ++ f ∷ fs)))
        else pre ++ f ∷ fs)
      ≡ pre ++ ingested server f ∷ (fs ++ (if is_queued f then new_uploads more else []))
one_file server more pre f fs = elim (Bool-cases (is_queued f)) [
  | inl waits ↦ rw waits (
      ap
        (λ now.
          update_at (length pre) (close_upload (server f.file)) 0 (edit_queue (additions more) now))
        (update_at-here start_upload pre f fs)
      ∙ ap (update_at (length pre) (close_upload (server f.file)) 0) (
          edit_queue-additions more (pre ++ start_upload f ∷ fs)
          ∙ append_assoc pre (start_upload f ∷ fs) (new_uploads more))
      ∙ update_at-here (close_upload (server f.file)) pre (start_upload f) (fs ++ new_uploads more))
  | inr over ↦ rw over (ap (λ rest. pre ++ f ∷ rest) (sym (append-nil fs)))
]

ingest_from-map :
    (server : Text → Ingested) (more : ℕ → List (List Text)) (pre fs late : List UploadFile)
    → ingest_from server (λ i. additions (more i)) (length pre) fs (pre ++ (fs ++ late))
      ≡ pre ++ (map (ingested server) fs ++ (late ++ added_from more (length pre) fs))
unfolding ingest_from
ingest_from-map server more pre [] late = ap (pre ++◌) (sym (append-nil late))
ingest_from-map server more pre (f ∷ fs) late =
    let came = if is_queued f then new_uploads (more (length pre)) else [] in
    let done = pre ++ ingested server f ∷ [] in
    let next : length pre + 1 ≡ length done = sym (length-append pre (ingested server f ∷ [])) in
    ap (ingest_from server (λ i. additions (more i)) (length pre + 1) fs) (
      one_file server (more (length pre)) pre f (fs ++ late)
      ∙ ap (λ rest. pre ++ ingested server f ∷ rest) (append_assoc fs late came)
      ∙ sym (append_assoc pre (ingested server f ∷ []) (fs ++ (late ++ came))))
    ∙ ap (λ i. ingest_from server (λ i. additions (more i)) i fs (done ++ (fs ++ (late ++ came))))
        next
    ∙ ingest_from-map server more done fs (late ++ came)
    ∙ append_assoc pre (ingested server f ∷ []) _
    ∙ ap (λ rest. pre ++ ingested server f ∷ (map (ingested server) fs ++ rest))
        (append_assoc late came _ ∙ ap (λ i. late ++ (came ++ added_from more i fs)) (sym next))

-- One run of the ingestion, during whose requests the user may add files, but removes none and does
-- not start it again: each file that was queued at the start goes through its upload, in its own
-- place, and is done if the server answers with success, and failed with the message otherwise. The
-- other files stay as they are, and the added ones wait behind them, in the order in which they were
-- added.
pub start_ingestion-map :
    (server : Text → Ingested) (more : ℕ → List (List Text)) (page : KnowledgePage)
    → start_ingestion server (λ i. additions (more i)) page ≡ record page {
      upload_files = map (ingested server) page.upload_files ++ added_from more 0 page.upload_files;
    }
unfolding start_ingestion
start_ingestion-map server more page =
    ap (λ fs. record page { upload_files = fs })
      (ap (ingest_from server (λ i. additions (more i)) 0 page.upload_files)
          (sym (append-nil page.upload_files))
        ∙ ingest_from-map server more [] page.upload_files [])
