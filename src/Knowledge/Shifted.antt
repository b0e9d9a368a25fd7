-- ===== src/Knowledge/Shifted.antt =====
-- The queue of uploads of dashboard/src/app/(dashboard)/knowledge/[id]/page.tsx when a file is taken
-- out of it while another is on its way: the loop of startIngestion goes on by the places from its
-- start.
use recif.Base.{
  ℕ, ◌+◌, ◌≤◌, ◌<◌, ◌==◌, ◌≡◌, refl, sym, ap, ap₂, ◌∙◌, true, List, [], ◌∷◌, ◌++◌, length,
  length-append, append_assoc, append-nil, All, arith, if◌then◌else◌,
}
use recif.Text.{Text}
use recif.Knowledge.{
  UploadFile, KnowledgePage, Ingested, QueueEdit, removed, update_at, remove_at, edit_queue,
  is_queued, start_upload, close_upload, ingest_from, start_ingestion,
}
use recif.Knowledge.Uploads.{ingested, update_at-here}

-- The removal of the second file while the first is on its way, and nothing else.
abbrev pub second_removed : ℕ → List QueueEdit
second_removed i = if i == 0 then removed 1 ∷ [] else []

-- Each file that is shown with the outcome of the file that is sent in its place.
abbrev pub marked : (Text → Ingested) → List UploadFile → List UploadFile → List UploadFile
marked server [] shown = shown
marked server (f ∷ sent) [] = []
marked server (f ∷ sent) (x ∷ shown) =
    close_upload (server f.file) (start_upload x) ∷ marked server sent shown

update_at-beyond {ℓ} :
    {A : Type ℓ} (g : A → A) (i k : ℕ) (xs : List A) → k + length xs ≤ i → update_at i g k xs ≡ xs
update_at-beyond g i k [] h = refl
update_at-beyond g i k (x ∷ xs) h =
    ap₂ (λ y ys. y ∷ ys) (ground (arith, h)) (update_at-beyond g i (k + 1) xs (omega (arith, h)))

no_edits : (i : ℕ) → 1 ≤ i → second_removed i ≡ []
no_edits i h = ground (arith, h)

ingest_from-beyond :
    (server : Text → Ingested) (i : ℕ) (sent now : List UploadFile)
    → All (λ f. is_queued f ≡ true) sent
    → 1 ≤ i
    → length now ≤ i
    → ingest_from server second_removed i sent now ≡ now
unfolding ingest_from edit_queue
ingest_from-beyond server i [] now _ k h = refl
ingest_from-beyond server i (f ∷ sent) now (waits, all) k h =
    rw
      (
        waits,
        update_at-beyond start_upload i 0 now (omega (arith, h)),
        no_edits i k,
        update_at-beyond (close_upload (server f.file)) i 0 now (omega (arith, h)),
      )
      (ingest_from-beyond server (i + 1) sent now all (omega arith) (omega (arith, h)))

-- One file of the loop.
one_mark :
    (g : UploadFile → UploadFile) (pre : List UploadFile) (x : UploadFile) (shown : List UploadFile)
    → 1 ≤ length pre
    → update_at (length pre) g 0 (
        edit_queue
          (second_removed (length pre))
          (update_at (length pre) start_upload 0 (pre ++ x ∷ shown)))
      ≡ pre ++ g (start_upload x) ∷ shown
unfolding edit_queue
one_mark g pre x shown h = rw (no_edits (length pre) h) (
    ap (update_at (length pre) g 0) (update_at-here start_upload pre x shown)
    ∙ update_at-here g pre (start_upload x) shown)

ingest_from-marked :
    (server : Text → Ingested) (pre sent shown : List UploadFile)
    → All (λ f. is_queued f ≡ true) sent
    → 1 ≤ length pre
    → ingest_from server second_removed (length pre) sent (pre ++ shown)
      ≡ pre ++ marked server sent shown
unfolding ingest_from
ingest_from-marked server pre [] shown _ h = refl
ingest_from-marked server pre (f ∷ sent) [] all h =
    ap (ingest_from server second_removed (length pre) (f ∷ sent)) (append-nil pre)
    ∙ ingest_from-beyond server (length pre) (f ∷ sent) pre all h (omega arith)
    ∙ sym (append-nil pre)
ingest_from-marked server pre (f ∷ sent) (x ∷ shown) (waits, all) h =
    let mark = close_upload (server f.file) in
    let done = pre ++ mark (start_upload x) ∷ [] in
    let longer = length-append pre (mark (start_upload x) ∷ []) in
    rw waits (
      ap (ingest_from server second_removed (length pre + 1) sent)
        (one_mark mark pre x shown h ∙ sym (append_assoc pre (mark (start_upload x) ∷ []) shown))
      ∙ ap (λ i. ingest_from server second_removed i sent (done ++ shown)) (sym longer)
      ∙ ingest_from-marked server done sent shown all (omega (arith, h, longer))
      ∙ append_assoc pre (mark (start_upload x) ∷ []) (marked server sent shown))

remove_at-behind {ℓ} : {A : Type ℓ} (i k : ℕ) (xs : List A) → i < k → remove_at i k xs ≡ xs
remove_at-behind i k [] h = refl
remove_at-behind i k (x ∷ xs) h =
    let rest = remove_at-behind i (k + 1) xs (omega (arith, h)) in ground (arith, h, rest)

-- The removal of the second file.
second_gone :
    (x g : UploadFile) (fs : List UploadFile) → edit_queue (second_removed 0) (x ∷ g ∷ fs) ≡ x ∷ fs
unfolding edit_queue
second_gone x g fs = ap (λ ys. x ∷ ys) (remove_at-behind 1 2 fs (omega arith))

-- The round of the first file.
first_round :
    (server : Text → Ingested) (f g : UploadFile) (fs : List UploadFile)
    → is_queued f ≡ true
    → ingest_from server second_removed 0 (f ∷ g ∷ fs) (f ∷ g ∷ fs)
      ≡ ingest_from server second_removed 1 (g ∷ fs) (ingested server f ∷ fs)
unfolding ingest_from
first_round server f g fs waits = rw waits (
    ap (ingest_from server second_removed 1 (g ∷ fs)) (
      ap (λ q. update_at 0 (close_upload (server f.file)) 0 (edit_queue (second_removed 0) q))
        (update_at-here start_upload [] f (g ∷ fs))
      ∙ ap (update_at 0 (close_upload (server f.file)) 0) (second_gone (start_upload f) g fs)
      ∙ update_at-here (close_upload (server f.file)) [] (start_upload f) fs))

-- Where all files of the queue wait, of which there are at least two, and the second one is removed
-- while the first is on its way, and nothing else is done to the queue: the removed file is sent all
-- the same, and each file that was behind it is shown with the outcome of the file in front of it,
-- the outcome of the last file with none.
pub start_ingestion-shifted :
    (server : Text → Ingested) (f g : UploadFile) (fs : List UploadFile) (page : KnowledgePage)
    → page.upload_files ≡ f ∷ g ∷ fs
    → All (λ h. is_queued h ≡ true) (f ∷ g ∷ fs)
    → start_ingestion server second_removed page
      ≡ record page { upload_files = ingested server f ∷ marked server (g ∷ fs) fs }
unfolding start_ingestion
start_ingestion-shifted server f g fs page queue (first, (second, all)) =
    ap (λ q. record page { upload_files = ingest_from server second_removed 0 q q }) queue
    ∙ ap (λ q. record page { upload_files = q })
        (first_round server f g fs first
          ∙ ingest_from-marked server (ingested server f ∷ []) (g ∷ fs) fs (second, all)
              (omega arith))
