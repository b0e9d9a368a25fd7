-- ===== src/Knowledge.antt =====
-- One knowledge base, dashboard/src/app/(dashboard)/knowledge/[id]/page.tsx: the documents that are
-- polled, and the queue of uploads.
pub mod Uploads
pub mod Shifted
pub mod Polling
mod Tests
use mathlib.Core.Option
use recif.Base.{
  ℕ, zero, suc, ◌+◌, ◌==◌, Bool, true, false, not, ◌&&◌, ◌||◌, Option, none, some, List, [], ◌∷◌,
  ◌++◌, map, filter, any, if◌then◌else◌,
}
use recif.Text.{Text, codes, text_eq}
use recif.Text.Decimal.{decimal}
use recif.Chat.{same_cid}
use recif.Chat.Send.{is_ok}

pub data DocumentStatus : Type 0 where
  pending processing ready error : DocumentStatus

pub data KbStatus : Type 0 where
  kb_ready kb_processing kb_empty : KbStatus

pub record KbDocument : Type 0 where
  pub id : Text
  pub filename : Text
  pub status : DocumentStatus
  pub chunk_count : ℕ
  pub content_type : Text
  pub created_at : Text
  pub error : Option Text

pub record KnowledgeBase : Type 0 where
  pub id : Text
  pub name : Text
  pub description : Text
  pub doc_count : ℕ
  pub chunk_count : ℕ
  pub embedding_model : Text
  pub chunk_size : ℕ
  pub chunk_overlap : ℕ
  pub status : KbStatus
  pub created_at : Text

abbrev pub is_active_status : DocumentStatus → Bool
is_active_status pending = true
is_active_status processing = true
is_active_status ready = false
is_active_status error = false

unfoldable pub same_status : DocumentStatus → DocumentStatus → Bool
same_status pending pending = true
same_status processing processing = true
same_status ready ready = true
same_status error error = true
same_status _ _ = false

unfoldable pub same_kb_status : KbStatus → KbStatus → Bool
same_kb_status kb_ready kb_ready = true
same_kb_status kb_processing kb_processing = true
same_kb_status kb_empty kb_empty = true
same_kb_status _ _ = false

unfoldable pub same_doc : KbDocument → KbDocument → Bool
same_doc x y =
    text_eq x.id y.id
    && (same_status x.status y.status
        && (x.chunk_count == y.chunk_count && same_cid x.error y.error))

-- sameDocs: the lengths are compared first, then the documents one by one.
unfoldable pub same_docs : List KbDocument → List KbDocument → Bool
same_docs [] [] = true
same_docs (x ∷ xs) (y ∷ ys) = same_doc x y && same_docs xs ys
same_docs _ _ = false

-- sameKb
unfoldable pub same_kb : Option KnowledgeBase → Option KnowledgeBase → Bool
same_kb none none = true
same_kb (some a) (some b) =
    text_eq a.id b.id
    && (same_kb_status a.status b.status
        && (a.doc_count == b.doc_count && a.chunk_count == b.chunk_count))
same_kb _ _ = false

pub data UploadStatus : Type 0 where
  queued uploading done failed : UploadStatus

-- A file of the queue; the File object stands as its name.
pub record UploadFile : Type 0 where
  pub file : Text
  pub status : UploadStatus
  pub progress : ℕ
  pub error : Option Text

-- The page's state that the operations touch.
pub record KnowledgePage : Type 0 where
  pub kb : Option KnowledgeBase
  pub docs : List KbDocument
  pub upload_files : List UploadFile

-- refresh with what the two requests give, `none` where fetch or `json()` rejects; inside, the `data`
-- of the response, `none` where it is missing. It returns the new documents. A document list that
-- fails counts as an empty one; a knowledge base that fails ends the refresh.
unfoldable pub refresh :
    Option (Option KnowledgeBase)
    → Option (Option (List KbDocument))
    → KnowledgePage
    → KnowledgePage × List KbDocument
refresh none docs_res page = (page, [])
refresh (some next_kb) docs_res page =
    let next_docs = Option.get_or (Option.get_or docs_res none) [] in
    (
      record page {
        kb = if same_kb page.kb next_kb then page.kb else next_kb;
        docs = if same_docs page.docs next_docs then page.docs else next_docs;
      },
      next_docs,
    )

-- Whether the interval of the poll is there.
abbrev pub has_active : KnowledgePage → Bool
has_active page = any (λ (d : KbDocument). is_active_status d.status) page.docs

abbrev pub new_upload : Text → UploadFile
new_upload file = record { file = file; status = queued; progress = 0; error = none }

unfoldable pub add_files : List Text → KnowledgePage → KnowledgePage
add_files files page = record page { upload_files = page.upload_files ++ map new_upload files }

-- `prev.map((f, idx) => idx === i ? g(f) : f)`, on the elements from index `k` on.
abbrev pub update_at {ℓ} : {A : Type ℓ} → ℕ → (A → A) → ℕ → List A → List A
update_at i g k [] = []
update_at i g k (x ∷ xs) = (if k == i then g x else x) ∷ update_at i g (k + 1) xs

-- `prev.filter((_, i) => i !== index)`, likewise.
abbrev pub remove_at {ℓ} : {A : Type ℓ} → ℕ → ℕ → List A → List A
remove_at i k [] = []
remove_at i k (x ∷ xs) = if k == i then remove_at i (k + 1) xs else x ∷ remove_at i (k + 1) xs

unfoldable pub remove_file : ℕ → KnowledgePage → KnowledgePage
remove_file index page = record page { upload_files = remove_at index 0 page.upload_files }

-- What the ingestion of a file comes to: a status, or what is thrown, with its message if it is an
-- Error.
pub data Ingested : Type 0 where
  answered : ℕ → Ingested
  thrown : Option Text → Ingested

abbrev pub is_queued : UploadFile → Bool
is_queued f = elim f.status [ queued ↦ true | uploading ↦ false | done ↦ false | failed ↦ false ]

abbrev pub start_upload : UploadFile → UploadFile
start_upload f = record f { status = uploading; progress = 30 }

abbrev pub end_upload : UploadFile → UploadFile
end_upload f = record f { status = done; progress = 100 }

abbrev pub fail_upload : Text → UploadFile → UploadFile
fail_upload msg f = record f { status = failed; progress = 0; error = some msg }

-- The second update of a file, in the `try` or in the `catch`.
unfoldable pub close_upload : Ingested → UploadFile → UploadFile
close_upload (answered status) f =
    if is_ok status then end_upload f else fail_upload (codes "HTTP " ++ decimal status) f
close_upload (thrown (some msg)) f = fail_upload msg f
close_upload (thrown none) f = fail_upload (codes "Upload failed") f

-- What the user can do to the queue while a file is on its way: addFiles and removeFile.
pub data QueueEdit : Type 0 where
  added : List Text → QueueEdit
  removed : ℕ → QueueEdit

unfoldable pub edit_queue : List QueueEdit → List UploadFile → List UploadFile
edit_queue [] now = now
edit_queue (added files ∷ edits) now = edit_queue edits (now ++ map new_upload files)
edit_queue (removed index ∷ edits) now = edit_queue edits (remove_at index 0 now)

-- The loop of startIngestion from index `i` on. The list that it goes through is the one from its
-- start; the updates go to the list that the page has, which the user may edit during the request for
-- the file `i` by `meanwhile i`.
unfoldable pub ingest_from :
    (Text → Ingested)
    → (ℕ → List QueueEdit)
    → ℕ
    → List UploadFile
    → List UploadFile
    → List UploadFile
ingest_from server meanwhile i [] now = now
ingest_from server meanwhile i (f ∷ fs) now =
    let updated =
      if is_queued f
      then update_at i (close_upload (server f.file)) 0
          (edit_queue (meanwhile i) (update_at i start_upload 0 now))
      else now in
    ingest_from server meanwhile (i + 1) fs updated

-- startIngestion, without the refresh behind it.
unfoldable pub start_ingestion :
    (Text → Ingested) → (ℕ → List QueueEdit) → KnowledgePage → KnowledgePage
start_ingestion server meanwhile page = record page {
  upload_files = ingest_from server meanwhile 0 page.upload_files page.upload_files;
}

-- handleDeleteDocument once the user agrees, up to its refresh; `none` is a request that is thrown,
-- which is told apart nowhere in the state.
unfoldable pub delete_document : Option ℕ → Text → KnowledgePage → KnowledgePage
delete_document none id page = page
delete_document (some status) id page =
    if not (is_ok status) && not (status == 204)
    then page
    else record page { docs = filter (λ (d : KbDocument). not (text_eq d.id id)) page.docs }
