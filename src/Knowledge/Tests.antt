-- ===== src/Knowledge/Tests.antt =====
-- Runs of the page of a knowledge base.
use recif.Base.{ℕ, List, ◌==◌, if◌then◌else◌, refl, ◌≡◌, true, false, none, some, [], ◌∷◌, map}
use recif.Text.{Text, codes, text_eq}
use recif.Knowledge.{
  ready, processing, KbDocument, KnowledgePage, Ingested, answered, thrown, new_upload,
  start_ingestion, close_upload, end_upload, fail_upload, has_active, refresh,
}
use recif.Knowledge.Uploads.{additions, start_ingestion-map}
use recif.Knowledge.Shifted.{second_removed, start_ingestion-shifted}
use recif.Knowledge.Polling.{compared_kb, compared_doc, refresh-compared}

abbrev document : KbDocument
document = record {
  id = codes "d1";
  filename = codes "a.txt";
  status = processing;
  chunk_count = 0;
  content_type = codes "text/plain";
  created_at = [];
  error = none;
}

abbrev page : KnowledgePage
page = record {
  kb = none;
  docs = document ∷ [];
  upload_files = new_upload (codes "b.txt") ∷ new_upload (codes "c.txt") ∷ [];
}

-- The server takes one file only.
abbrev server : Text → Ingested
server file = elim (text_eq file (codes "b.txt")) [ true ↦ answered 202 | false ↦ thrown none ]

-- A file is added while the second one is on its way.
abbrev added_later : ℕ → List (List Text)
added_later i = if i == 1 then (codes "d.txt" ∷ []) ∷ [] else []

start_ingestion-map_example :
    start_ingestion server (λ i. additions (added_later i)) page ≡ record page {
      upload_files =
          end_upload (new_upload (codes "b.txt"))
          ∷ fail_upload (codes "Upload failed") (new_upload (codes "c.txt"))
          ∷ new_upload (codes "d.txt")
          ∷ [];
    }
unfolding text_eq close_upload
start_ingestion-map_example = start_ingestion-map server added_later page

abbrev three_files : KnowledgePage
three_files = record page {
  upload_files =
      new_upload (codes "b.txt") ∷ new_upload (codes "c.txt") ∷ new_upload (codes "b.txt") ∷ [];
}

-- The third file is shown as failed, although the server takes it.
start_ingestion-shifted_example : start_ingestion server second_removed three_files ≡ record page {
  upload_files =
      end_upload (new_upload (codes "b.txt"))
      ∷ fail_upload (codes "Upload failed") (new_upload (codes "b.txt"))
      ∷ [];
}
unfolding text_eq close_upload
start_ingestion-shifted_example =
    start_ingestion-shifted server (new_upload (codes "b.txt")) (new_upload (codes "c.txt"))
      (new_upload (codes "b.txt") ∷ []) three_files refl (refl, (refl, (refl, tt)))

abbrev done_document : KbDocument
done_document = record document { status = ready; chunk_count = 3 }

refresh-compared_example :
    ((refresh (some none) (some (some (done_document ∷ []))) page).1 ≡ done_document ∷ [])
    × (compared_kb (refresh (some none) (some (some (done_document ∷ []))) page).0.kb ≡ none)
    × (map compared_doc (refresh (some none) (some (some (done_document ∷ []))) page).0.docs
        ≡ compared_doc done_document ∷ [])
    × (has_active (refresh (some none) (some (some (done_document ∷ []))) page).0 ≡ false)
refresh-compared_example = refresh-compared none (some (some (done_document ∷ []))) page
