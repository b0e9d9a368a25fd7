-- ===== src/Knowledge/Polling.antt =====
-- The poll of a knowledge base: refresh keeps the old state where its comparison finds no difference.
use recif.Base.{
  ==_iff, ◌≡◌, refl, sym, ap, ap₂, ◌∙◌, Bool, true, false, ◌&&◌, ◌||◌, Option, none, some, List, [],
  ◌∷◌, map, any, arith, ℕ, if◌then◌else◌,
}
use mathlib.Core.Option
use recif.Text.{Text}
use recif.Text.Equality.{text_eq_sound}
use recif.Chat.{same_cid}
use recif.Knowledge.{
  DocumentStatus, pending, processing, ready, error, KbStatus, kb_ready, kb_processing, kb_empty,
  KbDocument, KnowledgeBase, KnowledgePage, is_active_status, same_status, same_kb_status, same_doc,
  same_docs, same_kb, refresh, has_active,
}

-- What sameDocs and sameKB compare of a document and of the knowledge base.
pub record ComparedDoc : Type 0 where
  pub id : Text
  pub status : DocumentStatus
  pub chunk_count : ℕ
  pub error : Option Text

abbrev pub compared_doc : KbDocument → ComparedDoc
compared_doc d = record {
  id = d.id;
  status = d.status;
  chunk_count = d.chunk_count;
  error = d.error;
}

pub record ComparedKb : Type 0 where
  pub id : Text
  pub status : KbStatus
  pub doc_count : ℕ
  pub chunk_count : ℕ

abbrev pub compared_kb : Option KnowledgeBase → Option ComparedKb
compared_kb none = none
compared_kb (some k) =
    some (record {
      id = k.id;
      status = k.status;
      doc_count = k.doc_count;
      chunk_count = k.chunk_count;
    })

same_status_sound : (a b : DocumentStatus) → same_status a b ≡ true → a ≡ b
unfolding same_status
same_status_sound pending pending h = refl
same_status_sound pending processing h = cc h
same_status_sound pending ready h = cc h
same_status_sound pending error h = cc h
same_status_sound processing pending h = cc h
same_status_sound processing processing h = refl
same_status_sound processing ready h = cc h
same_status_sound processing error h = cc h
same_status_sound ready pending h = cc h
same_status_sound ready processing h = cc h
same_status_sound ready ready h = refl
same_status_sound ready error h = cc h
same_status_sound error pending h = cc h
same_status_sound error processing h = cc h
same_status_sound error ready h = cc h
same_status_sound error error h = refl

same_kb_status_sound : (a b : KbStatus) → same_kb_status a b ≡ true → a ≡ b
unfolding same_kb_status
same_kb_status_sound kb_ready kb_ready h = refl
same_kb_status_sound kb_ready kb_processing h = cc h
same_kb_status_sound kb_ready kb_empty h = cc h
same_kb_status_sound kb_processing kb_ready h = cc h
same_kb_status_sound kb_processing kb_processing h = refl
same_kb_status_sound kb_processing kb_empty h = cc h
same_kb_status_sound kb_empty kb_ready h = cc h
same_kb_status_sound kb_empty kb_processing h = cc h
same_kb_status_sound kb_empty kb_empty h = refl

same_cid_sound : (a b : Option Text) → same_cid a b ≡ true → a ≡ b
unfolding same_cid
same_cid_sound none none h = refl
same_cid_sound none (some t) h = cc h
same_cid_sound (some s) none h = cc h
same_cid_sound (some s) (some t) h = ap some (text_eq_sound s t h)

and_left : (a b : Bool) → (a && b) ≡ true → a ≡ true
and_left a b h = ground (arith, h)

and_right : (a b : Bool) → (a && b) ≡ true → b ≡ true
and_right a b h = ground (arith, h)

same_doc_sound : (x y : KbDocument) → same_doc x y ≡ true → compared_doc x ≡ compared_doc y
unfolding same_doc
same_doc_sound x y h =
    let rest = and_right _ _ h in
    let tail = and_right _ _ rest in
    let same_id = text_eq_sound x.id y.id (and_left _ _ h) in
    let same_st = same_status_sound x.status y.status (and_left _ _ rest) in
    let same_n = (==_iff x.chunk_count y.chunk_count).0 (and_left _ _ tail) in
    let same_err = same_cid_sound x.error y.error (and_right _ _ tail) in
    rw (same_id, same_st, same_n, same_err) refl

same_docs_sound :
    (xs ys : List KbDocument) → same_docs xs ys ≡ true → map compared_doc xs ≡ map compared_doc ys
unfolding same_docs
same_docs_sound [] [] h = refl
same_docs_sound [] (y ∷ ys) h = cc h
same_docs_sound (x ∷ xs) [] h = cc h
same_docs_sound (x ∷ xs) (y ∷ ys) h =
    ap₂ (λ r rs. r ∷ rs) (same_doc_sound x y (and_left _ _ h))
      (same_docs_sound xs ys (and_right _ _ h))

same_kb_sound : (a b : Option KnowledgeBase) → same_kb a b ≡ true → compared_kb a ≡ compared_kb b
unfolding same_kb
same_kb_sound none none h = refl
same_kb_sound none (some b) h = cc h
same_kb_sound (some a) none h = cc h
same_kb_sound (some a) (some b) h =
    let rest = and_right _ _ h in
    let tail = and_right _ _ rest in
    let same_id = text_eq_sound a.id b.id (and_left _ _ h) in
    let same_st = same_kb_status_sound a.status b.status (and_left _ _ rest) in
    let docs = (==_iff a.doc_count b.doc_count).0 (and_left _ _ tail) in
    let chunks = (==_iff a.chunk_count b.chunk_count).0 (and_right _ _ tail) in
    rw (same_id, same_st, docs, chunks) refl

-- Keeping the old value or taking the new one gives the same view if the test is sound for it.
either_way {ℓ κ} :
    {A : Type ℓ} {B : Type κ} (view : A → B) (test : Bool) (old new : A)
    → (test ≡ true → view old ≡ view new)
    → view (if test then old else new) ≡ view new
either_way view true old new h = h refl
either_way view false old new h = refl

-- Whether a document is still worked on shows in what is compared of it.
active-compared :
    (ds es : List KbDocument)
    → map compared_doc ds ≡ map compared_doc es
    → any (λ (d : KbDocument). is_active_status d.status) ds
      ≡ any (λ (d : KbDocument). is_active_status d.status) es
active-compared ds es h = sym (by_view ds) ∙ ap active_in h ∙ by_view es
  where
    active_in : List ComparedDoc → Bool
    active_in rs = any (λ (r : ComparedDoc). is_active_status r.status) rs

    by_view :
        (ds : List KbDocument)
        → active_in (map compared_doc ds) ≡ any (λ (d : KbDocument). is_active_status d.status) ds
    by_view [] = refl
    by_view (d ∷ ds) = ap (is_active_status d.status ||◌) (by_view ds)

-- What the response to the request for the documents holds, none if it has none.
abbrev pub docs_of : Option (Option (List KbDocument)) → List KbDocument
docs_of docs_res = Option.get_or (Option.get_or docs_res none) []

-- A refresh that gets the knowledge base returns the documents of the response, none if these could
-- not be read. Although it keeps the old state where its comparison finds no difference, the page then
-- has the id, the status and the counts of the new knowledge base, and as many documents as came, in
-- their order, each with the id, the status, the number of chunks and the error that came with it; and
-- the poll goes on exactly if one of those that came is still worked on.
pub refresh-compared :
    (next_kb : Option KnowledgeBase) (docs_res : Option (Option (List KbDocument)))
    (page : KnowledgePage)
    → ((refresh (some next_kb) docs_res page).1 ≡ docs_of docs_res)
      × (compared_kb (refresh (some next_kb) docs_res page).0.kb ≡ compared_kb next_kb)
      × (map compared_doc (refresh (some next_kb) docs_res page).0.docs
          ≡ map compared_doc (docs_of docs_res))
      × (has_active (refresh (some next_kb) docs_res page).0
          ≡ any (λ (d : KbDocument). is_active_status d.status) (docs_of docs_res))
unfolding refresh
refresh-compared next_kb docs_res page = (
  refl,
  either_way compared_kb (same_kb page.kb next_kb) page.kb next_kb (same_kb_sound page.kb next_kb),
  same,
  active-compared _ (docs_of docs_res) same,
)
  where
    same :
        map compared_doc
          (if same_docs page.docs (docs_of docs_res) then page.docs else docs_of docs_res)
        ≡ map compared_doc (docs_of docs_res)
    same =
        either_way (map compared_doc) (same_docs page.docs (docs_of docs_res)) page.docs
          (docs_of docs_res) (same_docs_sound page.docs (docs_of docs_res))
