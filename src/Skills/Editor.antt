-- ===== src/Skills/Editor.antt =====
-- KeyValueEditor: the files of a skill, an object whose own keys are their names. The order that
-- Object.keys gives to keys that are numbers is left out. A key that the object does not have itself
-- may be one that it inherits from Object.prototype, and what is read there is truthy.
use recif.Base.{
  ◌≡◌, refl, sym, ap, ◌∙◌, inl, inr, Bool, true, false, not, ◌||◌, Bool-cases, Option, Option-cases,
  none, some, List, [], ◌∷◌, if◌then◌else◌, arith,
}
use recif.Text.{Text, codes, text_eq, trim}
use recif.Text.Equality.{text_eq_refl, text_eq_sound}
use recif.Json.{nonempty}
use recif.Maps.{Map, map_get, map_set, map_delete}
use recif.Maps.Keys.{map_get-map_set, map_get-map_delete}
use recif.Skills.{contains}

pub record KeyValueEditor : Type 0 where
  pub entries : Map Text
  pub new_key : Text

-- The names of Object.prototype
unfoldable pub inherited : List Text
inherited =
    codes "constructor"
    ∷ codes "__defineGetter__"
    ∷ codes "__defineSetter__"
    ∷ codes "hasOwnProperty"
    ∷ codes "__lookupGetter__"
    ∷ codes "__lookupSetter__"
    ∷ codes "isPrototypeOf"
    ∷ codes "propertyIsEnumerable"
    ∷ codes "toString"
    ∷ codes "valueOf"
    ∷ codes "__proto__"
    ∷ codes "toLocaleString"
    ∷ []

-- Whether `entries[k]` is truthy
unfoldable pub entry_truthy : Text → Map Text → Bool
entry_truthy k m = elim (map_get k m) [ some v ↦ nonempty v | none ↦ contains k inherited ]

unfoldable pub add_entry : KeyValueEditor → KeyValueEditor
add_entry e =
    let k = trim e.new_key in
    if not (nonempty k) || entry_truthy k e.entries
    then e
    else record { entries = map_set k [] e.entries; new_key = [] }

unfoldable pub remove_entry : Text → KeyValueEditor → KeyValueEditor
remove_entry k e = record e { entries = map_delete k e.entries }

unfoldable pub update_content : Text → Text → KeyValueEditor → KeyValueEditor
update_content k content e = record e { entries = map_set k content e.entries }

-- What the user does in the editor.
pub data FileEdit : Type 0 where
  type_key : Text → FileEdit
  add : FileEdit
  remove : Text → FileEdit
  update : Text → Text → FileEdit

unfoldable pub edit_file : FileEdit → KeyValueEditor → KeyValueEditor
edit_file (type_key k) e = record e { new_key = k }
edit_file add e = add_entry e
edit_file (remove k) e = remove_entry k e
edit_file (update k content) e = update_content k content e

unfoldable pub edit_files : List FileEdit → KeyValueEditor → KeyValueEditor
edit_files [] e = e
edit_files (x ∷ xs) e = edit_files xs (edit_file x e)

-- What the edits that name the file make of its content.
unfoldable pub content_after : Text → List FileEdit → Text → Text
content_after k [] t = t
content_after k (type_key _ ∷ xs) t = content_after k xs t
content_after k (add ∷ xs) t = content_after k xs t
content_after k (remove j ∷ xs) t = content_after k xs (if text_eq j k then [] else t)
content_after k (update j content ∷ xs) t = content_after k xs (if text_eq j k then content else t)

-- The content of a file, empty if there is none.
abbrev pub content_of : Option Text → Text
content_of none = []
content_of (some t) = t

falsy-content : (k : Text) (m : Map Text) → entry_truthy k m ≡ false → content_of (map_get k m) ≡ []
unfolding entry_truthy
falsy-content k m h = elim (Option-cases (map_get k m)) [
  | inl missing ↦ rw missing refl
  | inr ([], e) ↦ rw e refl
  | inr (c ∷ t, e) ↦ absurd (cc (rw (e, entry_truthy) at h))
]

module _ (k : Text) where
  add_entry-content :
      (e : KeyValueEditor)
      → content_of (map_get k (add_entry e).entries) ≡ content_of (map_get k e.entries)
  unfolding add_entry
  add_entry-content e = elim (Bool-cases (nonempty (trim e.new_key))) [
    | inr blank ↦ rw blank refl
    | inl named ↦ elim (Bool-cases (entry_truthy (trim e.new_key) e.entries)) [
      | inl taken ↦ rw (named, taken) refl
      | inr free ↦
          rw (named, free, map_get-map_set k (trim e.new_key) [] e.entries)
            (elim (Bool-cases (text_eq (trim e.new_key) k)) [
              | inr other ↦ rw other refl
              | inl same ↦ rw same (
                  sym (falsy-content (trim e.new_key) e.entries free)
                  ∙ ap (λ j. content_of (map_get j e.entries))
                      (text_eq_sound (trim e.new_key) k same))
            ])
    ]
  ]

  set-content :
      (j content : Text) (m : Map Text)
      → content_of (map_get k (map_set j content m))
        ≡ (if text_eq j k then content else content_of (map_get k m))
  set-content j content m = rw (map_get-map_set k j content m) (ground arith)

  delete-content :
      (j : Text) (m : Map Text)
      → content_of (map_get k (map_delete j m))
        ≡ (if text_eq j k then [] else content_of (map_get k m))
  delete-content j m = rw (map_get-map_delete k j m) (ground arith)

  -- Whatever is typed, added, removed and updated: the content of a file is what the edits that name
  -- it made of it. To add a file never changes the content of any, that of the same name included.
  pub edit_files-content :
      (xs : List FileEdit) (e : KeyValueEditor)
      → content_of (map_get k (edit_files xs e).entries)
        ≡ content_after k xs (content_of (map_get k e.entries))
  unfolding edit_files edit_file content_after remove_entry update_content
  edit_files-content [] e = refl
  edit_files-content (type_key j ∷ xs) e = edit_files-content xs (record e { new_key = j })
  edit_files-content (add ∷ xs) e =
      edit_files-content xs (add_entry e) ∙ ap (content_after k xs) (add_entry-content e)
  edit_files-content (remove j ∷ xs) e =
      edit_files-content xs (remove_entry j e)
      ∙ ap (content_after k xs) (delete-content j e.entries)
  edit_files-content (update j content ∷ xs) e =
      edit_files-content xs (update_content j content e)
      ∙ ap (content_after k xs) (set-content j content e.entries)

-- A name that no file has and that is not blank is added, with an empty content, unless every object
-- inherits it, as "constructor": then the button does nothing.
pub add_entry-added :
    (e : KeyValueEditor)
    → nonempty (trim e.new_key) ≡ true
    → map_get (trim e.new_key) e.entries ≡ none
    → map_get (trim e.new_key) (add_entry e).entries
      ≡ (if contains (trim e.new_key) inherited then none else some [])
unfolding add_entry entry_truthy
add_entry-added e named missing = elim (Bool-cases (contains (trim e.new_key) inherited)) [
  | inl known ↦ rw (named, missing, known, entry_truthy) missing
  | inr ordinary ↦
      rw (named, entry_truthy, missing, ordinary)
        (map_get-map_set (trim e.new_key) (trim e.new_key) [] e.entries
          ∙ rw (text_eq_refl (trim e.new_key)) refl)
]
