-- ===== src/Json.antt =====
-- JSON values, as the dashboard passes them on. A number stands as the text that String prints for
-- it, since no number of a payload is computed with.
use recif.Base.{Bool, true, false, not, Option, none, some, List, [], ◌∷◌, if◌then◌else◌}
use recif.Text.{Text, codes, text_eq}

mutual
  pub data Json : Type 0 where
    null : Json
    bool : Bool → Json
    num : Text → Json
    str : Text → Json
    arr : Items → Json
    obj : Fields → Json

  pub data Items : Type 0 where
    nil : Items
    cons : Json → Items → Items

  pub data Fields : Type 0 where
    end : Fields
    field : Text → Json → Fields → Fields

-- A text is truthy if it is not empty.
abbrev pub nonempty {ℓ} : {A : Type ℓ} → List A → Bool
nonempty [] = false
nonempty (_ ∷ _) = true

-- A field of an object; the first of its name, as no object that is read has a name twice.
unfoldable pub get_field : Text → Fields → Option Json
get_field k end = none
get_field k (field j v fs) = if text_eq k j then some v else get_field k fs

-- `v.k`, `none` for undefined
unfoldable pub get : Text → Json → Option Json
get k (obj fs) = get_field k fs
get k _ = none

-- Whether an `if` takes the value.
unfoldable pub truthy : Option Json → Bool
truthy none = false
truthy (some null) = false
truthy (some (bool b)) = b
truthy (some (num t)) = not (text_eq t (codes "0"))
truthy (some (str t)) = nonempty t
truthy (some (arr _)) = true
truthy (some (obj _)) = true
