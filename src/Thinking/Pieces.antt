-- ===== src/Thinking/Pieces.antt =====
-- A model's reply as a list of pieces, and the raw text that it is sent as: plain text and closed
-- blocks of the three tags, none of which holds a "<" of its own.
pub mod Laws
use Prim.Native.Char.{code}
use recif.Base.{ℕ, ◌≡◌, refl, ◌≢◌, List, [], ◌∷◌, ◌++◌}
use recif.Text.{Text, codes}
use recif.Text.Regions.{Free}

pub data Tag : Type 0 where
  think tool_use tool_result : Tag

pub data Piece : Type 0 where
  plain : Text → Piece
  block : Tag → Text → Piece

abbrev pub lt_sign : ℕ
lt_sign = b'<'

-- The tags behind their "<".
abbrev pub open_rest : Tag → Text
open_rest think = codes "think>"
open_rest tool_use = codes "tool_use>"
open_rest tool_result = codes "tool_result>"

abbrev pub close_rest : Tag → Text
close_rest think = codes "/think>"
close_rest tool_use = codes "/tool_use>"
close_rest tool_result = codes "/tool_result>"

abbrev pub opening : Tag → Text
opening tag = lt_sign ∷ open_rest tag

abbrev pub closing : Tag → Text
closing tag = lt_sign ∷ close_rest tag

-- The raw text, with `s` behind it.
abbrev pub render : List Piece → Text → Text
render [] s = s
render (plain t ∷ ps) s = t ++ render ps s
render (block tag t ∷ ps) s = opening tag ++ (t ++ (closing tag ++ render ps s))

abbrev pub IsPlain : List Piece → Type 0
IsPlain [] = Unit
IsPlain (plain t ∷ ps) = Free lt_sign t × IsPlain ps
IsPlain (block _ t ∷ ps) = Free lt_sign t × IsPlain ps

-- The plain text alone.
abbrev pub plain_text : List Piece → Text
plain_text [] = []
plain_text (plain t ∷ ps) = t ++ plain_text ps
plain_text (block _ _ ∷ ps) = plain_text ps

-- The inner texts of the think blocks, in order.
abbrev pub thoughts : List Piece → List Text
thoughts [] = []
thoughts (plain _ ∷ ps) = thoughts ps
thoughts (block think t ∷ ps) = t ∷ thoughts ps
thoughts (block _ _ ∷ ps) = thoughts ps

-- The pieces without the blocks of a tag.
abbrev pub without : Tag → List Piece → List Piece
without _ [] = []
without tag (plain t ∷ ps) = plain t ∷ without tag ps
without think (block think _ ∷ ps) = without think ps
without tool_use (block tool_use _ ∷ ps) = without tool_use ps
without tool_result (block tool_result _ ∷ ps) = without tool_result ps
without tag (block other t ∷ ps) = block other t ∷ without tag ps
