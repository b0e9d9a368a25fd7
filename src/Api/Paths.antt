-- ===== src/Api/Paths.antt =====
-- The URLs of the client: what can be read back from one.
use recif.Base.{
  ℕ, ◌≡◌, refl, ap, ◌∙◌, ◌≢◌, ◌==◌, List, [], ◌∷◌, ◌++◌, append-nil, append_assoc, All, arith,
  if◌then◌else◌,
}
use recif.Text.{Text, codes}
use recif.Api.{Endpoint, slashed, endpoint_path}

-- A path as a server reads it: what stands before the first slash, the segments, and the query.
pub record PathParts : Type 0 where
  pub before : Text
  pub segments : List Text
  pub query : Text

unfoldable pub read_unit : ℕ → Text → PathParts → PathParts
read_unit c s p =
    if c == b'?'
    then record { before = []; segments = []; query = c ∷ s }
    else if c == b'/'
    then record { before = []; segments = p.before ∷ p.segments; query = p.query }
    else record p { before = c ∷ p.before }

unfoldable pub read_path : Text → PathParts
read_path [] = record { before = []; segments = []; query = [] }
read_path (c ∷ s) = read_unit c s (read_path s)

-- Texts with neither a slash nor a question mark, as the identifiers of the API are.
abbrev pub IsSegment : Text → Type 0
IsSegment = All (λ c. (c ≢ b'/') × (c ≢ b'?'))

-- A query is empty or begins with a question mark.
abbrev pub IsQuery : Text → Type 0
IsQuery [] = Unit
IsQuery (c ∷ _) = c ≡ b'?'

read_unit-other :
    (c : ℕ) (s : Text) (p : PathParts)
    → c ≢ b'/'
    → c ≢ b'?'
    → read_unit c s p ≡ record p { before = c ∷ p.before }
unfolding read_unit
read_unit-other c s p h k = ground (arith, h, k)

read_unit-slash :
    (s : Text) (p : PathParts)
    → read_unit b'/' s p ≡ record { before = []; segments = p.before ∷ p.segments; query = p.query }
unfolding read_unit
read_unit-slash s p = refl

read_path-segment :
    (seg s : Text)
    → IsSegment seg
    → read_path (seg ++ s) ≡ record (read_path s) { before = seg ++ (read_path s).before }
unfolding read_path
read_path-segment [] s _ = refl
read_path-segment (c ∷ seg) s ((h, k), free) =
    ap (read_unit c (seg ++ s)) (read_path-segment seg s free) ∙ read_unit-other c (seg ++ s) _ h k

read_path-query :
    (q : Text) → IsQuery q → read_path q ≡ record { before = []; segments = []; query = q }
unfolding read_path read_unit
read_path-query [] _ = refl
read_path-query (c ∷ q) h = ground (arith, h)

read_path-slashed :
    (ss : List Text) (q : Text)
    → All IsSegment ss
    → IsQuery q
    → read_path (slashed ss ++ q) ≡ record { before = []; segments = ss; query = q }
unfolding read_path
read_path-slashed [] q _ h = read_path-query q h
read_path-slashed (s ∷ ss) q (free, rest) h =
    ap (λ t. read_path (b'/' ∷ t)) (append_assoc s (slashed ss) q)
    ∙ ap (read_unit b'/' (s ++ (slashed ss ++ q))) (
        read_path-segment s (slashed ss ++ q) free
        ∙ ap (λ (p : PathParts). record p { before = s ++ p.before })
            (read_path-slashed ss q rest h))
    ∙ read_unit-slash (s ++ (slashed ss ++ q)) _
    ∙ ap (λ seg. record { before = []; segments = seg ∷ ss; query = q }) (append-nil s)

-- The server reads back what the client puts together: the path of an endpoint whose segments have no
-- slash and no question mark gives those segments, behind "api" and "v1", and the query.
pub read_path-endpoint_path :
    (e : Endpoint)
    → All IsSegment e.segments
    → IsQuery e.query
    → read_path (endpoint_path e)
      ≡ record { before = []; segments = codes "api" ∷ codes "v1" ∷ e.segments; query = e.query }
unfolding endpoint_path
read_path-endpoint_path e free h =
    read_path-slashed (codes "api" ∷ codes "v1" ∷ e.segments) e.query
      (omega arith, (omega arith, free)) h
