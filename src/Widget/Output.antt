-- ===== src/Widget/Output.antt =====
-- What the widget shows of a response.
use recif.Base.{ℕ, ◌≡◌, refl, ◌∙◌, some, [], ◌∷◌, ◌++◌, arith}
use recif.Text.{Text, codes, strip_prefix}
use recif.Text.Regions.{Free}
use recif.Widget.{until_quote, match_output, output_of}

until_quote-Free : (t rest : Text) → Free b'"' t → until_quote (t ++ b'"' ∷ rest) ≡ some t
unfolding until_quote
until_quote-Free [] rest free = refl
until_quote-Free (c ∷ t) rest (n, free) = ground (arith, n, until_quote-Free t rest free)

match_output-key :
    (c : ℕ) (s rest found : Text)
    → strip_prefix (codes "\"output\":\"") (c ∷ s) ≡ some rest
    → until_quote rest ≡ some found
    → match_output (c ∷ s) ≡ some found
unfolding match_output
match_output-key c s rest found key ends = rw (match_output, key, ends) refl

match_output-brace : (s : Text) → match_output (b'{' ∷ s) ≡ match_output s
unfolding match_output strip_prefix
match_output-brace s = refl

strip_prefix-key :
    (s : Text) → strip_prefix (codes "\"output\":\"") (codes "\"output\":\"" ++ s) ≡ some s
unfolding strip_prefix
strip_prefix-key s = refl

-- Of a response whose first field is the output, the widget shows what stands before the next
-- quotation mark: the whole output if it has none, and else its beginning, since an escaped quotation
-- mark, behind a backslash, ends it too.
pub output_of-first :
    (t rest : Text) → Free b'"' t → output_of (codes "{\"output\":\"" ++ (t ++ b'"' ∷ rest)) ≡ t
unfolding output_of
output_of-first t rest free =
    let answer = t ++ b'"' ∷ rest in
    rw
      (match_output-brace (codes "\"output\":\"" ++ answer)
        ∙ match_output-key b'"' (codes "output\":\"" ++ answer) answer t (strip_prefix-key answer)
            (until_quote-Free t rest free))
      refl
