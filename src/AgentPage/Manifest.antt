-- ===== src/AgentPage/Manifest.antt =====
-- The manifest of an agent: what a reader of YAML finds in it.
use recif.Base.{
  ◌==◌, drop, ◌≡◌, refl, ap, ◌∙◌, ◌≢◌, Bool, true, false, not, ◌&&◌, Bool-cases, inl, inr, Option,
  none, some, List, [], ◌∷◌, ◌++◌, map, All, All-append, arith, if◌then◌else◌,
}
use recif.Text.{Text, codes, text_eq, join}
use recif.Text.Regions.{Free}
use recif.Json.{nonempty}
use recif.AgentPage.{
  Agent, lines_of, dashed, or_default, slug_of, head_lines, indented, prompt_lines,
  build_agent_yaml,
}
use recif.AgentPage.Lines.{lines_of-join, join-lines_of, lines_of-Free, dashed-Free}
use recif.Text.Decimal.{decimal, decimal-All}
use mathlib.Core.Option

or_default-Free : (t d : Text) → Free 10 t → Free 10 d → Free 10 (or_default t d)
or_default-Free [] d _ free = free
or_default-Free (c ∷ t) d free _ = free

-- The texts of an agent that stand on one line of the manifest have no line feed.
pub record IsOneLine (a : Agent) : Type 0 where
  pub id : Free 10 a.id
  pub name : Free 10 a.name
  pub framework : Free 10 a.framework
  pub strategy : Free 10 a.strategy
  pub channel : Free 10 a.channel
  pub model_type : Free 10 a.model_type
  pub model_id : Free 10 a.model_id
  pub image : Free 10 a.image
  pub storage : Free 10 a.storage

-- How a reader of YAML takes the block that `systemPrompt: |` opens: the lines behind it, without
-- their indentation.
unfoldable pub find_prompt : List Text → Option (List Text)
find_prompt [] = none
find_prompt (l ∷ ls) = if text_eq l (codes "  systemPrompt: |") then some ls else find_prompt ls

unfoldable pub read_prompt : Text → Option Text
read_prompt yaml = elim (find_prompt (lines_of yaml)) [
  | some ls ↦ some (join (codes "\n") (map (drop 4) ls))
  | none ↦ none
]

map-indented : (ls : List Text) → map (drop 4) (map indented ls) ≡ ls
map-indented [] = refl
map-indented (l ∷ ls) = ap (l ∷◌) (map-indented ls)

abbrev no_line_feed : Text → Bool
no_line_feed [] = true
no_line_feed (c ∷ s) = not (c == 10) && no_line_feed s

literal-Free : (s : Text) → no_line_feed s ≡ true → Free 10 s
literal-Free [] h = tt
literal-Free (c ∷ s) h = (ground (arith, h), literal-Free s (ground (arith, h)))

-- A literal in front of a text.
labelled : (label t : Text) → no_line_feed label ≡ true → Free 10 t → Free 10 (label ++ t)
labelled label t h free = All-append (λ c. c ≢ 10) label t (literal-Free label h) free

indented-Free : (ls : List Text) → All (Free 10) ls → All (Free 10) (map indented ls)
indented-Free [] _ = tt
indented-Free (l ∷ ls) (free, rest) = (labelled (codes "    ") l refl free, indented-Free ls rest)

module _ (lower : Text → Text) (a : Agent) where
  -- None of the lines before it opens the block.
  find_prompt-head_lines :
      (ls : List Text) → find_prompt (head_lines lower a ++ ls) ≡ find_prompt ls
  unfolding find_prompt head_lines text_eq
  find_prompt-head_lines ls = elim (Bool-cases (nonempty a.storage)) [
    | inl kept ↦ rw kept refl
    | inr left ↦ rw left refl
  ]

  module _ (one : IsOneLine a) where
    slug_of-Free : Free 10 (slug_of lower a)
    unfolding slug_of
    slug_of-Free =
        or_default-Free (dashed false (lower a.name)) a.id (dashed-Free false (lower a.name)) one.id

    -- The line of the storage, if there is one.
    storage-Free :
        All (Free 10) (if nonempty a.storage then (codes "  storage: " ++ a.storage) ∷ [] else [])
    storage-Free = elim (Bool-cases (nonempty a.storage)) [
      | inl kept ↦ rw kept (labelled (codes "  storage: ") a.storage refl one.storage, tt)
      | inr left ↦ rw left tt
    ]

    setting-Free :
        (label t d : Text)
        → no_line_feed label ≡ true
        → Free 10 t
        → no_line_feed d ≡ true
        → Free 10 (label ++ or_default t d)
    setting-Free label t d h free k =
        labelled label (or_default t d) h (or_default-Free t d free (literal-Free d k))

    settings-Free : All (Free 10) (
        (codes "  framework: " ++ or_default a.framework (codes "corail"))
        ∷ (codes "  strategy: " ++ or_default a.strategy (codes "agent-react"))
        ∷ (codes "  channel: " ++ or_default a.channel (codes "rest"))
        ∷ (codes "  modelType: " ++ or_default a.model_type (codes "vertex-ai"))
        ∷ (codes "  modelId: " ++ or_default a.model_id (codes "gemini-2.5-flash"))
        ∷ (codes "  image: " ++ or_default a.image (codes "corail:latest"))
        ∷ (codes "  replicas: " ++ decimal (Option.get_or a.replicas 1))
        ∷ [])
    settings-Free = (
      setting-Free (codes "  framework: ") a.framework (codes "corail") refl one.framework refl,
      (
        setting-Free (codes "  strategy: ") a.strategy (codes "agent-react") refl one.strategy refl,
        (
          setting-Free (codes "  channel: ") a.channel (codes "rest") refl one.channel refl,
          (
            setting-Free (codes "  modelType: ") a.model_type (codes "vertex-ai") refl
                one.model_type refl,
            (
              setting-Free (codes "  modelId: ") a.model_id (codes "gemini-2.5-flash") refl
                  one.model_id refl,
              (
                setting-Free (codes "  image: ") a.image (codes "corail:latest") refl one.image
                    refl,
                (
                  labelled (codes "  replicas: ") (decimal (Option.get_or a.replicas 1)) refl (
                      decimal-All (λ c. c ≢ 10) (λ d lt. omega (arith, lt))
                        (Option.get_or a.replicas 1)),
                  tt,
                ),
              ),
            ),
          ),
        ),
      ),
    )

    head_lines-Free : All (Free 10) (head_lines lower a)
    unfolding head_lines
    head_lines-Free = (
      literal-Free (codes "apiVersion: agents.recif.dev/v1") refl,
      (
        literal-Free (codes "kind: Agent") refl,
        (
          literal-Free (codes "metadata:") refl,
          (
            labelled (codes "  name: ") (slug_of lower a) refl slug_of-Free,
            (
              literal-Free (codes "  namespace: team-default") refl,
              (
                literal-Free (codes "spec:") refl,
                (
                  labelled (codes "  name: \"") (a.name ++ codes "\"") refl (
                      All-append (λ c. c ≢ 10) a.name (codes "\"") one.name
                        (literal-Free (codes "\"") refl)),
                  All-append (Free 10) _ _ storage-Free settings-Free,
                ),
              ),
            ),
          ),
        ),
      ),
    )

    prompt_lines-Free : All (Free 10) (prompt_lines a)
    unfolding prompt_lines
    prompt_lines-Free = elim (Bool-cases (nonempty a.system_prompt)) [
      | inl full ↦ rw full (
        literal-Free (codes "  systemPrompt: |") refl,
        indented-Free (lines_of a.system_prompt) (lines_of-Free a.system_prompt),
      )
      | inr none_left ↦ rw none_left tt
    ]

lines_of-build_agent_yaml :
    (lower : Text → Text) (a : Agent)
    → IsOneLine a
    → lines_of (build_agent_yaml lower a) ≡ head_lines lower a ++ prompt_lines a
unfolding build_agent_yaml head_lines
lines_of-build_agent_yaml lower a one = lines_of-join (codes "apiVersion: agents.recif.dev/v1") _ (
    All-append (Free 10) (head_lines lower a) (prompt_lines a) (head_lines-Free lower a one)
      (prompt_lines-Free lower a one))

find_prompt-prompt_lines :
    (a : Agent)
    → nonempty a.system_prompt ≡ true
    → find_prompt (prompt_lines a) ≡ some (map indented (lines_of a.system_prompt))
unfolding prompt_lines find_prompt text_eq
find_prompt-prompt_lines a full = rw full refl

-- For an agent that has a system prompt and whose other texts have no line feed, the manifest can be
-- read: the lines behind the first `systemPrompt` line, each without its first four characters and
-- joined by line feeds, are the system prompt, whatever lines it has.
pub read_prompt-build_agent_yaml :
    (lower : Text → Text) (a : Agent)
    → IsOneLine a
    → nonempty a.system_prompt ≡ true
    → read_prompt (build_agent_yaml lower a) ≡ some a.system_prompt
unfolding read_prompt
read_prompt-build_agent_yaml lower a one full =
    ap (λ ls. of_block (find_prompt ls)) (lines_of-build_agent_yaml lower a one)
    ∙ ap of_block
        (find_prompt-head_lines lower a (prompt_lines a) ∙ find_prompt-prompt_lines a full)
    ∙ ap (λ ls. some (join (codes "\n") ls)) (map-indented (lines_of a.system_prompt))
    ∙ ap some (join-lines_of a.system_prompt)
  where
    of_block : Option (List Text) → Option Text
    of_block none = none
    of_block (some ls) = some (join (codes "\n") (map (drop 4) ls))
