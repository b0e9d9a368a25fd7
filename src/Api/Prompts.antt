-- ===== src/Api/Prompts.antt =====
-- dashboard/src/lib/api.ts: the functions on one prompt, which encode its name. `none` is the
-- URIError that encodeURIComponent throws, before anything is sent.
use recif.Base.{ℕ, ◌≡◌, ap, Option, none, some, List, [], ◌∷◌, arith}
use recif.Text.{Text, codes}
use recif.Text.Decimal.{decimal}
use recif.Text.Encode.{encode_component, encode_component-IsInside}
use recif.Json.{str, num}
use recif.Api.{
  Endpoint, get_method, post_method, delete_method, with_status, nothing, whole, object,
  endpoint_path,
}
use recif.Api.Paths.{PathParts, IsSegment, read_path, read_path-endpoint_path}

unfoldable pub fetch_prompt : Text → Option Endpoint
fetch_prompt name = elim (encode_component name) [
  | none ↦ none
  | some encoded ↦ some (record {
    method = get_method;
    segments = codes "prompts" ∷ encoded ∷ [];
    query = [];
    body = none;
    refusal = with_status (codes "Prompt not found");
    shape = whole;
  })
]

unfoldable pub set_prompt_alias : Text → Text → ℕ → Option Endpoint
set_prompt_alias name alias version = elim (encode_component name) [
  | none ↦ none
  | some encoded ↦ some (record {
    method = post_method;
    segments = codes "prompts" ∷ encoded ∷ codes "aliases" ∷ [];
    query = [];
    body = object ((codes "alias", str alias) ∷ (codes "version", num (decimal version)) ∷ []);
    refusal = with_status (codes "Failed to set alias");
    shape = nothing;
  })
]

unfoldable pub delete_prompt_alias : Text → Text → Option Endpoint
delete_prompt_alias name alias = elim (encode_component name) [
  | none ↦ none
  | some encoded ↦ elim (encode_component alias) [
    | none ↦ none
    | some encoded_alias ↦ some (record {
      method = delete_method;
      segments = codes "prompts" ∷ encoded ∷ codes "aliases" ∷ encoded_alias ∷ [];
      query = [];
      body = none;
      refusal = with_status (codes "Failed to delete alias");
      shape = nothing;
    })
  ]
]

-- What a server reads of the path that a function sends.
abbrev pub read_sent : Option Endpoint → Option PathParts
read_sent none = none
read_sent (some e) = some (read_path (endpoint_path e))

-- The path of one prompt, with further segments.
abbrev pub prompt_path : Text → List Text → PathParts
prompt_path encoded rest = record {
  before = [];
  segments = codes "api" ∷ codes "v1" ∷ codes "prompts" ∷ encoded ∷ rest;
  query = [];
}

-- Whatever a prompt and an alias are called, slashes and question marks included, if both names can
-- be encoded, each function on the prompt sends a path that a server splits into "prompts", the
-- encoded name, and what is behind it: nothing, "aliases", or "aliases" and the encoded alias.
pub read_sent-prompts :
    (name alias encoded encoded_alias : Text) (version : ℕ)
    → encode_component name ≡ some encoded
    → encode_component alias ≡ some encoded_alias
    → (read_sent (fetch_prompt name) ≡ some (prompt_path encoded []))
      × (read_sent (set_prompt_alias name alias version)
          ≡ some (prompt_path encoded (codes "aliases" ∷ [])))
      × (read_sent (delete_prompt_alias name alias)
          ≡ some (prompt_path encoded (codes "aliases" ∷ encoded_alias ∷ [])))
unfolding fetch_prompt set_prompt_alias delete_prompt_alias
read_sent-prompts name alias encoded encoded_alias version h k = (
  rw (h, read_sent) (ap some (read_path-endpoint_path _ (prompts, (inside, tt)) tt)),
  rw (h, read_sent) (ap some (read_path-endpoint_path _ (prompts, (inside, (aliases, tt))) tt)),
  rw (h, k, read_sent)
      (ap some (read_path-endpoint_path _ (prompts, (inside, (aliases, (inside_alias, tt)))) tt)),
)
  where
    prompts : IsSegment (codes "prompts")
    prompts = ground arith

    aliases : IsSegment (codes "aliases")
    aliases = ground arith

    inside : IsSegment encoded
    inside = encode_component-IsInside name encoded h

    inside_alias : IsSegment encoded_alias
    inside_alias = encode_component-IsInside alias encoded_alias k
