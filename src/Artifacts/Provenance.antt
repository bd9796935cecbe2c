-- ===== src/Artifacts/Provenance.antt =====
-- apps/artifact-service/src/domain/provenance.py: `ArtifactProvenance`, the test for aliases of models
-- and the test of completeness. A temperature is the text of its number.
use keviq_core.Prelude.{
  ℕ, String, Bool, true, false, not, ◌&&◌, ◌||◌, Option, none, some, List, [], ◌∷◌, map, ◌==◌,
  if◌then◌else◌, is_blank, is_empty, Codes, codes, codes_eq, lower_code,
}
use keviq_core.Errors.{incomplete_provenance, model_alias, Result, ok, ◌>>◌, raise_if}

-- The letters that `re.IGNORECASE` takes for the same: upper and lower case, and three letters
-- outside ASCII.
abbrev fold : ℕ → ℕ
fold c = if (c == 304) || (c == 305) then 105 else if c == 383 then 115 else lower_code c

-- `latest`, `default`, `stable`, `preview` or `nightly`, up to a line break, which `$` lets stand.
is_word : Codes → Bool
is_word cs =
    codes_eq cs (codes "latest")
    || codes_eq cs (codes "default")
    || codes_eq cs (codes "stable")
    || codes_eq cs (codes "preview")
    || codes_eq cs (codes "nightly")

chop : Codes → Codes
chop [] = []
chop (c ∷ []) = if c == 10 then [] else c ∷ []
chop (c ∷ d ∷ cs) = c ∷ chop (d ∷ cs)

is_alias_word : Codes → Bool
unfolding is_word chop
is_alias_word cs = is_word cs || is_word (chop cs)

-- A hyphen and one of the words at the end.
ends_in_alias : Codes → Bool
unfolding is_alias_word
ends_in_alias [] = false
ends_in_alias (c ∷ cs) = (c == 45) && is_alias_word cs || ends_in_alias cs

-- `_is_model_alias`
unfoldable pub is_model_alias : String → Bool
unfolding is_alias_word ends_in_alias
is_model_alias value =
    let cs = map fold (codes value) in
    not (is_empty value) && (is_alias_word cs || ends_in_alias cs)

pub record Provenance : Type 0 where
  pub artifact_id : ℕ
  pub input_snapshot : List (List (String × String))
  pub run_config_hash : Option String
  pub tool_name : Option String
  pub tool_version : Option String
  pub tool_config_hash : Option String
  pub model_provider : Option String
  pub model_name_concrete : Option String
  pub model_version_concrete : Option String
  pub model_temperature : Option String
  pub model_max_tokens : Option ℕ
  pub system_prompt_hash : Option String
  pub lineage_chain : List String
  pub correlation_id : Option ℕ
  pub id : ℕ

-- `field and _is_model_alias(field)`
abbrev pub names_alias : Option String → Bool
names_alias none = false
names_alias (some s) = is_model_alias s

-- `__post_init__`: the record, unless a name or a version in it is an alias.
unfoldable pub post_init : Provenance → Result Provenance
post_init p = do
  raise_if (names_alias p.model_name_concrete) model_alias
  raise_if (names_alias p.model_version_concrete) model_alias
  ok p

-- `not field or not field.strip()`
abbrev pub is_missing : Option String → Bool
is_missing none = true
is_missing (some s) = is_blank s

-- `tool_version` is missing where `tool_name` is set.
abbrev tool_is_incomplete : Provenance → Bool
tool_is_incomplete p = not (is_missing p.tool_name) && is_missing p.tool_version

-- `missing` is not empty at the end of `validate_complete`; `upload` for `root_type == "upload"`.
unfoldable pub is_incomplete : (upload : Bool) → Provenance → Bool
is_incomplete upload p =
    if upload
    then tool_is_incomplete p
    else is_missing p.run_config_hash
      || tool_is_incomplete p
      || is_missing p.model_provider
      || is_missing p.model_name_concrete
      || is_missing p.model_version_concrete

unfoldable pub validate_complete : (upload : Bool) → Provenance → Result (Unit {0})
unfolding is_incomplete
validate_complete upload p = raise_if (is_incomplete upload p) incomplete_provenance

-- `set_model_identity`
unfoldable pub set_model_identity :
    (provider name version : String) (temperature : Option String) (max_tokens : Option ℕ)
    (system_prompt_hash : Option String)
    → Provenance
    → Result Provenance
unfolding is_model_alias
set_model_identity provider name version temperature max_tokens system_prompt_hash p = do
  raise_if (is_model_alias name) model_alias
  raise_if (is_model_alias version) model_alias
  ok (record p {
    model_provider = some provider;
    model_name_concrete = some name;
    model_version_concrete = some version;
    model_temperature = temperature;
    model_max_tokens = max_tokens;
    system_prompt_hash = system_prompt_hash;
  })
