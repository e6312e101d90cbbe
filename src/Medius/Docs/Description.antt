-- ===== src/Medius/Docs/Description.antt =====
-- cmd/medius/docs/docs.go: the text of a description. The YAML and the template library are parameters.
use containerdisks.Base.{Option, none, some, [], ◌∷◌, ◌++◌, Text, codes}
use containerdisks.Go.Result.{Result, errorf, ◌>>=◌}
use containerdisks.Go.Path.{path_join}
use containerdisks.Go.Maps.{lookup}
use containerdisks.Go.Strconv.{quote}
use containerdisks.Docs.{VirtualMachine, TemplateData}
use containerdisks.Api.{Metadata, describe, default_instancetype_env, default_preference_env}
use containerdisks.Artifacts.{Artifact, metadata, vm, user_data}

-- `yaml.Marshal`, and the template of pkg/docs filled in.
pub record Texts : Type 0 where
  pub yaml_marshal : VirtualMachine → Result Text
  pub execute : TemplateData → Result Text

-- A key that is not there reads as an empty text.
abbrev value_or_empty : Option Text → Text
value_or_empty none = []
value_or_empty (some v) = v

unfoldable pub template_data : Metadata → Text → Text → TemplateData
unfolding lookup
template_data m image example = record {
  name = m.name;
  description = m.description;
  example = example;
  image = image;
  instancetype = value_or_empty (lookup default_instancetype_env m.env_variables);
  preference = value_or_empty (lookup default_preference_env m.env_variables);
}

abbrev pub image_of : Text → Metadata → Text
image_of registry m = path_join (registry ∷ describe m ∷ [])

unfoldable pub create_description : Texts → Artifact → Text → Result Text
unfolding template_data quote path_join describe metadata vm user_data
create_description T artifact registry =
    let m = metadata artifact in
    let image = image_of registry m in
    do
      example ←
          errorf (codes "error marshaling example for for " ++ (quote m.name ++ codes ": "))
            (T.yaml_marshal (vm artifact m.name image (user_data artifact m.example_user_data)))
      errorf (codes "error rendering template for " ++ (quote m.name ++ codes ": "))
          (T.execute (template_data m image example))
