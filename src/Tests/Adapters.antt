-- ===== src/Tests/Adapters.antt =====
-- The registry of language adapters at small inputs.
use break_pilot.Common.{String, List, [], ◌∷◌, ◌≡◌, refl, ok, if◌then◌else◌, ◌==◌, string_eq}
use break_pilot.Common.Dict
use break_pilot.Adapters
use break_pilot.Adapters.Resolving
use break_pilot.Adapters.Resolving.{resolve-register}

abbrev lower_case : String → String
lower_case s = if s == "Perl" then "perl" else if s == "RUBY" then "ruby" else s

abbrev ruby : Adapters.Factory
ruby = record {
  language = "ruby";
  create = ok (record { language = "ruby"; file_extensions = [] });
}

abbrev perl : Adapters.Adapter
perl = record { language = "Perl"; file_extensions = ".pl" ∷ [] }

-- The registry that the constructor makes.
abbrev fresh : Adapters.Registry
fresh = record {
  adapters =
      ("python", Adapters.python_adapter)
      ∷ ("node", Adapters.node_adapter "node")
      ∷ ("typescript", Adapters.node_adapter "typescript")
      ∷ ("java", Adapters.java_adapter)
      ∷ [];
  factories = [];
}

new_registry_fresh : Adapters.new_registry lower_case ≡ ok fresh
unfolding Adapters.new_registry
new_registry_fresh = refl

abbrev with_perl : Adapters.Registry
with_perl = record fresh { adapters = Dict.put "perl" perl fresh.adapters }

abbrev with_both : Adapters.Registry
with_both = record with_perl { factories = ("ruby", ruby) ∷ [] }

abbrev later_calls : List Resolving.Call
later_calls =
    Resolving.resolving "ruby"
    ∷ Resolving.registering perl
    ∷ Resolving.registering_factory ruby
    ∷ Resolving.resolving "go"
    ∷ []

resolve-register_example :
    ((Adapters.resolve lower_case "perl" (Resolving.perform_all lower_case with_both later_calls)).1
      ≡ ok perl)
    × ((Adapters.resolve lower_case "RUBY"
          (Resolving.perform_all lower_case with_both later_calls)).1
        ≡ Resolving.answer ruby.create)
unfolding Adapters.register Adapters.register_factory Dict.get Dict.put Dict.has
resolve-register_example =
    resolve-register lower_case perl ruby fresh with_perl with_both later_calls "perl" "RUBY" refl
      refl refl refl
