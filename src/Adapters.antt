-- ===== src/Adapters.antt =====
-- src/debug-adapters/AdapterRegistry.ts: language adapters and factories under identifiers that are
-- compared in lower case. `lower_case` is `toLowerCase`; of an adapter only its metadata is kept.
pub mod Resolving
use break_pilot.Common.{
  ℕ, ◌+◌, String, Bool, true, false, not, Option, none, some, List, [], ◌∷◌, ◌++◌, map, ◌==◌,
  string_eq, if◌then◌else◌, leb, ltb, ◌&&◌, ◌||◌, all_of, Result, ok, throw, ◌>>=◌,
}
use break_pilot.Common.Dict.{Dict, get, put, remove, has, values}
use break_pilot.Dap.Wire.{codes, is_space}

-- `Adapter_Contract`
pub record Adapter : Type 0 where
  pub language : String
  pub file_extensions : List String

-- `AdapterFactory`, with what its `create` returns or throws.
pub record Factory : Type 0 where
  pub language : String
  pub create : Result String Adapter

pub data RegistryError : Type 0 where
  invalid_identifier duplicate_language : String → RegistryError
  creation_failed : String → RegistryError
  unsupported_language : (language : String) (supported : List String) → RegistryError

pub record Registry : Type 0 where
  pub adapters : Dict String Adapter
  pub factories : Dict String Factory

-- The maps at the start of the constructor.
abbrev pub empty_maps : Registry
empty_maps = record { adapters = []; factories = [] }

-- The metadata of `new PythonAdapter()`, `new NodeAdapter(language)` and `new JavaAdapter()`.
abbrev pub python_adapter : Adapter
python_adapter = record { language = "python"; file_extensions = ".py" ∷ [] }

abbrev pub node_adapter : String → Adapter
node_adapter language = record {
  language = language;
  file_extensions = if language == "typescript" then ".ts" ∷ [] else ".js" ∷ ".cjs" ∷ ".mjs" ∷ [];
}

abbrev pub java_adapter : Adapter
java_adapter = record { language = "java"; file_extensions = ".java" ∷ [] }

-- The length of a text in UTF-16.
abbrev pub units : List ℕ → ℕ
units [] = 0
units (c ∷ cs) = let rest = units cs in if leb 0x10000 c then 2 + rest else 1 + rest

-- `listIdentifiers`
unfoldable pub list_identifiers : Registry → List String
list_identifiers r =
    map (λ (a : Adapter). a.language) (values r.adapters)
    ++ map (λ (f : Factory). f.language) (values r.factories)

module _ (lower_case : String → String) where
  -- `#validateIdentifier`
  unfoldable pub validate_identifier : String → Result RegistryError String
  validate_identifier identifier =
      if all_of is_space (codes identifier) || ltb 64 (units (codes identifier))
      then throw (invalid_identifier identifier)
      else ok (lower_case identifier)

  -- `#assertNoCollision`
  unfoldable pub assert_no_collision : Registry → String → String → Result RegistryError (Unit {0})
  unfolding has
  assert_no_collision r key identifier =
      if has key r.adapters || has key r.factories
      then throw (duplicate_language identifier)
      else ok tt

  -- The two checks, with the key that they find to be free.
  abbrev pub free_key : Registry → String → Result RegistryError String
  free_key r identifier = validate_identifier identifier >>= λ key.
      (assert_no_collision r key identifier >>= λ free. ok key)

  -- `register`
  unfoldable pub register : Adapter → Registry → Result RegistryError Registry
  unfolding validate_identifier assert_no_collision put
  register a r = free_key r a.language >>= λ key. ok (record r { adapters = put key a r.adapters })

  -- `registerFactory`
  unfoldable pub register_factory : Factory → Registry → Result RegistryError Registry
  unfolding validate_identifier assert_no_collision put
  register_factory f r =
      free_key r f.language >>= λ key. ok (record r { factories = put key f r.factories })

  -- The constructor.
  unfoldable pub new_registry : Result RegistryError Registry
  unfolding register
  new_registry = register python_adapter empty_maps >>= λ r.
      (register (node_adapter "node") r >>= λ s.
      (register (node_adapter "typescript") s >>= λ t. register java_adapter t))

  -- A factory that throws stays where it is.
  abbrev pub constructed :
      String → Result String Adapter → Registry → Registry × Result RegistryError Adapter
  constructed key (throw e) r = (r, throw (creation_failed e))
  constructed key (ok a) r =
      (record { adapters = put key a r.adapters; factories = remove key r.factories }, ok a)

  abbrev pub created :
      String → String → Option Factory → Registry → Registry × Result RegistryError Adapter
  created key language none r = (r, throw (unsupported_language language (list_identifiers r)))
  created key language (some f) r = constructed key f.create r

  abbrev pub found :
      String → String → Option Adapter → Registry → Registry × Result RegistryError Adapter
  found key language (some a) r = (r, ok a)
  found key language none r = created key language (get key r.factories) r

  -- `get`
  unfoldable pub resolve : String → Registry → Registry × Result RegistryError Adapter
  unfolding get list_identifiers remove put
  resolve language r = let key = lower_case language in found key language (get key r.adapters) r

  -- `has`
  unfoldable pub is_registered : String → Registry → Bool
  unfolding has
  is_registered language r =
      has (lower_case language) r.adapters || has (lower_case language) r.factories
