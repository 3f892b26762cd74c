-- ===== src/Base/Json.antt =====
-- `encoding/json` for a type, and what it promises of the values of the type.
use mathlib.Core.Path.{◌≡◌}
use mathlib.Core.Logic.{◌⊎◌, inl}
use Prim.Native.String.{String}

pub record Json (C T : Type 0) : Type 0 where
  pub marshal : T → C ⊎ String
  pub unmarshal : C → T ⊎ String

-- a value is encoded, and decoded to itself
pub record IsFaithful {C T : Type 0} (json : Json C T) : Type 0 where
  pub encoded : T → C
  pub marshalled : (value : T) → json.marshal value ≡ inl (encoded value)
  pub unmarshalled : (value : T) → json.unmarshal (encoded value) ≡ inl value
