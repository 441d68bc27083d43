-- ===== src/Domain/Json.antt =====
-- The JSON values that are hashed, and what the program takes from other libraries to hash them:
-- RFC 8785 canonical bytes (rfc8785) and SHA-256 (hashlib).
use joinlint.Prelude.{ℕ, String, Bool, List, [], ◌∷◌, ◌++◌}
use joinlint.Domain.Text.{codes}

mutual
  pub data Json : Type 0 where
    num : ℕ → Json
    bool : Bool → Json
    text : String → Json
    arr : Items → Json
    obj : Fields → Json

  pub data Items : Type 0 where
    nil : Items
    cons : Json → Items → Items

  pub data Fields : Type 0 where
    end : Fields
    field : String → Json → Fields → Fields

-- A JSON array of the values of a list.
abbrev pub array {ℓ} : {A : Type ℓ} → (A → Json) → List A → Items
array f [] = nil
array f (x ∷ xs) = cons (f x) (array f xs)

pub record Hashing : Type 0 where
  -- `joinlint.contracts.canonical_json`, a call of `rfc8785.dumps`
  pub canonical_json : Json → List ℕ
  -- `hashlib.sha256(...).hexdigest()`
  pub sha256 : List ℕ → String

-- `_hash(domain, value)`
unfoldable pub hash : Hashing → String → Json → String
hash h domain value = h.sha256 ((codes domain ++ 0 ∷ []) ++ h.canonical_json value)
