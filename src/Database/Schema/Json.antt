-- ===== src/Database/Schema/Json.antt =====
-- JSON values as Python holds them after parsing. A float is its 64-bit pattern, which the program
-- only stores and passes on.
use healpipe.Prelude.{ℕ, String, Bool, [], ◌∷◌, ◌≡◌, refl, ap}
use healpipe.Prelude.Dict.{Dict}

-- `negsuc n` is -(n + 1).
pub data ℤ : Type 0 where
  pos : ℕ → ℤ
  negsuc : ℕ → ℤ

mutual
  pub data Value : Type 0 where
    str : String → Value
    int : ℤ → Value
    float : ℕ → Value
    boolean : Bool → Value
    obj : Fields → Value
    arr : Items → Value
    null : Value

  pub data Fields : Type 0 where
    end : Fields
    field : String → Value → Fields → Fields

  pub data Items : Type 0 where
    nil : Items
    cons : Value → Items → Items

-- A payload is a dict at the top level, which the pipeline edits key by key.
abbrev pub Payload : Type 0
Payload = Dict Value

-- The same dict, seen as a value and as a payload.
abbrev pub fields : Payload → Fields
fields [] = end
fields ((k, v) ∷ p) = field k v (fields p)

abbrev pub payload : Fields → Payload
payload end = []
payload (field k v fs) = (k, v) ∷ payload fs

pub payload-fields : (p : Payload) → payload (fields p) ≡ p
payload-fields [] = refl
payload-fields ((k, v) ∷ p) = ap (λ r. (k, v) ∷ r) (payload-fields p)
