-- ===== src/Server/Routes.antt =====
-- getEndpoints of server/api/index.js, which lists the endpoints of the router for /info. `none` is the
-- error of an assignment to a property of `undefined`.
pub mod Listed
use mathlib.Core.Option
use dgc_database_tp.Prelude.{
  String, Bool, true, false, List, [], ◌∷◌, ◌++◌, Option, none, some, if◌then◌else◌, ◌==◌,
  text_test, ◌>>=◌,
}

-- A layer of a route's stack: the name of its function, and the method.
pub record Layer : Type 0 where
  pub name : String
  pub method : String

pub record Route : Type 0 where
  pub path : String
  pub stack : List Layer

pub record Endpoint : Type 0 where
  pub path : String
  pub method : String
  pub restricted : Bool

-- `_.nth(layers, -1).restricted = true`
abbrev pub restrict_last : List Endpoint → Option (List Endpoint)
restrict_last [] = none
restrict_last (e ∷ []) = some (record e { restricted = true } ∷ [])
restrict_last (e ∷ f ∷ es) = Option.map (λ gs. e ∷ gs) (restrict_last (f ∷ es))

abbrev pub reverse : {A : Type 0} → List A → List A
reverse [] = []
reverse (x ∷ xs) = reverse xs ++ (x ∷ [])

-- `upper` is `toUpperCase`.
module _ (upper : String → String) where
  abbrev pub add_layer : String → Layer → List Endpoint → Option (List Endpoint)
  add_layer path layer layers =
      if layer.name == "restrict"
      then restrict_last layers
      else some
          (layers ++ (record { path = path; method = upper layer.method; restricted = false } ∷ []))

  -- `reduceRight`
  abbrev pub reduce_layers : String → List Layer → Option (List Endpoint)
  reduce_layers path [] = some []
  reduce_layers path (layer ∷ stack) = reduce_layers path stack >>= add_layer path layer

  unfoldable pub route_endpoints : Route → Option (List Endpoint)
  route_endpoints route = Option.map reverse (reduce_layers route.path route.stack)

  -- `getEndpoints`, of the layers of the router: those without a route are filtered out.
  unfoldable pub get_endpoints : List (Option Route) → Option (List Endpoint)
  get_endpoints [] = some []
  get_endpoints (none ∷ layers) = get_endpoints layers
  get_endpoints (some route ∷ layers) = do
    es ← route_endpoints route
    rest ← get_endpoints layers
    some (es ++ rest)
