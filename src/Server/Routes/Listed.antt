-- ===== src/Server/Routes/Listed.antt =====
-- Which endpoints are listed as restricted.
use mathlib.Core.Option
use mathlib.Core.Path.{fun_ext}
use dgc_database_tp.Prelude.{
  String, Bool, true, false, List, [], ◌∷◌, ◌++◌, Option, none, some, ◌≡◌, ◌∙◌, refl, sym, ap, inl,
  inr, Bool-cases, if◌then◌else◌, ◌==◌, text_test, ◌>>=◌,
}
use dgc_database_tp.Server.Routes.{
  Layer, Route, Endpoint, restrict_last, reverse, reduce_layers, route_endpoints, get_endpoints,
}

abbrev restrict_first : List Endpoint → Option (List Endpoint)
restrict_first [] = none
restrict_first (e ∷ es) = some (record e { restricted = true } ∷ es)

reverse-snoc : {A : Type 0} (xs : List A) (x : A) → reverse (xs ++ (x ∷ [])) ≡ x ∷ reverse xs
reverse-snoc [] x = refl
reverse-snoc (y ∷ xs) x = ap (λ zs. zs ++ (y ∷ [])) (reverse-snoc xs x)

restrict_first-snoc :
    (ys : List Endpoint) (f e : Endpoint)
    → restrict_first ((ys ++ (f ∷ [])) ++ (e ∷ []))
      ≡ Option.map (λ zs. zs ++ (e ∷ [])) (restrict_first (ys ++ (f ∷ [])))
restrict_first-snoc [] f e = refl
restrict_first-snoc (y ∷ ys) f e = refl

reverse-cons :
    (e : Endpoint) (m : Option (List Endpoint))
    → Option.map reverse (Option.map (λ gs. e ∷ gs) m)
      ≡ Option.map (λ zs. zs ++ (e ∷ [])) (Option.map reverse m)
reverse-cons e none = refl
reverse-cons e (some gs) = refl

-- The last of a list is the first of its reverse.
reverse-restrict_last :
    (es : List Endpoint) → Option.map reverse (restrict_last es) ≡ restrict_first (reverse es)
reverse-restrict_last [] = refl
reverse-restrict_last (e ∷ []) = refl
reverse-restrict_last (e ∷ f ∷ es) =
    reverse-cons e (restrict_last (f ∷ es))
    ∙ ap (λ m. Option.map (λ zs. zs ++ (e ∷ [])) m) (reverse-restrict_last (f ∷ es))
    ∙ sym (restrict_first-snoc (reverse es) f e)

reverse->>= :
    (m : Option (List Endpoint))
    → Option.map reverse (m >>= restrict_last) ≡ (Option.map reverse m >>= restrict_first)
reverse->>= none = refl
reverse->>= (some es) = reverse-restrict_last es

restrict_twice :
    (m : Option (List Endpoint))
    → ((m >>= restrict_first) >>= restrict_first) ≡ (m >>= restrict_first)
restrict_twice none = refl
restrict_twice (some []) = refl
restrict_twice (some (e ∷ es)) = refl

module _ (upper : String → String) where
  abbrev endpoint : String → Layer → Bool → Endpoint
  endpoint path layer restricted = record {
    path = path;
    method = upper layer.method;
    restricted = restricted;
  }

  -- From left to right: a handler is restricted when `restrict` stands right before it, or before
  -- more of them; a `restrict` with no handler after it is an error.
  abbrev pub listed : String → Bool → List Layer → Option (List Endpoint)
  listed path restricted [] = if restricted then none else some []
  listed path restricted (layer ∷ stack) =
      if layer.name == "restrict"
      then listed path true stack
      else Option.map (λ es. endpoint path layer restricted ∷ es) (listed path false stack)

  added :
      (path : String) (layer : Layer) (m : Option (List Endpoint))
      → Option.map reverse (m >>= (λ es. some (es ++ (endpoint path layer false ∷ []))))
        ≡ Option.map (λ es. endpoint path layer false ∷ es) (Option.map reverse m)
  added path layer none = refl
  added path layer (some es) = ap some (reverse-snoc es (endpoint path layer false))

  added_restricted :
      (path : String) (layer : Layer) (m : Option (List Endpoint))
      → (Option.map (λ es. endpoint path layer false ∷ es) m >>= restrict_first)
        ≡ Option.map (λ es. endpoint path layer true ∷ es) m
  added_restricted path layer none = refl
  added_restricted path layer (some es) = refl

  reduce-guard :
      (path : String) (layer : Layer) (stack : List Layer)
      → (layer.name == "restrict") ≡ true
      → reduce_layers upper path (layer ∷ stack)
        ≡ (reduce_layers upper path stack >>= restrict_last)
  reduce-guard path layer stack guard =
      ap (λ f. reduce_layers upper path stack >>= f) (fun_ext (λ es. rw guard refl))

  reduce-handler :
      (path : String) (layer : Layer) (stack : List Layer)
      → (layer.name == "restrict") ≡ false
      → Option.map reverse (reduce_layers upper path (layer ∷ stack))
        ≡ Option.map
            (λ es. endpoint path layer false ∷ es)
            (Option.map reverse (reduce_layers upper path stack))
  reduce-handler path layer stack handler =
      ap (λ f. Option.map reverse (reduce_layers upper path stack >>= f))
        (fun_ext (λ es. rw handler refl))
      ∙ added path layer (reduce_layers upper path stack)

  reduce-listed :
      (path : String) (stack : List Layer)
      → (listed path false stack ≡ Option.map reverse (reduce_layers upper path stack))
        × (listed path true stack
            ≡ (Option.map reverse (reduce_layers upper path stack) >>= restrict_first))
  reduce-listed path [] = (refl, refl)
  reduce-listed path (layer ∷ stack) = elim (Bool-cases (layer.name == "restrict")) [
    | inl guard ↦
        let (open_, closed) = reduce-listed path stack in
        let same : Option.map reverse (reduce_layers upper path (layer ∷ stack))
            ≡ (Option.map reverse (reduce_layers upper path stack) >>= restrict_first) =
          ap (λ m. Option.map reverse m) (reduce-guard path layer stack guard)
          ∙ reverse->>= (reduce_layers upper path stack) in
        (
          rw (guard, same) closed,
          rw (guard, same)
              (closed ∙ sym (restrict_twice (Option.map reverse (reduce_layers upper path stack)))),
        )
    | inr handler ↦
        let (open_, closed) = reduce-listed path stack in
        let same = reduce-handler path layer stack handler in
        (
          rw (handler, same) (ap (λ m. Option.map (λ es. endpoint path layer false ∷ es) m) open_),
          rw (handler, same)
              (ap (λ m. Option.map (λ es. endpoint path layer true ∷ es) m) open_
                ∙ sym (
                    added_restricted path layer
                      (Option.map reverse (reduce_layers upper path stack)))),
        )
  ]

  -- The endpoints of one route.
  route_endpoints-listed :
      (route : Route) → route_endpoints upper route ≡ listed route.path false route.stack
  unfolding route_endpoints
  route_endpoints-listed route = sym ((reduce-listed route.path route.stack).0)

  -- The same for every route of the router, in the order of its layers.
  abbrev pub listed_all : List (Option Route) → Option (List Endpoint)
  listed_all [] = some []
  listed_all (none ∷ layers) = listed_all layers
  listed_all (some route ∷ layers) =
      listed route.path false route.stack
      >>= (λ es. listed_all layers >>= (λ rest. some (es ++ rest)))

  -- The list of endpoints is the one that a reading of each route's stack from left to right
  -- gives: an endpoint for each handler in their order, restricted exactly when a restrict stands
  -- right before it, and an error when a restrict has no handler after it.
  pub get_endpoints-listed :
      (layers : List (Option Route)) → get_endpoints upper layers ≡ listed_all layers
  unfolding get_endpoints
  get_endpoints-listed [] = refl
  get_endpoints-listed (none ∷ layers) = get_endpoints-listed layers
  get_endpoints-listed (some route ∷ layers) =
      rw (route_endpoints-listed route, get_endpoints-listed layers) refl
