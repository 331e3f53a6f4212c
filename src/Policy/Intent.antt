-- ===== src/Policy/Intent.antt =====
-- The intent of the policies of a namespace (BuildIntent of internal/policy/intent.go).
use kubernaut_operator.Base.{
  ℤ, String, ◌||◌, List, [], ◌∷◌, ◌==◌, if◌then◌else◌, contains, leb_text, is_empty,
}
use kubernaut_operator.Base.Map.{Map}
use kubernaut_operator.Api.Network.{ScrapeSource, NamedOverride}
use kubernaut_operator.Kube.Op.{message, Result, ok, err}

-- Intent
pub record Intent : Type 0 where
  pub namespace : String
  pub instance_name : String
  pub components : List String
  pub scrape_sources : List ScrapeSource
  pub metrics_ports : Map ℤ
  pub ingress_overrides : Map NamedOverride

-- The keys of `unique`: each component that is not empty, once.
unfoldable pub unique : List String → List String
unique [] = []
unique (component ∷ components) =
    let rest = unique components in
    if component == "" || contains rest component then rest else component ∷ rest

-- sort.Strings
unfoldable pub insert_sorted : String → List String → List String
insert_sorted x [] = x ∷ []
insert_sorted x (y ∷ ys) =
    let rest = insert_sorted x ys in if leb_text x y then x ∷ y ∷ ys else y ∷ rest

unfoldable pub sort_strings : List String → List String
sort_strings [] = []
sort_strings (x ∷ xs) = insert_sorted x (sort_strings xs)

abbrev pub new_intent : String → List String → Intent
new_intent namespace components = record {
  namespace = namespace;
  instance_name = namespace;
  components = sort_strings (unique components);
  scrape_sources = [];
  metrics_ports = [];
  ingress_overrides = [];
}

-- BuildIntent
unfoldable pub build_intent : String → List String → Result Intent
build_intent namespace components =
    if namespace == ""
    then err (message "policy namespace is required")
    else if is_empty (unique components)
    then err (message "at least one policy component is required")
    else ok (new_intent namespace components)
