-- ===== src/Scope/Tests.antt =====
-- The scope of a chat server's backup.
use resilient_datacenter.Shared.{
  String, true, false, str_eq, same_texts, none, some, List, [], ◌∷◌, ◌≡◌, refl,
}
use resilient_datacenter.Shared.Optional.{Returns}
use resilient_datacenter.Scope.Resources.{
  Owner, Contracts, Installed, role_of, package_of, scope, resources, binary_paths, tag, validate,
  verify_installed, installed_application,
}
use resilient_datacenter.Scope.Separation.{Separated, resources-Separated}

-- A network is its role, and an application is its packages.
abbrev contracts : Contracts String (List String)
contracts = record {
  role = λ n. n;
  tls_mode = λ n. none;
  packages = λ a. a;
  validate_portable_owner = λ n. some tt;
  include = λ n a. some (record { network = n; application = some a });
  same_owner = λ a b. str_eq a.network b.network;
  same_network = str_eq;
  same_application = same_texts;
}

abbrev chat : Owner String (List String)
chat = record { network = "portable"; application = some ("matrix" ∷ []) }

chat-resources :
    resources contracts chat
    ≡ some (record {
      paths =
          "etc/server-connectivity-profile.json" ∷ "etc/rdc-services" ∷ "var/lib/rdc-services" ∷ [];
      services = "rdc-service-proxy" ∷ "rdc-element" ∷ "rdc-synapse" ∷ "rdc-postgres" ∷ [];
    })
unfolding resources scope validate role_of package_of
chat-resources = refl

chat-tag : tag contracts chat ≡ some "matrix"
unfolding tag validate package_of
chat-tag = refl

-- A gateway's directory without its ownership is refused.
abbrev half_installed : Installed String (List String)
half_installed = record {
  read_network = some "peer";
  read_application = λ p. none;
  has_ownership = λ p. false;
  has_gateway_directory = true;
}

half_installed-refused : installed_application contracts half_installed ≡ none
unfolding installed_application
half_installed-refused = refl

half_installed-verified :
    verify_installed contracts half_installed (record { network = "peer"; application = none })
    ≡ some tt
unfolding verify_installed validate
half_installed-verified = refl

resources-Separated_example :
    Returns (λ r. Returns (Separated r) (binary_paths contracts chat)) (resources contracts chat)
resources-Separated_example = resources-Separated contracts chat
